-- ===== src/Manager/Media/Table.antt =====
-- The media tables of ControlManager (manager/communication/controlmanager.cpp, manager/dbus/
-- metatypes.h): what the container's database holds, by kind of file.
use kylin_kmre_manager.Base.{
  Bool, true, false, ◌&&◌, ◌||◌, List, [], ◌∷◌, ◌++◌, ◌==◌, list_eq, any, if◌then◌else◌,
}
use kylin_kmre_manager.Base.Text.{Text, codes, contains_text}

-- AndroidMeta, whose operator== compares the paths only.
pub record AndroidMeta : Type 0 where
  pub path : Text
  pub mime_type : Text
  pub pkg_name : Text

abbrev pub same_file : AndroidMeta → AndroidMeta → Bool
same_file m n = m.path == n.path

pub data Kind : Type 0 where
  image video audio document other : Kind

-- The chain of tests on a type.
unfoldable pub kind_of : Text → Kind
kind_of mime =
    if contains_text mime (codes "image")
    then image
    else if contains_text mime (codes "video")
    then video
    else if contains_text mime (codes "audio")
    then audio
    else if contains_text mime (codes "application") || contains_text mime (codes "text")
    then document
    else other

pub record Tables : Type 0 where
  pub images : List AndroidMeta
  pub videos : List AndroidMeta
  pub audios : List AndroidMeta
  pub documents : List AndroidMeta
  pub others : List AndroidMeta

abbrev pub no_metas : Tables
no_metas = record { images = []; videos = []; audios = []; documents = []; others = [] }

-- filesIsEmpty.
abbrev pub is_nil : List AndroidMeta → Bool
is_nil [] = true
is_nil (m ∷ l) = false

unfoldable pub files_is_empty : Tables → Bool
files_is_empty t =
    is_nil t.images
    && (is_nil t.videos && (is_nil t.audios && (is_nil t.documents && is_nil t.others)))

-- QList::contains, and the insertion that it guards.
unfoldable pub contains_meta : AndroidMeta → List AndroidMeta → Bool
contains_meta m l = any (λ n. same_file n m) l

unfoldable pub add_new : AndroidMeta → List AndroidMeta → List AndroidMeta
unfolding contains_meta
add_new m l = if contains_meta m l then l else l ++ m ∷ []

-- The loop that finds the first entry with the path, and removeOne on it, which removes the first
-- entry with that path.
unfoldable pub remove_first : Text → List AndroidMeta → List AndroidMeta
remove_first path [] = []
remove_first path (m ∷ l) = let rest = remove_first path l in if m.path == path then l else m ∷ rest

-- The table that the chain of tests on a type picks, in a reading and in a writing place.
abbrev pub table_of : Kind → Tables → List AndroidMeta
table_of image t = t.images
table_of video t = t.videos
table_of audio t = t.audios
table_of document t = t.documents
table_of other t = t.others

abbrev pub with_table : Kind → List AndroidMeta → Tables → Tables
with_table image l t = record t { images = l }
with_table video l t = record t { videos = l }
with_table audio l t = record t { audios = l }
with_table document l t = record t { documents = l }
with_table other l t = record t { others = l }

unfoldable pub insert_meta : AndroidMeta → Tables → Tables
insert_meta m t = let k = kind_of m.mime_type in with_table k (add_new m (table_of k t)) t

unfoldable pub remove_meta : AndroidMeta → Tables → Tables
remove_meta m t = let k = kind_of m.mime_type in with_table k (remove_first m.path (table_of k t)) t

-- getAllFiles; its second argument is unused.
unfoldable pub get_all_files : Text → Tables → List AndroidMeta
get_all_files uri t =
    if uri == codes "kmre:///picture"
    then t.images
    else if uri == codes "kmre:///video"
    then t.videos
    else if uri == codes "kmre:///audio"
    then t.audios
    else if uri == codes "kmre:///document"
    then t.documents
    else if uri == codes "kmre:///other"
    then t.others
    else []
