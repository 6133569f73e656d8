-- ===== src/Manager/Media/Paths.antt =====
-- The links that ControlManager makes to the files of an application (manager/communication/
-- controlmanager.cpp, onSyncFiles): the paths, and what is asked of the file system.
use kylin_kmre_manager.Base.{
  ℕ, zero, suc, ◌+◌, ◌-◌, Bool, true, false, not, ◌&&◌, ◌||◌, List, [], ◌∷◌, ◌++◌, Option, none,
  some, ◌==◌, list_eq, nat_beq, leb, length, if◌then◌else◌,
}
use kylin_kmre_manager.Base.Text.{Text, codes, is_empty, split_skip_empty}
use kylin_kmre_manager.Manager.Media.Table.{AndroidMeta}

-- The user, and what mkpath, link and exists answer.
pub record Host : Type 0 where
  pub uid : Text
  pub user_name : Text
  pub can_make_path : Text → Bool
  pub can_link : Text → Text → Bool
  pub exists : Text → Bool

-- The calls that are made; for link, with whether it succeeds, which is only logged.
pub data FileCommand : Type 0 where
  makes_path : Text → FileCommand
  links : Text → Text → Bool → FileCommand
  removes : Text → FileCommand

-- QString::compare without regard to case, for an ASCII pattern; U+017F folds to s.
abbrev pub fold : ℕ → ℕ
fold c = if leb b'A' c && leb c b'Z' then c + 32 else if nat_beq c 0x17f then b's' else c

unfoldable pub starts_with_folded : Text → Text → Bool
starts_with_folded s [] = true
starts_with_folded [] (y ∷ ys) = false
starts_with_folded (x ∷ xs) (y ∷ ys) = nat_beq (fold x) (fold y) && starts_with_folded xs ys

-- QString::remove of a text, in any case: `skip` characters of an occurrence are still to go.
unfoldable pub remove_text : Text → ℕ → Text → Text
unfolding starts_with_folded
remove_text t skip [] = []
remove_text t (suc skip) (c ∷ s) = remove_text t skip s
remove_text t zero (c ∷ s) =
    let gone = remove_text t (length t - 1) s in
    let kept = c ∷ remove_text t zero s in if starts_with_folded (c ∷ s) t then gone else kept

-- QStringList::front and back, with `none` for an empty list, where they may not be called.
abbrev pub front : List Text → Option Text
front [] = none
front (p ∷ ps) = some p

abbrev pub back : List Text → Option Text
back [] = none
back (p ∷ []) = some p
back (p ∷ q ∷ ps) = back (q ∷ ps)

unfoldable pub entry_path : Host → Text
entry_path h =
    codes "/var/lib/kmre/data/kmre-" ++ (h.uid ++ (codes "-" ++ (h.user_name ++ codes "/")))

unfoldable pub directory_name : Text → Text
directory_name part =
    if part == codes "audio"
    then codes "音乐"
    else if part == codes "video"
    then codes "视频"
    else if part == codes "image"
    then codes "图片"
    else if part == codes "application" || part == codes "text"
    then codes "文档"
    else codes "其他"

-- destPath and destPath2, for a directory name.
unfoldable pub dest_path : Host → AndroidMeta → Text → Text
unfolding entry_path
dest_path h m file_type =
    entry_path h ++ (codes "/KmreData/" ++ (m.pkg_name ++ (codes "/" ++ (file_type ++ codes "/"))))

unfoldable pub dest_path2 : Host → AndroidMeta → Text → Text
unfolding entry_path
dest_path2 h m file_type =
    entry_path h ++ (codes "/KmreData/" ++ (file_type ++ (codes "/" ++ (m.pkg_name ++ codes "/"))))

unfoldable pub src_file_path : Host → AndroidMeta → Text
unfolding entry_path remove_text
src_file_path h m = entry_path h ++ remove_text (codes "/storage/emulated/0") 0 m.path

unfoldable pub link_into : Host → Text → Text → Text → List FileCommand
link_into h src dest file_name =
    if h.can_make_path dest
    then makes_path dest ∷ links src (dest ++ file_name) (h.can_link src (dest ++ file_name)) ∷ []
    else makes_path dest ∷ []

unfoldable pub remove_from : Host → Text → Text → List FileCommand
remove_from h dest file_name =
    if h.exists (dest ++ file_name) then removes (dest ++ file_name) ∷ [] else []

-- What an inserted and what a removed file ask of the file system, for the parts of its type and of
-- its path; `none` where front or back may not be called.
unfoldable pub link_named :
    Host → AndroidMeta → Option Text → Option Text → Option (List FileCommand)
unfolding link_into dest_path dest_path2 src_file_path directory_name
link_named h m (some part) (some file_name) = some (
    link_into h (src_file_path h m) (dest_path h m (directory_name part)) file_name
    ++ link_into h (src_file_path h m) (dest_path2 h m (directory_name part)) file_name)
link_named h m none file_name = none
link_named h m (some part) none = none

unfoldable pub remove_named :
    Host → AndroidMeta → Option Text → Option Text → Option (List FileCommand)
unfolding remove_from dest_path dest_path2 directory_name
remove_named h m (some part) (some file_name) = some (
    remove_from h (dest_path h m (directory_name part)) file_name
    ++ remove_from h (dest_path2 h m (directory_name part)) file_name)
remove_named h m none file_name = none
remove_named h m (some part) none = none

abbrev pub type_part : AndroidMeta → Option Text
type_part m = front (split_skip_empty m.mime_type b'/')

abbrev pub name_part : AndroidMeta → Option Text
name_part m = back (split_skip_empty m.path b'/')

abbrev pub is_of_app : AndroidMeta → Bool
is_of_app m = not (is_empty m.pkg_name) && not (is_empty m.mime_type)

unfoldable pub link_commands : Host → AndroidMeta → Option (List FileCommand)
unfolding link_named
link_commands h m = if is_of_app m then link_named h m (type_part m) (name_part m) else some []

unfoldable pub remove_commands : Host → AndroidMeta → Option (List FileCommand)
unfolding remove_named
remove_commands h m = if is_of_app m then remove_named h m (type_part m) (name_part m) else some []
