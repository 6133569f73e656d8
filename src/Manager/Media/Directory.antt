-- ===== src/Manager/Media/Directory.antt =====
-- What the media tables are for: a directory of files by kind and path, and how it takes in a report of
-- the container. This is the specification that ControlManager's tables refine.
use kylin_kmre_manager.Base.{
  ℕ, ◌+◌, ◌%◌, ◌&&◌, ◌||◌, List, [], ◌∷◌, Option, none, some, ◌==◌, list_eq, nat_beq, length,
  if◌then◌else◌,
}
use kylin_kmre_manager.Base.Int.{word, int_leb}
use kylin_kmre_manager.Base.Text.{Text}
use kylin_kmre_manager.Manager.Media.Table.{AndroidMeta, Kind, kind_of}
use kylin_kmre_manager.Manager.Media.Lookup.{or_first, kind_beq}

-- The specification: for each kind and path the file that is known, and how many files of a dump that
-- is not complete have come.
abbrev pub Files : Type 0
Files = Kind → Text → Option AndroidMeta

pub record Directory : Type 0 where
  pub files : Files
  pub received : ℕ

abbrev pub no_files : Files
no_files k p = none

-- A file is added under its kind and path, unless one is known there.
unfoldable pub put : AndroidMeta → Files → Files
put m v k p =
    if kind_beq (kind_of m.mime_type) k && (m.path == p) then some (or_first (v k p) m) else v k p

unfoldable pub take_out : AndroidMeta → Files → Files
take_out m v k p = if kind_beq (kind_of m.mime_type) k && (m.path == p) then none else v k p

abbrev pub change : ℕ → AndroidMeta → Files → Files
change type m v =
    if nat_beq type 0 || nat_beq type 1 then put m v else if nat_beq type 2 then take_out m v else v

abbrev pub change_files : ℕ → List AndroidMeta → Files → Files
change_files type [] v = v
change_files type (m ∷ l) v = change_files type l (change type m v)

-- The counter after a batch, an int as its 32 bits: 0 once as many files have come as there are.
abbrev pub received_after : List AndroidMeta → ℕ → ℕ → ℕ
received_after [] total n = n
received_after (m ∷ l) total n = if int_leb total n then 0 else n

pub record Message : Type 0 where
  pub type : ℕ
  pub metas : List AndroidMeta
  pub total : ℕ

-- The first batch of a dump forgets what was known.
unfoldable pub receive : Message → Directory → Directory
receive g d =
    if nat_beq g.type 0
    then record {
      files = change_files 0 g.metas (if nat_beq d.received 0 then no_files else d.files);
      received = received_after g.metas g.total ((d.received + length g.metas) % word);
    }
    else record d { files = change_files g.type g.metas d.files }

abbrev pub receive_all : List Message → Directory → Directory
receive_all [] d = d
receive_all (g ∷ gs) d = receive_all gs (receive g d)
