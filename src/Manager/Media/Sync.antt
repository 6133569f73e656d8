-- ===== src/Manager/Media/Sync.antt =====
-- ControlManager::onSyncFiles (manager/communication/controlmanager.cpp). The container reports its
-- files in batches (type 0, with the number of files in all), and single changes (1 for a new file, 2
-- for a removed one). The two counters and the number of files are ints, each taken as its 32
-- bits.
use kylin_kmre_manager.Base.{
  ℕ, ◌+◌, ◌%◌, ◌||◌, List, [], ◌∷◌, ◌++◌, Option, none, some, nat_beq, length, if◌then◌else◌,
}
use kylin_kmre_manager.Base.Int.{word, int_leb}
use kylin_kmre_manager.Manager.Media.Table.{AndroidMeta, Tables, no_metas, insert_meta, remove_meta}
use kylin_kmre_manager.Manager.Media.Paths.{Host, FileCommand, link_commands, remove_commands}

-- The members, the signals filesMessage emitted, and the commands for the file system; oldest first.
pub record Media : Type 0 where
  pub tables : Tables
  pub current_num : ℕ
  pub total_num : ℕ
  pub messages : List (ℕ × List AndroidMeta)
  pub commands : List FileCommand

-- The source does not initialise the two counters, so what they hold at first is an argument.
abbrev pub new_media : ℕ → ℕ → Media
new_media current total = record {
  tables = no_metas;
  current_num = current;
  total_num = total;
  messages = [];
  commands = [];
}

-- What is done before the loop.
unfoldable pub start_sync : ℕ → List AndroidMeta → ℕ → Media → Media
start_sync type metas total s =
    if nat_beq type 0
    then record s {
      tables = if nat_beq s.current_num 0 then no_metas else s.tables;
      current_num = (s.current_num + length metas) % word;
      total_num = total;
    }
    else s

abbrev pub emit_message : ℕ → List AndroidMeta → Media → Media
emit_message type metas s = record s { messages = s.messages ++ (type, metas) ∷ [] }

-- The signal for an entry of type 0 or 1.
unfoldable pub announce : ℕ → List AndroidMeta → Media → Media
announce type metas s =
    if nat_beq type 0
    then (if int_leb s.total_num s.current_num
        then record (emit_message type metas s) { current_num = 0; total_num = 0 }
        else s)
    else emit_message type metas s

abbrev pub with_commands : Media → Option (List FileCommand) → Option Media
with_commands s none = none
with_commands s (some cs) = some (record s { commands = s.commands ++ cs })

-- The body of the loop. `none` stands for a call of front or back on an empty list.
unfoldable pub sync_meta : Host → ℕ → List AndroidMeta → AndroidMeta → Media → Option Media
unfolding announce
sync_meta h type metas m s =
    if nat_beq type 0 || nat_beq type 1
    then with_commands (announce type metas (record s { tables = insert_meta m s.tables }))
        (link_commands h m)
    else if nat_beq type 2
    then with_commands (emit_message type metas (record s { tables = remove_meta m s.tables }))
        (remove_commands h m)
    else some s

abbrev pub then_each : (Media → Option Media) → Option Media → Option Media
then_each f none = none
then_each f (some s) = f s

unfoldable pub sync_each : Host → ℕ → List AndroidMeta → List AndroidMeta → Media → Option Media
unfolding sync_meta
sync_each h type metas [] s = some s
sync_each h type metas (m ∷ l) s =
    then_each (λ t. sync_each h type metas l t) (sync_meta h type metas m s)

unfoldable pub on_sync_files : Host → ℕ → List AndroidMeta → ℕ → Media → Option Media
unfolding start_sync sync_each
on_sync_files h type metas total s = sync_each h type metas metas (start_sync type metas total s)
