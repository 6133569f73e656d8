-- ===== src/Scenarios/Links.antt =====
-- The links at concrete inputs (filewatcher/file-watcher.cpp).
use kylin_kmre_manager.Base.{
  ◌≡◌, refl, Bool, true, false, List, [], ◌∷◌, Option, none, some, list_eq, arith, if◌then◌else◌,
}
use kylin_kmre_manager.Base.Text.{Text, codes}
use kylin_kmre_manager.Base.Map.{lookup, insert, erase, lookup-insert_self, lookup-erase_self}
use kylin_kmre_manager.FileWatcher.Links.FileSystem.{
  FileSystem, StorageInfo, LinkDestination, check_storage, check, normal,
}
use kylin_kmre_manager.FileWatcher.Links.Link.{State, IsGentle}
use kylin_kmre_manager.FileWatcher.Links.Safety.{
  changes_storage, updates_directory, run, run-IsGentle,
}
use kylin_kmre_manager.FileWatcher.Links.Start
use kylin_kmre_manager.FileWatcher.Links.Start.{DesktopEntry, delete_old_links}
use kylin_kmre_manager.FileWatcher.Links.Starting.{pushed, run-signals}
use kylin_kmre_manager.FileWatcher.Links.Gentle.{run-delete_old_links-IsGentle}

-- A file system as a table: a path is a link with its target, or something else.
abbrev Table : Type 0
Table = List (Text × Option Text)

abbrev target : Table → Text → Option Text
target t p = elim (lookup p t) [ none ↦ none | some e ↦ e ]

abbrev exists : Table → Text → Bool
exists t p = elim (lookup p t) [
  | none ↦ false
  | some none ↦ true
  | some (some q) ↦ elim (lookup q t) [ none ↦ false | some e ↦ true ]
]

abbrev can_link : Text → Text → Table → Bool
can_link source name t = elim (lookup name t) [ none ↦ true | some e ↦ false ]

abbrev link : Text → Text → Table → Table
link source name t = if can_link source name t then insert name (some source) t else t

target_after_link :
    (source name : Text) (t : Table)
    → can_link source name t ≡ true
    → target (link source name t) name ≡ some source
target_after_link source name t h = ground (arith, lookup-insert_self name (some source) t)

target_after_erase : (name : Text) (t : Table) → target (erase name t) name ≡ none
target_after_erase name t = ground (arith, lookup-erase_self name t)

abbrev table_system : FileSystem
table_system = record {
  Fs = Table;
  target = target;
  exists = exists;
  dir_exists = exists;
  link = link;
  can_link = can_link;
  remove = λ name t. erase name t;
  can_remove = λ name t. true;
  mkpath = λ p t. t;
  set_icon = λ name icon t. t;
  absolute = λ name source. source;
  target-link = λ source name t h. target_after_link source name t h;
  target-remove = λ name t h. target_after_erase name t;
  target-set_icon = λ name icon path t. refl;
}

abbrev storage : Text
storage = codes "/s"

abbrev desktop : Text
desktop = codes "/d"

abbrev entry : LinkDestination
entry = record { destination = desktop; icon_path = []; should_create = true }

abbrev state : Table → State table_system
state t = record {
  fs = t;
  log = [];
  signals = [];
  system_watch = [];
  pending_watch = [];
  depend_watch = [];
  link_watch = [];
  hash_directory = [];
  hash_storage = (storage, entry) ∷ [];
  hash_pending = [];
  hash_depend = [];
  hash_link = [];
  directory_workers = [];
}

abbrev mounted : StorageInfo
mounted = record { valid = true; ready = true; fuse_device = true; fuse_type = true }

abbrev empty : Table
empty = (storage, none) ∷ []

run-IsGentle_example : IsGentle table_system (
    run table_system
      (changes_storage storage mounted ∷ updates_directory storage ∷ [])
      (state empty))
run-IsGentle_example =
    run-IsGentle table_system (changes_storage storage mounted ∷ updates_directory storage ∷ [])
      (state empty) tt

-- A watched directory that is gone, with its worker.
abbrev watched : State table_system
watched = record (state []) {
  system_watch = storage ∷ [];
  hash_directory = (storage, entry) ∷ [];
  directory_workers = storage ∷ [];
}

run-signals_example :
    (Start.run table_system false (λ p. mounted) watched).signals
    ≡ check_storage storage true ∷ check storage normal ∷ []
unfolding pushed
run-signals_example = run-signals table_system (λ p. mounted) watched

abbrev old_link : DesktopEntry
old_link = record { name = codes "QQ_Data"; path = desktop; link_target = some storage }

run-delete_old_links-IsGentle_example : IsGentle table_system (
    Start.run table_system false
      (λ p. mounted)
      (delete_old_links table_system (storage ∷ []) [] (old_link ∷ []) (state empty)))
run-delete_old_links-IsGentle_example =
    run-delete_old_links-IsGentle table_system false (λ p. mounted) (storage ∷ []) []
      (old_link ∷ []) (state empty) refl tt
