-- ===== src/Scenarios/Inotify.antt =====
-- The inotify watcher at concrete calls (filewatcher/file-inotify/file-inotify-watcher.cpp).
use kylin_kmre_manager.Base.{
  ◌≡◌, refl, true, ◌&&◌, not, List, [], ◌∷◌, none, some, ◌==◌, list_eq, arith, if◌then◌else◌,
}
use kylin_kmre_manager.Base.Text.{Text, codes}
use kylin_kmre_manager.Base.Int.{pos}
use kylin_kmre_manager.FileWatcher.Inotify.Watcher.{
  Kernel, Watcher, directory, new, remove_watch_wd, watched_path_from_wd, wd_from_watched_path,
  first_dir, has, is_path_dir,
}
use kylin_kmre_manager.FileWatcher.Inotify.Consistency.{
  IsConsistent, Call, initializes, adds, run, run-new-IsConsistent,
}
use kylin_kmre_manager.FileWatcher.Inotify.Effects.{remove_watch_wd-lookup}
use kylin_kmre_manager.FileWatcher.Inotify.Buffer.{Reader, Supply}
use kylin_kmre_manager.FileWatcher.Inotify.Stream.{
  Event, encode, encode_all, reads, reads-encode_all,
}

abbrev pictures : Text
pictures = codes "/p"

abbrev moved : Text
moved = codes "/q"

-- A kernel that gives every path the descriptor 1; only /q is a directory.
abbrev kernel : Kernel
kernel = record {
  init = pos 3;
  add_watch = λ p. pos 1;
  rm_watch = λ d. pos 0;
  lstat = λ p. if p == moved then some directory else none;
}

abbrev history : List Call
history = initializes kernel ∷ adds kernel pictures ∷ adds kernel moved ∷ []

-- /p and /q under one descriptor.
abbrev two_names : Watcher
two_names = run new history

run-new-IsConsistent_example : IsConsistent (run new history)
run-new-IsConsistent_example = run-new-IsConsistent history

remove_watch_wd-lookup_example :
    wd_from_watched_path moved (remove_watch_wd kernel (pos 1) two_names).watcher ≡ (
      if has 1 moved two_names.wd_to_path && not (is_path_dir kernel moved)
      then none
      else wd_from_watched_path moved two_names)
unfolding run new
remove_watch_wd-lookup_example =
    (remove_watch_wd-lookup kernel 1 two_names refl (run-new-IsConsistent history)).0 moved

two_names_left : watched_path_from_wd kernel (pos 1) two_names ≡ some moved
unfolding run new watched_path_from_wd first_dir
two_names_left = refl

-- Two events, one with a name of four bytes and one without.
abbrev created : Event
created = record { wd = 1; mask = 256; cookie = 0; name = 97 ∷ 0 ∷ 0 ∷ 0 ∷ [] }

abbrev deleted : Event
deleted = record { wd = 1; mask = 1024; cookie = 0; name = [] }

abbrev supply : Supply
supply = record { poll = pos 1; read = some (encode_all (created ∷ deleted ∷ [])) }

abbrev empty_reader : Reader
empty_reader = record { ready = true; current_position = 0; total_read = 0; event_buffer = [] }

reads-encode_all_example :
    (reads 2 supply empty_reader).0 ≡ some (encode created) ∷ some (encode deleted) ∷ []
reads-encode_all_example =
    (reads-encode_all supply empty_reader created (deleted ∷ []) refl refl refl refl (omega arith)
      (omega arith)).0
