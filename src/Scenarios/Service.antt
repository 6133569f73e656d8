-- ===== src/Scenarios/Service.antt =====
-- The queue, the scans and the walk at concrete inputs (filewatcher/file-inotify/
-- file-inotify-service.cpp).
use kylin_kmre_manager.Base.{
  ℕ, ◌≡◌, refl, Bool, true, false, List, [], ◌∷◌, ◌++◌, Option, none, some, list_eq, All, arith,
}
use kylin_kmre_manager.Base.Text.{Text, codes}
use kylin_kmre_manager.Base.Int.{pos}
use kylin_kmre_manager.FileWatcher.Inotify.Watcher.{directory}
use kylin_kmre_manager.FileWatcher.Service.Queue.{
  NotifyFileInfo, Answers, is_media, fresh, scan, scans, container_prefix, replace_front, is_wanted,
}
use kylin_kmre_manager.FileWatcher.Service.Scan.{
  IsSettled, announcement, scans_settled, ComesFrom, scan-ComesFrom,
}
use kylin_kmre_manager.FileWatcher.Service.Large.{scans_large}
use kylin_kmre_manager.FileWatcher.Service.Walk.{
  Node, Entries, file, dir, other, nil, entry, System, Service, add_watch_recursively,
}
use kylin_kmre_manager.FileWatcher.Service.Walked.{
  wanted, visible_files, add_watch_recursively-list,
}
use kylin_kmre_manager.FileWatcher.Service.Coverage.{Covers}
use kylin_kmre_manager.FileWatcher.Program.{Locations, in_order, start_service}
use kylin_kmre_manager.FileWatcher.Program.Watched.{dirs_of_all, start_service-Covers}
use kylin_kmre_manager.FileWatcher.Service.Threads
use kylin_kmre_manager.FileWatcher.Service.Threads.Starting.{start_returns}
use kylin_kmre_manager.FileWatcher.Service.Kept.{IsSound}
use kylin_kmre_manager.FileWatcher.Service.Invariant.{
  Call, initializes, adds_recursively, handles, scans_queue, run, new_service,
  run-new_service-IsSound,
}

abbrev home : Text
home = codes "/h"

abbrev photo : Text
photo = codes "/h/a.png"

abbrev answers : ℕ → Option Bool → Answers
answers size known = record {
  stat_size = λ p. some size;
  name_has_owner = λ p. known;
  mime_of_content = λ p. codes "image/png";
}

settled : IsSettled (λ p. 700) (answers 700 none) (answers 700 (some true)) photo
settled = record { first_size = refl; second_size = refl; small = omega arith; known = refl }

scans_settled_example :
    (scans (answers 700 none ∷ answers 700 (some true) ∷ []) home false (fresh photo ∷ [])).2
    ≡ announcement (answers 700 (some true)) home photo ∷ []
unfolding is_media
scans_settled_example =
    (scans_settled (λ p. 700) (answers 700 none) (answers 700 (some true)) home false (photo ∷ [])
      (settled, tt)).1

photo_announced :
    announcement (answers 700 (some true)) home photo
    ≡ (codes "/storage/emulated/0/0-麒麟文件//a.png", codes "image/png")
unfolding container_prefix replace_front
photo_announced = refl

abbrev seen : NotifyFileInfo
seen = record { path = photo; size = pos 700 }

scan-ComesFrom_example :
    All
      (ComesFrom (answers 700 (some true)) home (seen ∷ []))
      (scan (answers 700 (some true)) home false (seen ∷ [])).2
scan-ComesFrom_example = scan-ComesFrom (answers 700 (some true)) home false (seen ∷ [])

scans_large_example :
    (scans (answers 3000000000 (some true) ∷ []) home true (fresh photo ∷ [])).2 ≡ []
scans_large_example =
    (scans_large (answers 3000000000 (some true) ∷ []) home true (fresh photo ∷ [])
      (((3000000000, refl, omega arith), tt), tt) ((λ n h. refl), tt)).1

-- A directory with a photo, a hidden file and a directory with another photo.
abbrev tree : Entries
tree =
    entry (codes "a.png") file
      (entry (codes ".b") file (entry (codes "d") (dir (entry (codes "c.png") file nil)) nil))

abbrev system : System
system = record {
  kernel = record {
    init = pos 3;
    add_watch = λ p. pos 1;
    rm_watch = λ d. pos 0;
    lstat = λ p. some directory;
  };
  contents = λ p. tree;
  can_open = λ p. true;
  realpath = λ p. some p;
  mime_of_name = λ p. codes "image/png";
  home = home;
}

abbrev service : Service
service = record {
  initialized = true;
  watcher = record { wd_to_path = []; path_to_wd = []; inotify_fd = pos 3; initialized = true };
  file_list = [];
}

add_watch_recursively-list_example :
    (add_watch_recursively system home true service).0.file_list
    ≡ [] ++ wanted system (visible_files system home (dir tree))
add_watch_recursively-list_example = add_watch_recursively-list system home service refl refl

tree-wanted :
    wanted system (visible_files system home (dir tree))
    ≡ fresh (codes "/h/a.png") ∷ fresh (codes "/h/d/c.png") ∷ []
unfolding wanted visible_files is_wanted is_media
    kylin_kmre_manager.FileWatcher.Service.Walk.is_skipped
tree-wanted = refl

-- A photo arrives in the watched home directory, and a scan sees it.
abbrev calls : List Call
calls =
    initializes system
    ∷ adds_recursively system home true
    ∷ handles system (record { wd = pos 1; mask = 256; len = 16; name = codes "e.png" })
    ∷ scans_queue (answers 700 none) false
    ∷ []

run-new_service-IsSound_example : IsSound home (run home new_service calls)
run-new_service-IsSound_example =
    (run-new_service-IsSound home calls (refl, (refl, (refl, (tt, tt))))).0

-- The program starts on the same tree, with the home directory as the first of its locations.
abbrev locations : Locations
locations = record {
  documents = home;
  download = codes "/h/d";
  pictures = codes "/x";
  movies = codes "/x";
  music = codes "/x";
  desktop = codes "/x";
}

start_service-Covers_example :
    Covers (start_service system locations new_service) (dirs_of_all system (in_order locations))
start_service-Covers_example = (start_service-Covers system locations 3 refl (λ p. (1, refl))).0

start_returns_example :
    (Threads.run
      (Threads.initializes ∷ Threads.starts ∷ Threads.watcher ∷ Threads.main ∷ [])
      Threads.new_threads).starting
    ≡ false
start_returns_example = start_returns (Threads.initializes ∷ Threads.starts ∷ [])
