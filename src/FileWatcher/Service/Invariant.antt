-- ===== src/FileWatcher/Service/Invariant.antt =====
-- What holds of the service after any sequence of calls, events and scans (filewatcher/file-inotify/
-- file-inotify-service.cpp).
use mathlib.Core.List.{Memᴰ}
use kylin_kmre_manager.Base.{
  ℕ, ◌≡◌, sym, subst, Bool, false, List, [], ◌∷◌, Option, none, some, All, arith, if_both, ap, ◌∙◌,
  ◌++◌, All-imp,
}
use kylin_kmre_manager.Base.Text.{Text, codes}
use kylin_kmre_manager.Base.Int.{ℤ, int_beq, ℤ-cases, pos}
use kylin_kmre_manager.FileWatcher.Inotify.Watcher.{
  Watcher, Outcome, new, is_path_dir, is_path_regular_file,
}
use kylin_kmre_manager.FileWatcher.Inotify.Watcher
use kylin_kmre_manager.FileWatcher.Inotify.Consistency.{
  IsConsistent, new-IsConsistent, initialize-IsConsistent,
}
use kylin_kmre_manager.FileWatcher.Service.Queue.{
  NotifyFileInfo, Answers, visit_sized, visit, cons?, scan, Announcement, notify_file,
  container_prefix,
}
use kylin_kmre_manager.FileWatcher.Service.Scan.{
  announcement, ComesFrom, scan-ComesFrom, announcement_under_home,
}
use kylin_kmre_manager.FileWatcher.Service.Walk.{
  System, Service, Event, add_watch, add_watch_recursively, initialized_by, initialize,
  handle_event,
}
use kylin_kmre_manager.FileWatcher.Service.Kept.{
  ExtendsHome, IsSound, add_watch_locked-IsSound, add_watch_recursively-IsSound,
  handle_event-IsSound,
}

-- What happens to the service. A scan has the answers of its round and mServiceNameOwned.
pub data Call : Type 0 where
  initializes : System → Call
  adds : System → Text → Call
  adds_recursively : System → Text → Bool → Call
  handles : System → Event → Call
  scans_queue : Answers → Bool → Call

abbrev pub HasHome : Text → Call → Type 0
HasHome home (initializes y) = y.home ≡ home
HasHome home (adds y p) = y.home ≡ home
HasHome home (adds_recursively y p notify) = y.home ≡ home
HasHome home (handles y e) = y.home ≡ home
HasHome home (scans_queue a owned) = Unit {0}

unfoldable pub step : Text → Service → Call → Service
step home s (initializes y) = (initialize y s).0
step home s (adds y p) = (add_watch y p s).0
step home s (adds_recursively y p notify) = (add_watch_recursively y p notify s).0
step home s (handles y e) = handle_event y e s
step home s (scans_queue a owned) = record s { file_list = (scan a home owned s.file_list).0 }

unfoldable pub run : Text → Service → List Call → Service
unfolding step
run home s [] = s
run home s (c ∷ cs) = run home (step home s c) cs

visit_sized-ExtendsHome :
    (a : Answers) (home prefix : Text) (owned : Bool) (i : NotifyFileInfo) (o : Option ℕ)
    (l : List NotifyFileInfo)
    → ExtendsHome prefix i
    → All (ExtendsHome prefix) l
    → All (ExtendsHome prefix) (cons? (visit_sized a home owned i o).0 l)
unfolding visit_sized
visit_sized-ExtendsHome a home prefix owned i none l h hs = hs
visit_sized-ExtendsHome a home prefix owned i (some n) l h hs =
    if_both
      (λ (v : Option NotifyFileInfo × Bool × List Announcement).
        All (ExtendsHome prefix) (cons? v.0 l))
      (int_beq (pos n) i.size)
      (if_both (λ (o : Option NotifyFileInfo). All (ExtendsHome prefix) (cons? o l))
        (notify_file a home owned i.path).0 hs (h, hs))
      (h, hs)

scan-ExtendsHome :
    (a : Answers) (home prefix : Text) (owned : Bool) (l : List NotifyFileInfo)
    → All (ExtendsHome prefix) l
    → All (ExtendsHome prefix) (scan a home owned l).0
unfolding scan visit
scan-ExtendsHome a home prefix owned [] h = tt
scan-ExtendsHome a home prefix owned (i ∷ l) h =
    visit_sized-ExtendsHome a home prefix owned i (a.stat_size i.path) _ h.0
      (scan-ExtendsHome a home prefix (visit a home owned i).1 l h.1)

initialized_by-keeps :
    (s : Service) (out : Outcome)
    → ((initialized_by s out).0.watcher ≡ out.watcher)
      × ((initialized_by s out).0.file_list ≡ s.file_list)
unfolding initialized_by
initialized_by-keeps s out = ground (arith, ℤ-cases out.code)

initialize-IsSound :
    (home : Text) (y : System) (s : Service) → IsSound home s → IsSound home (initialize y s).0
unfolding initialize
initialize-IsSound home y s h =
    let out = Watcher.initialize y.kernel s.watcher in
    let (same, kept) = initialized_by-keeps s out in
    if_both (λ (o : Service × ℤ). IsSound home o.0) s.initialized h
      (record {
        consistent =
            subst IsConsistent (sym same) (initialize-IsConsistent y.kernel s.watcher h.consistent);
        under = subst (All (ExtendsHome home)) (sym kept) h.under;
      })

-- A step with a system that has the home directory.
at_home :
    (home : Text) (y : System) (s t : Service)
    → y.home ≡ home
    → (IsSound y.home s → IsSound y.home t)
    → IsSound home s
    → IsSound home t
at_home home y s t e keep h = subst (λ z. IsSound z t) e (keep (subst (λ z. IsSound z s) (sym e) h))

step-IsSound :
    (home : Text) (s : Service) (c : Call)
    → HasHome home c
    → IsSound home s
    → IsSound home (step home s c)
unfolding step add_watch
step-IsSound home s (initializes y) e h = initialize-IsSound home y s h
step-IsSound home s (adds y p) e h =
    if_both (λ (o : Service × ℤ). IsSound home o.0) s.initialized
      (add_watch_locked-IsSound home y p s h) h
step-IsSound home s (adds_recursively y p notify) e h =
    at_home home y s _ e (add_watch_recursively-IsSound y p notify s) h
step-IsSound home s (handles y ev) e h = at_home home y s _ e (handle_event-IsSound y ev s) h
step-IsSound home s (scans_queue a owned) e h = record {
  consistent = h.consistent;
  under = scan-ExtendsHome a home home owned s.file_list h.under;
}

run-IsSound :
    (home : Text) (s : Service) (cs : List Call)
    → All (HasHome home) cs
    → IsSound home s
    → IsSound home (run home s cs)
unfolding run
run-IsSound home s [] e h = h
run-IsSound home s (c ∷ cs) e h =
    run-IsSound home (step home s c) cs e.1 (step-IsSound home s c e.0 h)

-- The service as it is constructed.
abbrev pub new_service : Service
new_service = record { initialized = false; watcher = new; file_list = [] }

-- An announcement for a queued file: its path with the home directory's path replaced, and its type.
pub record IsTranslated (a : Answers) (home : Text) (l : List NotifyFileInfo) (m : Announcement)
    : Type 0 where
  pub rest : Text
  pub entry : NotifyFileInfo
  pub queued : Memᴰ entry l
  pub at_home : entry.path ≡ home ++ rest
  pub told : m ≡ (codes "/storage/emulated/0/0-麒麟文件/" ++ rest, a.mime_of_content (home ++ rest))

All-Memᴰ :
    (home : Text) (l : List NotifyFileInfo) {i : NotifyFileInfo}
    → All (ExtendsHome home) l
    → Memᴰ i l
    → ExtendsHome home i
All-Memᴰ home [] h x = elim x [ ]
All-Memᴰ home (j ∷ l) h (Memᴰ.head e) = subst (ExtendsHome home) (sym e) h.0
All-Memᴰ home (j ∷ l) h (Memᴰ.tail m) = All-Memᴰ home l h.1 m

ComesFrom-IsTranslated :
    (a : Answers) (home : Text) (l : List NotifyFileInfo) (m : Announcement)
    → All (ExtendsHome home) l
    → ComesFrom a home l m
    → IsTranslated a home l m
unfolding container_prefix
ComesFrom-IsTranslated a home l m h c =
    let (rest, e) = All-Memᴰ home l h c.queued in
    record {
      rest = rest;
      entry = c.entry;
      queued = c.queued;
      at_home = e;
      told = c.as_seen ∙ ap (announcement a home) e ∙ announcement_under_home a home rest;
    }

-- After any sequence of calls, inotify events and scans on a new service, whatever the kernel, the
-- directories, the types and the message bus answer, with one home directory throughout, the maps of the
-- watcher agree, and the path of every queued file is the home directory's path followed by some text
-- (which need not begin with a slash). So each announcement of the next scan is for a queued file, and
-- has the container's prefix in place of the home directory's path, and the type of the file's content.
pub run-new_service-IsSound :
    (home : Text) (cs : List Call)
    → All (HasHome home) cs
    → let s = run home new_service cs in
      IsSound home s
      × ((a : Answers) (owned : Bool)
          → All (IsTranslated a home s.file_list) (scan a home owned s.file_list).2)
run-new_service-IsSound home cs e =
    let sound =
      run-IsSound home new_service cs e (record { consistent = new-IsConsistent; under = tt }) in
    let l = (run home new_service cs).file_list in
    (
      sound,
      λ a owned.
          All-imp (ComesFrom a home l) (IsTranslated a home l) (scan a home owned l).2
            (λ m. ComesFrom-IsTranslated a home l m sound.under) (scan-ComesFrom a home owned l),
    )
