-- ===== src/FileWatcher/Service/Kept.antt =====
-- What the operations of the service keep: the maps of its watcher agree, and the paths of what is queued
-- extend the home directory's (filewatcher/file-inotify/file-inotify-service.cpp).
use kylin_kmre_manager.Base.{
  ◌≡◌, sym, subst, inl, inr, Bool, true, ◌||◌, List, [], ◌∷◌, ◌++◌, drop, length, Option, none,
  some, ltb, if◌then◌else◌, All, All-append, arith, Bool-cases, Option-cases, if_both, &&-eq-true,
}
use kylin_kmre_manager.Base.Text.{Text, starts_with, append-drop_of_starts_with}
use kylin_kmre_manager.Base.Int.{ℤ}
use kylin_kmre_manager.FileWatcher.Inotify.Watcher.{is_path_dir, is_path_regular_file}
use kylin_kmre_manager.FileWatcher.Inotify.Consistency.{
  IsConsistent, add_watch-IsConsistent, remove_watch_wd-IsConsistent,
}
use kylin_kmre_manager.FileWatcher.Service.Queue.{NotifyFileInfo, fresh, is_wanted, add_notify_file}
use kylin_kmre_manager.FileWatcher.Service.Walk.{
  Node, Entries, file, dir, other, nil, entry, System, Service, Event, add_watch_locked, queue_file,
  is_skipped, join, walk, walk_entries, add_watch_recursively, new_path, new_entry, handle_event,
  in_create, in_moved_to, in_move_self, in_delete_self,
}

-- A path that is the home directory's path with some text behind it, as for /home/u both /home/u/a and
-- /home/u2/a are.
abbrev pub ExtendsHome : Text → NotifyFileInfo → Type 0
ExtendsHome home i = (rest : Text) × (i.path ≡ home ++ rest)

-- The watcher's maps agree, and the path of whatever is queued extends that of the home directory.
pub record IsSound (home : Text) (s : Service) : Type 0 where
  pub consistent : IsConsistent s.watcher
  pub under : All (ExtendsHome home) s.file_list

add_notify_file-ExtendsHome :
    (mime : Text → Text) (home p : Text) (l : List NotifyFileInfo)
    → All (ExtendsHome home) l
    → All (ExtendsHome home) (add_notify_file mime home p l)
unfolding add_notify_file is_wanted
add_notify_file-ExtendsHome mime home p l h = elim (Bool-cases (is_wanted mime home p)) [
  | inl taken ↦
      rw taken
        (All-append (ExtendsHome home) l (fresh p ∷ []) h (extends (&&-eq-true _ _ taken).0, tt))
  | inr left ↦ rw left h
]
  where
    extends : starts_with p home ≡ true → ExtendsHome home (fresh p)
    extends e = (drop (length home) p, append-drop_of_starts_with p home e)

queue_file-IsSound :
    (y : System) (p : Text) (s : Service) → IsSound y.home s → IsSound y.home (queue_file y p s)
unfolding queue_file
queue_file-IsSound y p s h = record {
  consistent = h.consistent;
  under = add_notify_file-ExtendsHome y.mime_of_name y.home p s.file_list h.under;
}

pub add_watch_locked-IsSound :
    (home : Text) (y : System) (p : Text) (s : Service)
    → IsSound home s
    → IsSound home (add_watch_locked y p s).0
unfolding add_watch_locked
add_watch_locked-IsSound home y p s h = record {
  consistent = add_watch-IsConsistent y.kernel p s.watcher h.consistent;
  under = h.under;
}

walk_unresolved :
    (y : System) (path : Text) (notify : Bool) (es : Entries) (s : Service)
    → y.realpath path ≡ none
    → walk y path notify (dir es) s ≡ s
unfolding walk
walk_unresolved y path notify es s e = ground arith

walk_resolved :
    (y : System) (path r : Text) (notify : Bool) (es : Entries) (s : Service)
    → y.realpath path ≡ some r
    → let watched = (add_watch_locked y r s).0 in
      walk y path notify (dir es) s
      ≡ (if y.can_open r then walk_entries y r notify es watched else watched)
unfolding walk
walk_resolved y path r notify es s e = ground arith

mutual
  unfolding walk walk_entries

  walk-IsSound :
      (y : System) (path : Text) (notify : Bool) (n : Node) (s : Service)
      → IsSound y.home s
      → IsSound y.home (walk y path notify n s)
  walk-IsSound y path notify file s h =
      if_both (IsSound y.home) notify (queue_file-IsSound y path s h) h
  walk-IsSound y path notify other s h = h
  walk-IsSound y path notify (dir es) s h = elim (Option-cases (y.realpath path)) [
    | inl gone ↦ subst (IsSound y.home) (sym (walk_unresolved y path notify es s gone)) h
    | inr (r, e) ↦
        let watched = add_watch_locked-IsSound y.home y r s h in
        subst (IsSound y.home) (sym (walk_resolved y path r notify es s e)) (
          if_both (IsSound y.home) (y.can_open r)
            (walk_entries-IsSound y r notify es (add_watch_locked y r s).0 watched) watched)
  ]

  walk_entries-IsSound :
      (y : System) (r : Text) (notify : Bool) (es : Entries) (s : Service)
      → IsSound y.home s
      → IsSound y.home (walk_entries y r notify es s)
  walk_entries-IsSound y r notify nil s h = h
  walk_entries-IsSound y r notify (entry name node es) s h =
      walk_entries-IsSound y r notify es _ (
        if_both (IsSound y.home) (is_skipped name) h (walk-IsSound y (join r name) notify node s h))

pub add_watch_recursively-IsSound :
    (y : System) (p : Text) (notify : Bool) (s : Service)
    → IsSound y.home s
    → IsSound y.home (add_watch_recursively y p notify s).0
unfolding add_watch_recursively
add_watch_recursively-IsSound y p notify s h =
    if_both (λ (o : Service × ℤ). IsSound y.home o.0) s.initialized
      (if_both (λ (o : Service × ℤ). IsSound y.home o.0) (is_path_dir y.kernel p)
        (walk-IsSound y p notify (dir (y.contents p)) s h) h)
      h

new_path-IsSound :
    (y : System) (p : Text) (s : Service) → IsSound y.home s → IsSound y.home (new_path y p s)
unfolding new_path
new_path-IsSound y p s h =
    if_both (IsSound y.home) (is_path_dir y.kernel p) (add_watch_recursively-IsSound y p true s h)
      (if_both (IsSound y.home) (is_path_regular_file y.kernel p) (queue_file-IsSound y p s h) h)

new_entry-IsSound :
    (y : System) (name : Text) (o : Option Text) (s : Service)
    → IsSound y.home s
    → IsSound y.home (new_entry y name o s)
unfolding new_entry
new_entry-IsSound y name none s h = h
new_entry-IsSound y name (some []) s h = h
new_entry-IsSound y name (some (c ∷ path)) s h = new_path-IsSound y (join (c ∷ path) name) s h

pub handle_event-IsSound :
    (y : System) (e : Event) (s : Service) → IsSound y.home s → IsSound y.home (handle_event y e s)
unfolding handle_event
handle_event-IsSound y e s h =
    if_both (IsSound y.home) (in_create e.mask || in_moved_to e.mask)
      (if_both (IsSound y.home) (ltb 0 e.len) (new_entry-IsSound y e.name _ s h) h)
      (if_both (IsSound y.home) (in_move_self e.mask || in_delete_self e.mask)
        (record {
          consistent = remove_watch_wd-IsConsistent y.kernel e.wd s.watcher h.consistent;
          under = h.under;
        })
        h)
