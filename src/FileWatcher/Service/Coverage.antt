-- ===== src/FileWatcher/Service/Coverage.antt =====
-- Which directories of a new tree are watched after the walk (filewatcher/file-inotify/
-- file-inotify-service.cpp).
use kylin_kmre_manager.Base.{
  ℕ, ◌≡◌, refl, sym, subst, ◌∙◌, Bool, true, false, not, nat_beq, List, [], ◌∷◌, ◌++◌, none, some,
  if◌then◌else◌, All, All-append, All-imp, arith, if_both,
}
use kylin_kmre_manager.Base.Text.{Text}
use kylin_kmre_manager.Base.Int.{pos}
use kylin_kmre_manager.FileWatcher.Inotify.Watcher.{Kernel, is_path_dir}
use kylin_kmre_manager.FileWatcher.Inotify.Effects.{
  IsWatched, add_watch-initialized, add_watch-keeps, add_watch-IsWatched,
}
use kylin_kmre_manager.FileWatcher.Service.Walked.{is_visible}
use kylin_kmre_manager.FileWatcher.Service.Walk.{
  Node, Entries, file, dir, other, nil, entry, System, Service, add_watch_locked, queue_file,
  is_skipped, join, walk, walk_entries, add_watch_recursively,
}

-- The directories that can be reached from a path through directories that resolve and open, past no
-- hidden entry, under their resolved names. One that cannot be opened is still among them.
mutual
  pub visible_dirs : System → Text → Node → List Text
  visible_dirs y path file = []
  visible_dirs y path other = []
  visible_dirs y path (dir es) = elim (y.realpath path) [
    | none ↦ []
    | some r ↦ r ∷ (if y.can_open r then dirs_in y r es else [])
  ]

  pub dirs_in : System → Text → Entries → List Text
  dirs_in y r nil = []
  dirs_in y r (entry name node es) =
      (if is_visible name then visible_dirs y (r ++ b'/' ∷ name) node else []) ++ dirs_in y r es

-- What the walk keeps: the watcher's readiness, and every watch that it has.
pub record Keeps (s t : Service) : Type 0 where
  pub ready : t.watcher.initialized ≡ s.watcher.initialized
  pub watches : (q : Text) → IsWatched s.watcher q → IsWatched t.watcher q

pub Keeps-refl : (s : Service) → Keeps s s
Keeps-refl s = record { ready = refl; watches = λ q h. h }

pub Keeps-trans : (s t u : Service) → Keeps s t → Keeps t u → Keeps s u
Keeps-trans s t u a b = record {
  ready = b.ready ∙ a.ready;
  watches = λ q h. b.watches q (a.watches q h);
}

add_watch_locked-Keeps : (y : System) (p : Text) (s : Service) → Keeps s (add_watch_locked y p s).0
unfolding add_watch_locked
add_watch_locked-Keeps y p s = record {
  ready = add_watch-initialized y.kernel p s.watcher;
  watches = λ q h. add_watch-keeps y.kernel p q s.watcher h;
}

queue_file-Keeps : (y : System) (p : Text) (s : Service) → Keeps s (queue_file y p s)
unfolding queue_file
queue_file-Keeps y p s = record { ready = refl; watches = λ q h. h }

mutual
  unfolding walk walk_entries

  pub walk-Keeps :
      (y : System) (path : Text) (notify : Bool) (n : Node) (s : Service)
      → Keeps s (walk y path notify n s)
  walk-Keeps y path notify file s =
      if_both (λ t. Keeps s t) notify (queue_file-Keeps y path s) (Keeps-refl s)
  walk-Keeps y path notify other s = Keeps-refl s
  walk-Keeps y path notify (dir es) s =
      elim (y.realpath path)
        as (λ o. Keeps s (elim o [
          | none ↦ s
          | some r ↦
              let watched = (add_watch_locked y r s).0 in
              let below = walk_entries y r notify es watched in
              if y.can_open r then below else watched
        ])) [
          | none ↦ Keeps-refl s
          | some r ↦
              let watched = (add_watch_locked y r s).0 in
              let first = add_watch_locked-Keeps y r s in
              if_both (λ t. Keeps s t) (y.can_open r)
                (Keeps-trans s watched _ first (walk_entries-Keeps y r notify es watched)) first
        ]

  walk_entries-Keeps :
      (y : System) (r : Text) (notify : Bool) (es : Entries) (s : Service)
      → Keeps s (walk_entries y r notify es s)
  walk_entries-Keeps y r notify nil s = Keeps-refl s
  walk_entries-Keeps y r notify (entry name node es) s =
      let next = if is_skipped name then s else walk y (join r name) notify node s in
      Keeps-trans s next _
        (if_both (λ t. Keeps s t) (is_skipped name) (Keeps-refl s)
          (walk-Keeps y (join r name) notify node s))
        (walk_entries-Keeps y r notify es next)

-- The kernel takes every watch.
abbrev pub Accepts : Kernel → Type 0
Accepts k = (p : Text) → (d : ℕ) × (k.add_watch p ≡ pos d)

abbrev pub Covers : Service → List Text → Type 0
Covers s ps = All (IsWatched s.watcher) ps

add_watch_locked-Covers :
    (y : System) (r : Text) (s : Service)
    → Accepts y.kernel
    → s.watcher.initialized ≡ true
    → IsWatched (add_watch_locked y r s).0.watcher r
unfolding add_watch_locked
add_watch_locked-Covers y r s ok on = add_watch-IsWatched y.kernel r s.watcher on (ok r)

pub Covers-Keeps : (s t : Service) (ps : List Text) → Keeps s t → Covers s ps → Covers t ps
Covers-Keeps s t ps k = All-imp (IsWatched s.watcher) (IsWatched t.watcher) ps k.watches

skipped-Covers :
    (name : Text) (s t : Service) (ps : List Text)
    → Covers t ps
    → Covers (if is_skipped name then s else t) (if is_visible name then ps else [])
unfolding is_skipped
skipped-Covers [] s t ps h = tt
skipped-Covers (c ∷ name) s t ps h = cases (nat_beq c 46)
  where
    cases : (b : Bool) → Covers (if b then s else t) (if not b then ps else [])
    cases true = tt
    cases false = h

opened-Covers :
    (b : Bool) (s t : Service) (r : Text) (ps : List Text)
    → Covers s (r ∷ [])
    → Covers t (r ∷ ps)
    → Covers (if b then t else s) (r ∷ (if b then ps else []))
opened-Covers true s t r ps hs ht = ht
opened-Covers false s t r ps hs ht = hs

mutual
  unfolding walk walk_entries visible_dirs dirs_in

  walk-Covers :
      (y : System) (path : Text) (notify : Bool) (n : Node) (s : Service)
      → Accepts y.kernel
      → s.watcher.initialized ≡ true
      → Covers (walk y path notify n s) (visible_dirs y path n)
  walk-Covers y path notify file s ok on = tt
  walk-Covers y path notify other s ok on = tt
  walk-Covers y path notify (dir es) s ok on =
      elim (y.realpath path)
        as (λ o.
          Covers
            (elim o [
              | none ↦ s
              | some r ↦
                  let watched = (add_watch_locked y r s).0 in
                  let below = walk_entries y r notify es watched in
                  if y.can_open r then below else watched
            ])
            (elim o [ none ↦ [] | some r ↦ r ∷ (if y.can_open r then dirs_in y r es else []) ])) [
              | none ↦ tt
              | some r ↦
                  let watched = (add_watch_locked y r s).0 in
                  let here = add_watch_locked-Covers y r s ok on in
                  let below = walk_entries y r notify es watched in
                  opened-Covers (y.can_open r) watched below r (dirs_in y r es) (here, tt)
                    (
                      (walk_entries-Keeps y r notify es watched).watches r here,
                      walk_entries-Covers y r notify es watched ok
                          ((add_watch_locked-Keeps y r s).ready ∙ on),
                    )
            ]

  walk_entries-Covers :
      (y : System) (r : Text) (notify : Bool) (es : Entries) (s : Service)
      → Accepts y.kernel
      → s.watcher.initialized ≡ true
      → Covers (walk_entries y r notify es s) (dirs_in y r es)
  walk_entries-Covers y r notify nil s ok on = tt
  walk_entries-Covers y r notify (entry name node es) s ok on =
      let visited = walk y (join r name) notify node s in
      let next = if is_skipped name then s else visited in
      let step =
        if_both (λ t. Keeps s t) (is_skipped name) (Keeps-refl s)
          (walk-Keeps y (join r name) notify node s) in
      let after = walk_entries y r notify es next in
      All-append (IsWatched after.watcher)
        (if is_visible name then visible_dirs y (join r name) node else []) (dirs_in y r es)
        (Covers-Keeps next after _ (walk_entries-Keeps y r notify es next) (
          skipped-Covers name s visited (visible_dirs y (join r name) node)
            (walk-Covers y (join r name) notify node s ok on)))
        (walk_entries-Covers y r notify es next ok (step.ready ∙ on))

add_watch_recursively-eq-walk :
    (y : System) (p : Text) (notify : Bool) (s : Service)
    → s.initialized ≡ true
    → is_path_dir y.kernel p ≡ true
    → (add_watch_recursively y p notify s).0 ≡ walk y p notify (dir (y.contents p)) s
unfolding add_watch_recursively
add_watch_recursively-eq-walk y p notify s on isdir = ground arith

-- On an initialized service and watcher whose kernel takes every watch, every visible directory of a
-- tree that is added recursively has a watch afterwards.
pub add_watch_recursively-Covers :
    (y : System) (p : Text) (notify : Bool) (s : Service)
    → s.initialized ≡ true
    → s.watcher.initialized ≡ true
    → is_path_dir y.kernel p ≡ true
    → Accepts y.kernel
    → Covers (add_watch_recursively y p notify s).0 (visible_dirs y p (dir (y.contents p)))
add_watch_recursively-Covers y p notify s on ready isdir ok =
    subst (λ t. Covers t (visible_dirs y p (dir (y.contents p))))
      (sym (add_watch_recursively-eq-walk y p notify s on isdir))
      (walk-Covers y p notify (dir (y.contents p)) s ok ready)
