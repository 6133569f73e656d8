-- ===== src/FileWatcher/Inotify/Consistency.antt =====
-- The two maps of FileInotifyWatcher agree (filewatcher/file-inotify/file-inotify-watcher.cpp).
use kylin_kmre_manager.Base.{
  ℕ, ◌≡◌, refl, Bool, true, ◌&&◌, not, List, [], ◌∷◌, Option, none, some, ◌==◌, nat_eq, list_eq,
  nat_beq_iff, list_beq_iff, if◌then◌else◌, if_both, arith,
}
use kylin_kmre_manager.Base.Text.{Text}
use kylin_kmre_manager.Base.Int.{ℤ, pos, negsuc}
use kylin_kmre_manager.Base.Map.{lookup, insert, erase, lookup-insert, lookup-erase}
use kylin_kmre_manager.FileWatcher.Inotify.Watcher.{
  Watcher, Kernel, Outcome, initialized_with, added, add_unless_found, remove_found, release,
  remove_descriptor, is_path_dir, new, initialize, cleanup, add_watch, remove_watch,
  remove_watch_wd, drop_path, sweep, has, holds,
}

-- Each map is read off the other: a path has the descriptor under which it is listed, and no other.
pub record Agrees (m : List (ℕ × Text)) (pm : List (Text × ℕ)) : Type 0 where
  pub sound : (p : Text) (d : ℕ) → lookup p pm ≡ some d → has d p m ≡ true
  pub complete : (p : Text) (d : ℕ) → has d p m ≡ true → lookup p pm ≡ some d

abbrev pub IsConsistent : Watcher → Type 0
IsConsistent w = Agrees w.wd_to_path w.path_to_wd

empty-Agrees : Agrees [] []
unfolding lookup
empty-Agrees = record { sound = λ p d h. cc; complete = λ p d h. cc }

insert-Agrees :
    (p : Text) (d : ℕ) (m : List (ℕ × Text)) (pm : List (Text × ℕ))
    → lookup p pm ≡ none
    → Agrees m pm
    → Agrees ((d, p) ∷ m) (insert p d pm)
insert-Agrees p d m pm fresh a = record {
  sound = λ q e h.
      ground (arith, lookup-insert p q d pm, list_beq_iff p q, nat_beq_iff d e, a.sound q e);
  complete = λ q e h.
      ground (arith, lookup-insert p q d pm, list_beq_iff p q, nat_beq_iff d e, a.complete q e);
}

has-drop_path :
    (d c : ℕ) (p q : Text) (m : List (ℕ × Text))
    → has c q (drop_path d p m) ≡ (has c q m && not ((d == c) && (p == q)))
unfolding drop_path
has-drop_path d c p q [] = refl
has-drop_path d c p q ((b, r) ∷ m) = ground (
  arith,
  has-drop_path d c p q m,
  nat_beq_iff b d,
  nat_beq_iff b c,
  nat_beq_iff d c,
  list_beq_iff r p,
  list_beq_iff r q,
  list_beq_iff p q,
)

drop_path-Agrees :
    (p : Text) (d : ℕ) (m : List (ℕ × Text)) (pm : List (Text × ℕ))
    → lookup p pm ≡ some d
    → Agrees m pm
    → Agrees (drop_path d p m) (erase p pm)
drop_path-Agrees p d m pm h a = record {
  sound = λ q c k. ground (
    arith,
    has-drop_path d c p q m,
    lookup-erase p q pm,
    list_beq_iff p q,
    nat_beq_iff d c,
    a.sound q c,
  );
  complete = λ q c k. ground (
    arith,
    has-drop_path d c p q m,
    lookup-erase p q pm,
    list_beq_iff p q,
    nat_beq_iff d c,
    a.complete q c,
  );
}

-- The multimap after the sweep: what was listed, but for the stale paths of the descriptor.
pub has-sweep :
    (is_dir : Text → Bool) (d c : ℕ) (q : Text) (m : List (ℕ × Text)) (pm : List (Text × ℕ))
    → has c q (sweep is_dir d m pm).0 ≡ (has c q m && not ((d == c) && not (is_dir q)))
unfolding sweep
has-sweep is_dir d c q [] pm = refl
has-sweep is_dir d c q ((b, r) ∷ m) pm = ground (
  arith,
  has-sweep is_dir d c q m pm,
  has-sweep is_dir d c q m (erase r pm),
  nat_beq_iff b d,
  nat_beq_iff b c,
  nat_beq_iff d c,
  list_beq_iff r q,
)

-- The path map after the sweep loses the same paths.
pub lookup-sweep :
    (is_dir : Text → Bool) (d : ℕ) (q : Text) (m : List (ℕ × Text)) (pm : List (Text × ℕ))
    → lookup q (sweep is_dir d m pm).1 ≡ (if has d q m && not (is_dir q) then none else lookup q pm)
unfolding sweep
lookup-sweep is_dir d q [] pm = refl
lookup-sweep is_dir d q ((b, r) ∷ m) pm = ground (
  arith,
  lookup-sweep is_dir d q m pm,
  lookup-sweep is_dir d q m (erase r pm),
  lookup-erase r q pm,
  nat_beq_iff b d,
  list_beq_iff r q,
)

sweep-Agrees :
    (is_dir : Text → Bool) (d : ℕ) (m : List (ℕ × Text)) (pm : List (Text × ℕ))
    → Agrees m pm
    → Agrees (sweep is_dir d m pm).0 (sweep is_dir d m pm).1
sweep-Agrees is_dir d m pm a = record {
  sound = λ q c h. ground (
    arith,
    has-sweep is_dir d c q m pm,
    lookup-sweep is_dir d q m pm,
    nat_beq_iff d c,
    a.sound q c,
    a.complete q d,
    a.complete q c,
  );
  complete = λ q c h. ground (
    arith,
    has-sweep is_dir d c q m pm,
    lookup-sweep is_dir d q m pm,
    nat_beq_iff d c,
    a.sound q c,
    a.complete q d,
    a.complete q c,
  );
}

initialized_with-IsConsistent :
    (w : Watcher) (c : ℤ) → IsConsistent w → IsConsistent (initialized_with w c).watcher
unfolding initialized_with
initialized_with-IsConsistent w (pos fd) a = a
initialized_with-IsConsistent w (negsuc e) a = a

pub initialize-IsConsistent :
    (k : Kernel) (w : Watcher) → IsConsistent w → IsConsistent (initialize k w).watcher
unfolding initialize
initialize-IsConsistent k w a =
    if_both (λ (o : Outcome). IsConsistent o.watcher) w.initialized a
      (initialized_with-IsConsistent w k.init a)

pub cleanup-IsConsistent : (w : Watcher) → IsConsistent w → IsConsistent (cleanup w).watcher
unfolding cleanup
cleanup-IsConsistent w a =
    if_both (λ (o : Outcome). IsConsistent o.watcher) w.initialized empty-Agrees a

added-IsConsistent :
    (w : Watcher) (p : Text) (c : ℤ)
    → lookup p w.path_to_wd ≡ none
    → IsConsistent w
    → IsConsistent (added w p c).watcher
unfolding added
added-IsConsistent w p (pos d) fresh a = insert-Agrees p d w.wd_to_path w.path_to_wd fresh a
added-IsConsistent w p (negsuc e) fresh a = a

add_unless_found-IsConsistent :
    (k : Kernel) (p : Text) (w : Watcher) (o : Option ℕ)
    → lookup p w.path_to_wd ≡ o
    → IsConsistent w
    → IsConsistent (add_unless_found k p w o).watcher
unfolding add_unless_found
add_unless_found-IsConsistent k p w (some d) e a = a
add_unless_found-IsConsistent k p w none e a = added-IsConsistent w p (k.add_watch p) e a

pub add_watch-IsConsistent :
    (k : Kernel) (p : Text) (w : Watcher) → IsConsistent w → IsConsistent (add_watch k p w).watcher
unfolding add_watch
add_watch-IsConsistent k p w a =
    if_both (λ (o : Outcome). IsConsistent o.watcher) w.initialized
      (add_unless_found-IsConsistent k p w (lookup p w.path_to_wd) refl a) a

release-IsConsistent :
    (k : Kernel) (d : ℕ) (w : Watcher) → IsConsistent w → IsConsistent (release k d w).watcher
unfolding release
release-IsConsistent k d w a =
    if_both (λ (o : Outcome). IsConsistent o.watcher) (holds d w.wd_to_path) a a

remove_found-IsConsistent :
    (k : Kernel) (p : Text) (w : Watcher) (o : Option ℕ)
    → lookup p w.path_to_wd ≡ o
    → IsConsistent w
    → IsConsistent (remove_found k p w o).watcher
unfolding remove_found
remove_found-IsConsistent k p w none e a = a
remove_found-IsConsistent k p w (some d) e a =
    release-IsConsistent k d _ (drop_path-Agrees p d w.wd_to_path w.path_to_wd e a)

pub remove_watch-IsConsistent :
    (k : Kernel) (p : Text) (w : Watcher)
    → IsConsistent w
    → IsConsistent (remove_watch k p w).watcher
unfolding remove_watch
remove_watch-IsConsistent k p w a =
    if_both (λ (o : Outcome). IsConsistent o.watcher) w.initialized
      (remove_found-IsConsistent k p w (lookup p w.path_to_wd) refl a) a

remove_descriptor-IsConsistent :
    (k : Kernel) (wd : ℤ) (w : Watcher)
    → IsConsistent w
    → IsConsistent (remove_descriptor k wd w).watcher
unfolding remove_descriptor
remove_descriptor-IsConsistent k (negsuc e) w a = a
remove_descriptor-IsConsistent k (pos d) w a =
    release-IsConsistent k d _ (sweep-Agrees (is_path_dir k) d w.wd_to_path w.path_to_wd a)

pub remove_watch_wd-IsConsistent :
    (k : Kernel) (wd : ℤ) (w : Watcher)
    → IsConsistent w
    → IsConsistent (remove_watch_wd k wd w).watcher
unfolding remove_watch_wd
remove_watch_wd-IsConsistent k wd w a =
    if_both (λ (o : Outcome). IsConsistent o.watcher) w.initialized
      (remove_descriptor-IsConsistent k wd w a) a

-- The operations that change the maps, with the kernel's answers to each.
pub data Call : Type 0 where
  initializes : Kernel → Call
  cleans_up : Call
  adds removes : Kernel → Text → Call
  removes_wd : Kernel → ℤ → Call

unfoldable pub step : Watcher → Call → Watcher
unfolding initialize cleanup add_watch remove_watch remove_watch_wd lookup insert erase sweep
    drop_path
step w (initializes k) = (initialize k w).watcher
step w cleans_up = (cleanup w).watcher
step w (adds k p) = (add_watch k p w).watcher
step w (removes k p) = (remove_watch k p w).watcher
step w (removes_wd k wd) = (remove_watch_wd k wd w).watcher

unfoldable pub run : Watcher → List Call → Watcher
unfolding step
run w [] = w
run w (c ∷ cs) = run (step w c) cs

step-IsConsistent : (w : Watcher) (c : Call) → IsConsistent w → IsConsistent (step w c)
unfolding step
step-IsConsistent w (initializes k) a = initialize-IsConsistent k w a
step-IsConsistent w cleans_up a = cleanup-IsConsistent w a
step-IsConsistent w (adds k p) a = add_watch-IsConsistent k p w a
step-IsConsistent w (removes k p) a = remove_watch-IsConsistent k p w a
step-IsConsistent w (removes_wd k wd) a = remove_watch_wd-IsConsistent k wd w a

pub new-IsConsistent : IsConsistent new
unfolding new
new-IsConsistent = empty-Agrees

pub run-IsConsistent : (w : Watcher) (cs : List Call) → IsConsistent w → IsConsistent (run w cs)
unfolding run
run-IsConsistent w [] a = a
run-IsConsistent w (c ∷ cs) a = run-IsConsistent (step w c) cs (step-IsConsistent w c a)

-- Whatever calls are made on a new watcher, and whatever the kernel answers, a path has a
-- descriptor in the path map exactly if the descriptor's entries list the path.
pub run-new-IsConsistent : (cs : List Call) → IsConsistent (run new cs)
unfolding new
run-new-IsConsistent cs = run-IsConsistent _ cs empty-Agrees
