-- ===== src/Programs/Single.antt =====
-- At most one instance of a program runs (the lock files of audio/main.cpp, gps/main.cpp,
-- sensors/main.cpp, filewatcher/lock-file.cpp and manager/common/utils.cpp).
use kylin_kmre_manager.Base.{
  ℕ, zero, suc, ◌≡◌, refl, ◌⊎◌, inl, inr, true, List, [], ◌∷◌, Option, none, some, Bool-cases,
  nat_beq, if◌then◌else◌, arith,
}
use kylin_kmre_manager.Base.Int.{ℤ, pos, negsuc}
use kylin_kmre_manager.Manager.Host.{try_lock_file}
use kylin_kmre_manager.Programs.Lock.{
  Flock, granted, lock_opened, to_locked, no_lock, busy, bad, interrupted, try_from, try_lock,
  do_lock_file, test_lockfile, is_zero, Program, audio, gps, sensors, file_watcher, manager,
  goes_on,
}

-- The instances of one program, by their process numbers: which one holds the lock of its file, and
-- which ones run past it.
pub record Machine : Type 0 where
  pub holder : Option ℕ
  pub running : List ℕ

abbrev pub drop_process : ℕ → List ℕ → List ℕ
drop_process p [] = []
drop_process p (q ∷ l) = let rest = drop_process p l in if nat_beq q p then rest else q ∷ rest

abbrev pub released : ℕ → Option ℕ → Option ℕ
released p none = none
released p (some q) = if nat_beq q p then none else some q

-- An instance that got the lock runs; the kernel gives the lock of a file to one open file at a time.
unfoldable pub start : Program → ℕ → Option ℕ → (ℕ → Flock) → Machine → Machine
unfolding goes_on
start program p fd flock m =
    if goes_on program fd flock then record { holder = some p; running = p ∷ m.running } else m

unfoldable pub exit : ℕ → Machine → Machine
exit p m = record { holder = released p m.holder; running = drop_process p m.running }

-- What happens on the machine. The kernel grants the lock only if nobody holds it.
pub data Step (program : Program) (m : Machine) : Machine → Type 0 where
  starts :
      (p : ℕ) (fd : Option ℕ) (flock : ℕ → Flock)
      → ((i : ℕ) → flock i ≡ granted → m.holder ≡ none)
      → Step program m (start program p fd flock m)
  exits : (p : ℕ) → Step program m (exit p m)

pub data Reach (program : Program) (m : Machine) : Machine → Type 0 where
  here : Reach program m m
  next : {n k : Machine} → Reach program m n → Step program n k → Reach program m k

Flock-cases : (f : Flock) → (f ≡ granted) ⊎ ((f ≡ interrupted) ⊎ ((f ≡ busy) ⊎ (f ≡ bad)))
Flock-cases granted = inl refl
Flock-cases interrupted = inr (inl refl)
Flock-cases busy = inr (inr (inl refl))
Flock-cases bad = inr (inr (inr refl))

-- A program goes on only if a call of flock was granted.
try_from-granted :
    (flock : ℕ → Flock) (left count n : ℕ)
    → try_from flock left count ≡ pos n
    → (i : ℕ) × (flock i ≡ granted)
unfolding try_from
try_from-granted flock zero count n h = cc
try_from-granted flock (suc left) count n h = elim (Flock-cases (flock count)) [
  | inl e ↦ (count, e)
  | inr (inl e) ↦ try_from-granted flock left (suc count) n (ground (arith, e, h))
  | inr (inr (inl e)) ↦ ground (arith, e, h)
  | inr (inr (inr e)) ↦ ground (arith, e, h)
]

lock_opened-zero :
    (fd : ℕ) (r : ℤ) → is_zero (lock_opened fd r).result ≡ true → (n : ℕ) × (r ≡ pos n)
lock_opened-zero fd (pos n) h = (n, refl)
lock_opened-zero fd (negsuc n) h = cc

do_lock_file-granted :
    (fd : Option ℕ) (flock : ℕ → Flock)
    → is_zero (do_lock_file fd flock).result ≡ true
    → (i : ℕ) × (flock i ≡ granted)
unfolding do_lock_file
do_lock_file-granted none flock h = cc
do_lock_file-granted (some fd) flock h =
    let (n, e) = lock_opened-zero fd (try_lock flock) h in
    try_from-granted flock 5 0 n (unfold try_lock in e)

test_lockfile-granted : (fd : Option ℕ) (f : Flock) → (test_lockfile fd f).0 ≡ true → f ≡ granted
unfolding test_lockfile
test_lockfile-granted none f h = cc
test_lockfile-granted (some fd) granted h = refl
test_lockfile-granted (some fd) busy h = cc
test_lockfile-granted (some fd) bad h = cc
test_lockfile-granted (some fd) interrupted h = cc

locked_twice :
    (fd : Option ℕ) (first second : Flock)
    → (try_lock_file fd (to_locked first) (to_locked second) no_lock).1 ≡ true
    → (first ≡ granted) ⊎ (second ≡ granted)
unfolding try_lock_file
locked_twice none first second h = cc
locked_twice (some fd) granted second h = inl refl
locked_twice (some fd) busy granted h = inr refl
locked_twice (some fd) busy busy h = cc
locked_twice (some fd) busy bad h = cc
locked_twice (some fd) busy interrupted h = cc
locked_twice (some fd) bad second h = cc
locked_twice (some fd) interrupted second h = cc

goes_on-granted :
    (program : Program) (fd : Option ℕ) (flock : ℕ → Flock)
    → goes_on program fd flock ≡ true
    → (i : ℕ) × (flock i ≡ granted)
unfolding goes_on
goes_on-granted audio fd flock h = do_lock_file-granted fd flock h
goes_on-granted gps fd flock h = do_lock_file-granted fd flock h
goes_on-granted sensors fd flock h = do_lock_file-granted fd flock h
goes_on-granted file_watcher fd flock h = (0, test_lockfile-granted fd (flock 0) h)
goes_on-granted manager fd flock h = elim (locked_twice fd (flock 0) (flock 1) h) [
  | inl e ↦ (0, e)
  | inr e ↦ (1, e)
]

-- Either nobody holds the lock and nothing runs, or the holder is the one that runs.
pub IsSingle : Machine → Type 0
IsSingle m =
    ((m.holder ≡ none) × (m.running ≡ [])) ⊎ ((p : ℕ) × (m.holder ≡ some p) × (m.running ≡ p ∷ []))

Step-IsSingle : (program : Program) {m n : Machine} → Step program m n → IsSingle m → IsSingle n
unfolding IsSingle start exit
Step-IsSingle program {m} (starts p fd flock honest) h =
    elim (Bool-cases (goes_on program fd flock)) [
      | inl on ↦
          let (i, e) = goes_on-granted program fd flock on in
          let free = honest i e in inr (p, ground (arith, on), ground (arith, on, free, h))
      | inr off ↦ rw off h
    ]
Step-IsSingle program {m} (exits p) (inl h) = inl (ground (arith, h), ground (arith, h))
Step-IsSingle program {m} (exits p) (inr (q, h, k)) = elim (Bool-cases (nat_beq q p)) [
  | inl e ↦ inl (ground (arith, h, k, e), ground (arith, h, k, e))
  | inr e ↦ inr (q, ground (arith, h, k, e), ground (arith, h, k, e))
]

abbrev pub no_process : Machine
no_process = record { holder = none; running = [] }

-- Whatever instances of a program are started and whichever exit, in any order: if the kernel grants
-- the lock of a file only while nobody holds it, at most one instance runs, and it holds the lock.
pub Reach-IsSingle : (program : Program) {m : Machine} → Reach program no_process m → IsSingle m
unfolding IsSingle
Reach-IsSingle program here = inl (refl, refl)
Reach-IsSingle program (next r s) = Step-IsSingle program s (Reach-IsSingle program r)
