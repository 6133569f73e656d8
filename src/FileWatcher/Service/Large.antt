-- ===== src/FileWatcher/Service/Large.antt =====
-- Files of 2 GiB and more in the queue (filewatcher/file-inotify/file-inotify-service.cpp): `size` is
-- an int, and st_size is not.
use kylin_kmre_manager.Base.{
  ℕ, ◌≤◌, ◌≡◌, refl, sym, subst, ◌∙◌, Bool, false, List, [], ◌∷◌, map, some, All, All-imp, arith,
}
use kylin_kmre_manager.Base.Text.{Text}
use kylin_kmre_manager.Base.Int.{ℤ, pos, int_beq, to_int32, to_int32-ne_large}
use kylin_kmre_manager.FileWatcher.Service.Queue.{
  NotifyFileInfo, Answers, visit_sized, visit, scan, scans,
}

-- A size of 2^31 or more, in one round's answers.
abbrev pub IsLarge : Answers → Text → Type 0
IsLarge a p = (n : ℕ) × (a.stat_size p ≡ some n) × (2147483648 ≤ n)

abbrev pub paths : List NotifyFileInfo → List Text
paths = map λ i. i.path

-- The recorded size can never be that of such a file.
abbrev IsInt : ℤ → Type 0
IsInt z = (n : ℕ) → 2147483648 ≤ n → int_beq (pos n) z ≡ false

abbrev pub HasIntSizes : List NotifyFileInfo → Type 0
HasIntSizes = All λ i. IsInt i.size

visit_large :
    (a : Answers) (home : Text) (owned : Bool) (i : NotifyFileInfo) (large : IsLarge a i.path)
    → IsInt i.size
    → visit a home owned i ≡ (some (record i { size = to_int32 large.0 }), owned, [])
unfolding visit visit_sized
visit_large a home owned i large s = ground (arith, s large.0 large.2)

scan_large :
    (a : Answers) (home : Text) (owned : Bool) (l : List NotifyFileInfo)
    → All (IsLarge a) (paths l)
    → HasIntSizes l
    → let out = scan a home owned l in (paths out.0 ≡ paths l) × HasIntSizes out.0 × (out.2 ≡ [])
unfolding scan
scan_large a home owned [] large s = (refl, tt, refl)
scan_large a home owned (i ∷ l) large s =
    let (same, ints, silent) = scan_large a home owned l large.1 s.1 in
    rw (visit_large a home owned i large.0 s.0)
      (ground (arith, same), (to_int32-ne_large large.0.0, ints), silent)

-- Files whose recorded sizes are ints, as are those of every queued file, and that have 2^31 bytes or
-- more in each round stay in the queue for all rounds, and none of them is ever announced.
pub scans_large :
    (as' : List Answers) (home : Text) (owned : Bool) (l : List NotifyFileInfo)
    → All (λ a. All (IsLarge a) (paths l)) as'
    → HasIntSizes l
    → let out = scans as' home owned l in (paths out.0 ≡ paths l) × (out.2 ≡ [])
unfolding scans
scans_large [] home owned l large s = (refl, refl)
scans_large (a ∷ as') home owned l large s =
    let (l', owned', made) = scan a home owned l in
    let (same, ints, silent) = scan_large a home owned l large.0 s in
    let later : All (λ b. All (IsLarge b) (paths l')) as' =
      All-imp (λ b. All (IsLarge b) (paths l)) (λ b. All (IsLarge b) (paths l')) as'
        (λ b h. subst (λ ps. All (IsLarge b) ps) (sym same) h) large.1 in
    let rest = scans_large as' home owned' l' later ints in
    (rest.0 ∙ same, ground (arith, silent, rest.1))
