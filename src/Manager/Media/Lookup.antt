-- ===== src/Manager/Media/Lookup.antt =====
-- The media tables as maps from paths (manager/communication/controlmanager.cpp).
use kylin_kmre_manager.Base.{
  ℕ, ◌≡◌, refl, inl, inr, Bool, true, false, List, [], ◌∷◌, ◌++◌, Option, none, some, ◌==◌, list_eq,
  list_beq_iff, nat_beq, if◌then◌else◌, arith, Bool-cases,
}
use kylin_kmre_manager.Base.Text.{Text}
use kylin_kmre_manager.Manager.Media.Table.{
  AndroidMeta, Kind, image, video, audio, document, other, Tables, contains_meta, add_new,
  remove_first, table_of, with_table,
}

-- The entry with a path.
unfoldable pub find : Text → List AndroidMeta → Option AndroidMeta
find p [] = none
find p (m ∷ l) = if m.path == p then some m else find p l

-- No two entries have one path.
abbrev pub IsUnique : List AndroidMeta → Type 0
IsUnique [] = Unit
IsUnique (m ∷ l) = (contains_meta m l ≡ false) × IsUnique l

abbrev pub or_first : Option AndroidMeta → AndroidMeta → AndroidMeta
or_first none m = m
or_first (some n) m = n

abbrev pub rank : Kind → ℕ
rank image = 0
rank video = 1
rank audio = 2
rank document = 3
rank other = 4

abbrev pub kind_beq : Kind → Kind → Bool
kind_beq j k = nat_beq (rank j) (rank k)

contains_meta-find :
    (m : AndroidMeta) (l : List AndroidMeta)
    → contains_meta m l ≡ (elim (find m.path l) [ none ↦ false | some n ↦ true ])
unfolding contains_meta find
contains_meta-find m [] = refl
contains_meta-find m (n ∷ l) = ground (arith, contains_meta-find m l)

find-append_one :
    (p : Text) (m : AndroidMeta) (l : List AndroidMeta)
    → find p (l ++ m ∷ [])
      ≡ (elim (find p l) [ none ↦ if m.path == p then some m else none | some n ↦ some n ])
unfolding find
find-append_one p m [] = ground arith
find-append_one p m (n ∷ l) = ground (arith, find-append_one p m l)

-- An insertion keeps the entry that has the path, and otherwise adds the new one.
pub find-add_new :
    (p : Text) (m : AndroidMeta) (l : List AndroidMeta)
    → find p (add_new m l) ≡ (if m.path == p then some (or_first (find p l) m) else find p l)
unfolding add_new
find-add_new p m l =
    ground (arith, contains_meta-find m l, find-append_one p m l, list_beq_iff m.path p)

find_of_absent :
    (m : AndroidMeta) (l : List AndroidMeta) → contains_meta m l ≡ false → find m.path l ≡ none
find_of_absent m l h = ground (arith, contains_meta-find m l)

-- A removal from entries with different paths removes the entry that has the path.
pub find-remove_first :
    (p q : Text) (l : List AndroidMeta)
    → IsUnique l
    → find p (remove_first q l) ≡ (if q == p then none else find p l)
unfolding find remove_first
find-remove_first p q [] u = ground arith
find-remove_first p q (m ∷ l) u = ground (
  arith,
  find-remove_first p q l u.1,
  find_of_absent m l u.0,
  list_beq_iff m.path p,
  list_beq_iff m.path q,
  list_beq_iff q p,
)

contains_meta-remove_first :
    (m : AndroidMeta) (q : Text) (l : List AndroidMeta)
    → contains_meta m l ≡ false
    → contains_meta m (remove_first q l) ≡ false
unfolding contains_meta remove_first
contains_meta-remove_first m q [] h = refl
contains_meta-remove_first m q (n ∷ l) h = ground (arith, contains_meta-remove_first m q l)

pub remove_first-IsUnique :
    (q : Text) (l : List AndroidMeta) → IsUnique l → IsUnique (remove_first q l)
unfolding remove_first
remove_first-IsUnique q [] u = tt
remove_first-IsUnique q (m ∷ l) u = elim (Bool-cases (m.path == q)) [
  | inl same ↦ rw same u.1
  | inr new ↦ rw new (contains_meta-remove_first m q l u.0, remove_first-IsUnique q l u.1)
]

contains_meta-append_one :
    (n m : AndroidMeta) (l : List AndroidMeta)
    → contains_meta n l ≡ false
    → (m.path == n.path) ≡ false
    → contains_meta n (l ++ m ∷ []) ≡ false
unfolding contains_meta
contains_meta-append_one n m [] h e = ground arith
contains_meta-append_one n m (x ∷ l) h e = ground (arith, contains_meta-append_one n m l)

append_one-IsUnique :
    (m : AndroidMeta) (l : List AndroidMeta)
    → IsUnique l
    → contains_meta m l ≡ false
    → IsUnique (l ++ m ∷ [])
unfolding contains_meta
append_one-IsUnique m [] u h = (refl, tt)
append_one-IsUnique m (n ∷ l) u h = (
  contains_meta-append_one n m l u.0
      (ground (arith, list_beq_iff m.path n.path, list_beq_iff n.path m.path)),
  append_one-IsUnique m l u.1 (ground arith),
)

pub add_new-IsUnique :
    (m : AndroidMeta) (l : List AndroidMeta) → IsUnique l → IsUnique (add_new m l)
unfolding add_new
add_new-IsUnique m l u = elim (Bool-cases (contains_meta m l)) [
  | inl there ↦ rw there u
  | inr absent ↦ rw absent (append_one-IsUnique m l u absent)
]

-- A table that was written is read back, and the others are as they were.
pub table_of-with_table :
    (j k : Kind) (l : List AndroidMeta) (t : Tables)
    → table_of k (with_table j l t) ≡ (if kind_beq j k then l else table_of k t)
table_of-with_table image k l t = ground arith
table_of-with_table video k l t = ground arith
table_of-with_table audio k l t = ground arith
table_of-with_table document k l t = ground arith
table_of-with_table other k l t = ground arith

pub eq_of_kind_beq : (j k : Kind) → (kind_beq j k ≡ true) → j ≡ k
eq_of_kind_beq image k h = ground arith
eq_of_kind_beq video k h = ground arith
eq_of_kind_beq audio k h = ground arith
eq_of_kind_beq document k h = ground arith
eq_of_kind_beq other k h = ground arith
