-- ===== src/Manager/Media/Shows.antt =====
-- The media tables show the entries of a directory of files (manager/communication/
-- controlmanager.cpp).
use kylin_kmre_manager.Base.{
  ℕ, ◌≡◌, refl, sym, ap, subst, ◌∙◌, inl, inr, true, false, ◌||◌, List, [], ◌∷◌, list_eq, nat_beq,
  arith, Bool-cases,
}
use kylin_kmre_manager.Base.Text.{Text}
use kylin_kmre_manager.Manager.Media.Table.{
  AndroidMeta, Kind, image, video, audio, document, other, kind_of, Tables, no_metas, add_new,
  remove_first, table_of, with_table, insert_meta, remove_meta,
}
use kylin_kmre_manager.Manager.Media.Lookup.{
  find, IsUnique, kind_beq, eq_of_kind_beq, find-add_new, find-remove_first, add_new-IsUnique,
  remove_first-IsUnique, table_of-with_table,
}
use kylin_kmre_manager.Manager.Media.Steps.{change_tables, change_all}
use kylin_kmre_manager.Manager.Media.Directory.{
  Files, no_files, put, take_out, change, change_files,
}

-- The tables show the directory, entry by entry, and have no path twice.
pub record ShowsFiles (t : Tables) (v : Files) : Type 0 where
  pub same : (k : Kind) (p : Text) → find p (table_of k t) ≡ v k p
  pub unique : (k : Kind) → IsUnique (table_of k t)

with_table-ShowsFiles :
    (j : Kind) (l : List AndroidMeta) (t : Tables) (v w : Files)
    → ShowsFiles t v
    → IsUnique l
    → ((p : Text) → find p l ≡ w j p)
    → ((k : Kind) (p : Text) → kind_beq j k ≡ false → v k p ≡ w k p)
    → ShowsFiles (with_table j l t) w
with_table-ShowsFiles j l t v w shows u here there = record {
  same = λ k p. elim (Bool-cases (kind_beq j k)) [
    | inl e ↦
        let law : table_of k (with_table j l t) ≡ l = table_of-with_table j k l t ∙ rw e refl in
        ap (find p) law ∙ here p ∙ ap (λ i. w i p) (eq_of_kind_beq j k e)
    | inr e ↦
        let law : table_of k (with_table j l t) ≡ table_of k t =
          table_of-with_table j k l t ∙ rw e refl in
        ap (find p) law ∙ shows.same k p ∙ there k p e
  ];
  unique = λ k. elim (Bool-cases (kind_beq j k)) [
    | inl e ↦
        let law : table_of k (with_table j l t) ≡ l = table_of-with_table j k l t ∙ rw e refl in
        subst IsUnique (sym law) u
    | inr e ↦
        let law : table_of k (with_table j l t) ≡ table_of k t =
          table_of-with_table j k l t ∙ rw e refl in
        subst IsUnique (sym law) (shows.unique k)
  ];
}

kind_beq_refl : (k : Kind) → kind_beq k k ≡ true
kind_beq_refl k = ground arith

insert_meta-ShowsFiles :
    (m : AndroidMeta) (t : Tables) (v : Files)
    → ShowsFiles t v
    → ShowsFiles (insert_meta m t) (put m v)
unfolding insert_meta put
insert_meta-ShowsFiles m t v shows =
    let j = kind_of m.mime_type in
    with_table-ShowsFiles j (add_new m (table_of j t)) t v (put m v) shows
      (add_new-IsUnique m (table_of j t) (shows.unique j))
      (λ p. ground (arith, find-add_new p m (table_of j t), shows.same j p, kind_beq_refl j))
      (λ k p e. ground (arith, e))

remove_meta-ShowsFiles :
    (m : AndroidMeta) (t : Tables) (v : Files)
    → ShowsFiles t v
    → ShowsFiles (remove_meta m t) (take_out m v)
unfolding remove_meta take_out
remove_meta-ShowsFiles m t v shows =
    let j = kind_of m.mime_type in
    let unique = shows.unique j in
    with_table-ShowsFiles j (remove_first m.path (table_of j t)) t v (take_out m v) shows
      (remove_first-IsUnique m.path (table_of j t) unique)
      (λ p.
        ground (
          arith,
          find-remove_first p m.path (table_of j t) unique,
          shows.same j p,
          kind_beq_refl j,
        ))
      (λ k p e. ground (arith, e))

change_tables-ShowsFiles :
    (type : ℕ) (m : AndroidMeta) (t : Tables) (v : Files)
    → ShowsFiles t v
    → ShowsFiles (change_tables type m t) (change type m v)
change_tables-ShowsFiles type m t v shows = elim (Bool-cases (nat_beq type 0 || nat_beq type 1)) [
  | inl e ↦ rw e (insert_meta-ShowsFiles m t v shows)
  | inr e ↦ elim (Bool-cases (nat_beq type 2)) [
    | inl two ↦ rw (e, two) (remove_meta-ShowsFiles m t v shows)
    | inr two ↦ rw (e, two) shows
  ]
]

pub change_all-ShowsFiles :
    (type : ℕ) (l : List AndroidMeta) (t : Tables) (v : Files)
    → ShowsFiles t v
    → ShowsFiles (change_all type l t) (change_files type l v)
change_all-ShowsFiles type [] t v shows = shows
change_all-ShowsFiles type (m ∷ l) t v shows =
    change_all-ShowsFiles type l _ _ (change_tables-ShowsFiles type m t v shows)

table_of-no_metas : (k : Kind) → table_of k no_metas ≡ []
table_of-no_metas image = refl
table_of-no_metas video = refl
table_of-no_metas audio = refl
table_of-no_metas document = refl
table_of-no_metas other = refl

pub no_metas-ShowsFiles : ShowsFiles no_metas no_files
unfolding find
no_metas-ShowsFiles = record {
  same = λ k p. ap (find p) (table_of-no_metas k);
  unique = λ k. subst IsUnique (sym (table_of-no_metas k)) tt;
}
