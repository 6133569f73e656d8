-- ===== src/Manager/Media/Refinement.antt =====
-- The media tables refine a directory of files by kind and path (manager/communication/
-- controlmanager.cpp).
use kylin_kmre_manager.Base.{
  ℕ, ◌+◌, ◌%◌, ◌≡◌, refl, sym, ap, subst, ◌∙◌, inl, inr, false, List, [], ◌∷◌, Option, some,
  list_eq, nat_beq, length, if◌then◌else◌, arith, Bool-cases, All,
}
use kylin_kmre_manager.Base.Int.{word}
use kylin_kmre_manager.Manager.Media.Table.{AndroidMeta, no_metas}
use kylin_kmre_manager.Manager.Media.Paths.{Host}
use kylin_kmre_manager.Manager.Media.Sync.{Media, new_media, start_sync, then_each, on_sync_files}
use kylin_kmre_manager.Manager.Media.Steps.{IsProper, counter_after, Batched, sync_each_lem}
use kylin_kmre_manager.Manager.Media.Directory.{
  Directory, no_files, change_files, received_after, Message, receive, receive_all,
}
use kylin_kmre_manager.Manager.Media.Shows.{ShowsFiles, change_all-ShowsFiles, no_metas-ShowsFiles}

unfoldable pub sync_all : Host → List Message → Media → Option Media
unfolding on_sync_files
sync_all h [] s = some s
sync_all h (g ∷ gs) s = then_each (λ t. sync_all h gs t) (on_sync_files h g.type g.metas g.total s)

pub record Refines (s : Media) (d : Directory) : Type 0 where
  pub shows : ShowsFiles s.tables d.files
  pub counted : s.current_num ≡ d.received

-- What a dump starts from.
started-ShowsFiles :
    (s : Media) (d : Directory)
    → Refines s d
    → ShowsFiles
        (if nat_beq s.current_num 0 then no_metas else s.tables)
        (if nat_beq d.received 0 then no_files else d.files)
started-ShowsFiles s d r = elim (Bool-cases (nat_beq d.received 0)) [
  | inl e ↦ rw (r.counted, e) no_metas-ShowsFiles
  | inr e ↦ rw (r.counted, e) r.shows
]

counter_after-received_after :
    (l : List AndroidMeta) (total n : ℕ) → counter_after 0 l total n n ≡ received_after l total n
counter_after-received_after [] total n = refl
counter_after-received_after (m ∷ l) total n = ground arith

dumped-Refines :
    (metas : List AndroidMeta) (total : ℕ) (s t : Media) (d : Directory)
    → Refines s d
    → Batched 0 metas metas (start_sync 0 metas total s) t
    → Refines t (receive (record { type = 0; metas = metas; total = total }) d)
unfolding start_sync receive
dumped-Refines metas total s t d r b = record {
  shows =
      subst
        (λ x.
          ShowsFiles x (change_files 0 metas (if nat_beq d.received 0 then no_files else d.files)))
        (sym b.tables) (change_all-ShowsFiles 0 metas _ _ (started-ShowsFiles s d r));
  counted =
      b.current
      ∙ counter_after-received_after metas total ((s.current_num + length metas) % word)
      ∙ ap (λ n. received_after metas total ((n + length metas) % word)) r.counted;
}

start_sync_changed :
    (type : ℕ) (metas : List AndroidMeta) (total : ℕ) (s : Media)
    → nat_beq type 0 ≡ false
    → start_sync type metas total s ≡ s
unfolding start_sync
start_sync_changed type metas total s e = rw e refl

receive_changed :
    (g : Message) (d : Directory)
    → nat_beq g.type 0 ≡ false
    → receive g d ≡ record d { files = change_files g.type g.metas d.files }
unfolding receive
receive_changed g d e = rw e refl

counter_after_changed :
    (type : ℕ) (l : List AndroidMeta) (total current n : ℕ)
    → nat_beq type 0 ≡ false
    → counter_after type l total current n ≡ n
counter_after_changed type [] total current n e = refl
counter_after_changed type (m ∷ l) total current n e = ground arith

changed-Refines :
    (g : Message) (s t : Media) (d : Directory)
    → nat_beq g.type 0 ≡ false
    → Refines s d
    → Batched g.type g.metas g.metas s t
    → Refines t (record d { files = change_files g.type g.metas d.files })
changed-Refines g s t d e r b = record {
  shows =
      subst (λ x. ShowsFiles x (change_files g.type g.metas d.files)) (sym b.tables)
        (change_all-ShowsFiles g.type g.metas s.tables d.files r.shows);
  counted =
      b.current
      ∙ counter_after_changed g.type g.metas s.total_num s.current_num s.current_num e
      ∙ r.counted;
}

Batched-Refines :
    (h : Host) (g : Message) (s t : Media) (d : Directory)
    → Refines s d
    → Batched g.type g.metas g.metas (start_sync g.type g.metas g.total s) t
    → Refines t (receive g d)
Batched-Refines h g s t d r b = elim (Bool-cases (nat_beq g.type 0)) [
  | inl e ↦
      let zero_type : g.type ≡ 0 = ground arith in
      subst (Refines t) (ap (λ n. receive (record g { type = n }) d) (sym zero_type)) (
        dumped-Refines g.metas g.total s t d r
          (subst (λ n. Batched n g.metas g.metas (start_sync n g.metas g.total s) t) zero_type b))
  | inr e ↦ subst (Refines t) (sym (receive_changed g d e)) (
      changed-Refines g s t d e r (
        subst (λ x. Batched g.type g.metas g.metas x t)
          (start_sync_changed g.type g.metas g.total s e) b))
]

on_sync_files-Refines :
    (h : Host) (g : Message) (s : Media) (d : Directory)
    → All IsProper g.metas
    → Refines s d
    → (t : Media) × (on_sync_files h g.type g.metas g.total s ≡ some t) × Refines t (receive g d)
unfolding on_sync_files
on_sync_files-Refines h g s d proper r =
    let (t, e, b) =
      sync_each_lem h g.type g.metas g.metas (start_sync g.type g.metas g.total s) proper in
    (t, e, Batched-Refines h g s t d r b)

pub sync_all-Refines :
    (h : Host) (gs : List Message) (s : Media) (d : Directory)
    → All (λ g. All IsProper g.metas) gs
    → Refines s d
    → (t : Media) × (sync_all h gs s ≡ some t) × Refines t (receive_all gs d)
unfolding sync_all
sync_all-Refines h [] s d proper r = (s, refl, r)
sync_all-Refines h (g ∷ gs) s d proper r =
    let (t, e, one) = on_sync_files-Refines h g s d proper.0 r in
    let (u, f, rest) = sync_all-Refines h gs t (receive g d) proper.1 one in (u, rw e f, rest)

abbrev pub new_directory : ℕ → Directory
new_directory received = record { files = no_files; received = received }

-- Any sequence of reports from the container, in which the files of applications have a type and a path
-- that are not made of slashes only, is taken in without a failure, whatever the two counters, which are
-- not initialised, hold at first. Afterwards the table of each kind
-- has, under each path, the file that the specification has there and no other; no path is twice in a
-- table; and the counter of the dump is that of the specification, which starts from what this one holds.
pub sync_all_lem :
    (h : Host) (gs : List Message) (current total : ℕ)
    → All (λ g. All IsProper g.metas) gs
    → (t : Media) × (sync_all h gs (new_media current total) ≡ some t)
      × Refines t (receive_all gs (new_directory current))
sync_all_lem h gs current total proper =
    sync_all-Refines h gs (new_media current total) (new_directory current) proper
      (record { shows = no_metas-ShowsFiles; counted = refl })
