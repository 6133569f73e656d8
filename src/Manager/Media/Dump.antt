-- ===== src/Manager/Media/Dump.antt =====
-- A whole dump of the container's files, in batches (manager/communication/controlmanager.cpp).
use mathlib.Core.List.{append-nil, append_assoc}
use kylin_kmre_manager.Base.{
  ℕ, ◌+◌, ◌%◌, ◌≤◌, ◌<◌, ◌≡◌, ◌≢◌, refl, sym, ap, ◌∙◌, ◌&&◌, List, [], ◌∷◌, ◌++◌, Option, none,
  some, ◌==◌, list_eq, nat_beq, length, replicate, length-append, if◌then◌else◌, arith,
  Option-cases, All,
}
use kylin_kmre_manager.Base.Int.{word, int_leb_small}
use kylin_kmre_manager.Base.Text.{Text}
use kylin_kmre_manager.Manager.Media.Table.{AndroidMeta, Kind, kind_of, table_of}
use kylin_kmre_manager.Manager.Media.Paths.{Host}
use kylin_kmre_manager.Manager.Media.Sync.{Media, start_sync, on_sync_files}
use kylin_kmre_manager.Manager.Media.Lookup.{find, kind_beq}
use kylin_kmre_manager.Manager.Media.Steps.{IsProper, counter_after, all_told, sync_each_lem}
use kylin_kmre_manager.Manager.Media.Directory.{
  Files, Directory, no_files, put, change_files, received_after, Message, receive, receive_all,
}
use kylin_kmre_manager.Manager.Media.Refinement.{Refines, sync_all, sync_all-Refines}

abbrev pub batch : ℕ → List AndroidMeta → Message
batch total metas = record { type = 0; metas = metas; total = total }

abbrev pub batches : ℕ → List (List AndroidMeta) → List Message
batches total [] = []
batches total (b ∷ bs) = batch total b ∷ batches total bs

abbrev pub joined : List (List AndroidMeta) → List AndroidMeta
joined [] = []
joined (b ∷ bs) = b ++ joined bs

-- The first file of a list with a kind and a path.
unfoldable pub first_of : Kind → Text → List AndroidMeta → Option AndroidMeta
first_of k p [] = none
first_of k p (m ∷ l) =
    if kind_beq (kind_of m.mime_type) k && (m.path == p) then some m else first_of k p l

abbrev or_else : Option AndroidMeta → Option AndroidMeta → Option AndroidMeta
or_else none o = o
or_else (some n) o = some n

change_files-first_of :
    (l : List AndroidMeta) (v : Files) (k : Kind) (p : Text)
    → change_files 0 l v k p ≡ or_else (v k p) (first_of k p l)
unfolding first_of
change_files-first_of [] v k p = ground (arith, Option-cases (v k p))
change_files-first_of (m ∷ l) v k p =
    change_files-first_of l (put m v) k p ∙ unfold put in (ground (arith, Option-cases (v k p)))

change_files-append :
    (a b : List AndroidMeta) (v : Files)
    → change_files 0 (a ++ b) v ≡ change_files 0 b (change_files 0 a v)
change_files-append [] b v = refl
change_files-append (m ∷ a) b v = change_files-append a b (put m v)

-- A sum that does not wrap around.
whole : (n : ℕ) → n < 2147483648 → n % word ≡ n
whole n h = omega arith

-- What a batch of a dump is added to.
abbrev base : Directory → Files
base d = if nat_beq d.received 0 then no_files else d.files

received-receive :
    (total : ℕ) (b : List AndroidMeta) (d : Directory)
    → d.received + length b < total
    → total < 2147483648
    → (receive (batch total b) d).received ≡ d.received + length b
unfolding receive
received-receive total [] d h small = whole (d.received + 0) (omega (arith, h, small))
received-receive total (m ∷ b) d h small =
    let sum = d.received + length (m ∷ b) in
    let fits : sum < 2147483648 = omega (arith, h, small) in
    ap (λ n. received_after (m ∷ b) total n) (whole sum fits)
    ∙ ground (arith, int_leb_small total sum small fits)

base-receive :
    (total : ℕ) (b : List AndroidMeta) (d : Directory)
    → d.received + length b < total
    → total < 2147483648
    → base (receive (batch total b) d) ≡ change_files 0 b (base d)
unfolding receive
base-receive total [] d h small = ground (arith, received-receive total [] d h small)
base-receive total (m ∷ b) d h small = ground (arith, received-receive total (m ∷ b) d h small)

part_counter :
    (b : List AndroidMeta) (total n : ℕ)
    → n < total
    → total < 2147483648
    → counter_after 0 b total n n ≡ n
part_counter [] total n h small = refl
part_counter (m ∷ b) total n h small =
    ground (arith, int_leb_small total n small (omega (arith, h, small)))

last_counter :
    (b : List AndroidMeta) (total n x : ℕ)
    → b ≢ []
    → total ≤ n
    → n < 2147483648
    → counter_after 0 b total n x ≡ 0
last_counter [] total n x some_file h small = absurd (some_file refl)
last_counter (m ∷ b) total n x some_file h small =
    ground (arith, int_leb_small total n (omega (arith, h, small)) small)

-- A batch after which files are still to come.
part_lem :
    (h : Host) (total : ℕ) (b : List AndroidMeta) (s : Media)
    → All IsProper b
    → s.current_num + length b < total
    → total < 2147483648
    → (t : Media) × (on_sync_files h 0 b total s ≡ some t)
      × (t.current_num ≡ s.current_num + length b)
      × (t.messages ≡ s.messages)
unfolding on_sync_files start_sync
part_lem h total b s proper short small =
    let (t, e, r) = sync_each_lem h 0 b b (start_sync 0 b total s) proper in
    let sum = s.current_num + length b in
    let fits : sum < 2147483648 = omega (arith, short, small) in
    (
      t,
      e,
      r.current
          ∙ ap (λ n. counter_after 0 b total n n) (whole sum fits)
          ∙ part_counter b total sum short small,
      r.messages
          ∙ ap (λ n. s.messages ++ all_told 0 b b total n) (whole sum fits)
          ∙ ground (arith, append-nil s.messages, int_leb_small total sum small fits),
    )

-- The batch with which the files are complete.
last_lem :
    (h : Host) (total : ℕ) (b : List AndroidMeta) (s : Media)
    → All IsProper b
    → b ≢ []
    → total ≤ s.current_num + length b
    → s.current_num + length b < 2147483648
    → (t : Media) × (on_sync_files h 0 b total s ≡ some t)
      × (t.current_num ≡ 0)
      × (t.total_num ≡ 0)
      × (t.messages ≡ s.messages ++ replicate (length b) (0, b))
unfolding on_sync_files start_sync
last_lem h total b s proper some_file full small =
    let (t, e, r) = sync_each_lem h 0 b b (start_sync 0 b total s) proper in
    let sum = s.current_num + length b in
    (
      t,
      e,
      r.current
          ∙ ap (λ n. counter_after 0 b total n n) (whole sum small)
          ∙ last_counter b total sum sum some_file full small,
      r.total
          ∙ ap (λ n. counter_after 0 b total n total) (whole sum small)
          ∙ last_counter b total sum total some_file full small,
      r.messages
          ∙ ap (λ n. s.messages ++ all_told 0 b b total n) (whole sum small)
          ∙ ground (arith, int_leb_small total sum (omega (arith, full, small)) small),
    )

-- All batches but the last one, and then it.
counted_dump :
    (h : Host) (total : ℕ) (bs : List (List AndroidMeta)) (last : List AndroidMeta) (s : Media)
    → All (All IsProper) bs
    → All IsProper last
    → last ≢ []
    → s.current_num + length (joined bs) < total
    → total ≤ s.current_num + length (joined bs) + length last
    → s.current_num + length (joined bs) + length last < 2147483648
    → (t : Media) × (sync_all h (batches total (bs ++ last ∷ [])) s ≡ some t)
      × (t.current_num ≡ 0)
      × (t.total_num ≡ 0)
      × (t.messages ≡ s.messages ++ replicate (length last) (0, last))
unfolding sync_all
counted_dump h total [] last s proper last_proper some_file short full small =
    let (t, e, current, none_left, messages) =
      last_lem h total last s last_proper some_file (omega (arith, full)) (omega (arith, small)) in
    (t, rw e refl, current, none_left, messages)
counted_dump h total (b ∷ bs) last s proper last_proper some_file short full small =
    let size = length-append b (joined bs) in
    let (t, e, count, silent) =
      part_lem h total b s proper.0 (omega (arith, size, short)) (omega (arith, full, small)) in
    let (u, f, current, none_left, messages) =
      counted_dump h total bs last t proper.1 last_proper some_file
        (omega (arith, size, count, short)) (omega (arith, size, count, full))
        (omega (arith, size, count, small)) in
    (
      u,
      rw e f,
      current,
      none_left,
      messages ∙ ap (λ l. l ++ replicate (length last) (0, last)) silent,
    )

receive_all-batches :
    (total : ℕ) (bs : List (List AndroidMeta)) (last : List AndroidMeta) (d : Directory)
    → d.received + length (joined bs) < total
    → total < 2147483648
    → (receive_all (batches total (bs ++ last ∷ [])) d).files
      ≡ change_files 0 (joined bs ++ last) (base d)
receive_all-batches total [] last d short small = unfold receive in refl
receive_all-batches total (b ∷ bs) last d short small =
    let size = length-append b (joined bs) in
    let d' = receive (batch total b) d in
    let count = received-receive total b d (omega (arith, size, short)) small in
    receive_all-batches total bs last d' (omega (arith, size, count, short)) small
    ∙ ap (change_files 0 (joined bs ++ last))
        (base-receive total b d (omega (arith, size, short)) small)
    ∙ sym (change_files-append b (joined bs ++ last) (base d))
    ∙ ap (λ l. change_files 0 l (base d)) (sym (append_assoc b (joined bs) last))

base_idle : (d : Directory) → d.received ≡ 0 → base d ≡ no_files
base_idle d h = ground arith

batches-IsProper :
    (total : ℕ) (bs : List (List AndroidMeta)) (last : List AndroidMeta)
    → All (All IsProper) bs
    → All IsProper last
    → All (λ (g : Message). All IsProper g.metas) (batches total (bs ++ last ∷ []))
batches-IsProper total [] last proper last_proper = (last_proper, tt)
batches-IsProper total (b ∷ bs) last proper last_proper =
    (proper.0, batches-IsProper total bs last proper.1 last_proper)

-- A dump of fewer than 2^31 files that starts while no other is under way (the counter is 0), with tables
-- that show the files of the specification, in batches that reach the announced number with the last one
-- and not before, and whose last batch has a file; the files of applications have a type and a path that
-- are not made of slashes only. It is taken in without a failure. Afterwards the table of each kind has,
-- under each path, the first file of the dump with that kind and path, and no other; and the counters are
-- ready for the next dump. The signal that the dump is complete is emitted once for each file of the last
-- batch.
pub dump_lem :
    (h : Host) (total : ℕ) (bs : List (List AndroidMeta)) (last : List AndroidMeta) (s : Media)
    (d : Directory)
    → Refines s d
    → s.current_num ≡ 0
    → All (All IsProper) bs
    → All IsProper last
    → last ≢ []
    → length (joined bs) < total
    → total ≤ length (joined bs) + length last
    → length (joined bs) + length last < 2147483648
    → (t : Media) × (sync_all h (batches total (bs ++ last ∷ [])) s ≡ some t)
      × ((k : Kind) (p : Text) → find p (table_of k t.tables) ≡ first_of k p (joined bs ++ last))
      × (t.current_num ≡ 0)
      × (t.total_num ≡ 0)
      × (t.messages ≡ s.messages ++ replicate (length last) (0, last))
dump_lem h total bs last s d r idle proper last_proper some_file short full small =
    let (t, e, current, none_left, messages) =
      counted_dump h total bs last s proper last_proper some_file (omega (arith, idle, short))
        (omega (arith, idle, full)) (omega (arith, idle, small)) in
    let messages_proper = batches-IsProper total bs last proper last_proper in
    let (t', e', shown) =
      sync_all-Refines h (batches total (bs ++ last ∷ [])) s d messages_proper r in
    let same : t ≡ t' = cc (e, e') in
    let count : d.received ≡ 0 = sym r.counted ∙ idle in
    let whole = joined bs ++ last in
    (
      t,
      e,
      λ k p.
          ap (λ (x : Media). find p (table_of k x.tables)) same
          ∙ shown.shows.same k p
          ∙ ap (λ v. v k p)
              (receive_all-batches total bs last d (omega (arith, count, short))
                (omega (arith, full, small)))
          ∙ ap (λ v. change_files 0 whole v k p) (base_idle d count)
          ∙ change_files-first_of whole no_files k p,
      current,
      none_left,
      messages,
    )
