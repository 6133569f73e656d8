-- ===== src/FileWatcher/Inotify/Stream.antt =====
-- readNextEvent against the kernel's encoding of events (filewatcher/file-inotify/
-- file-inotify-watcher.cpp).
use mathlib.Core.List.{append_assoc, append-nil}
use kylin_kmre_manager.Base.{
  ℕ, zero, suc, ◌+◌, ◌/◌, ◌%◌, ◌≤◌, ◌<◌, ◌≡◌, refl, sym, ap, ◌∙◌, true, List, [], ◌∷◌, ◌++◌, map,
  Option, some, arith, drop, length, All, get_or-append, drop-append, take-append, length-append,
}
use kylin_kmre_manager.Base.Int.{to_int32_small}
use kylin_kmre_manager.FileWatcher.Inotify.Buffer.{
  Reader, Supply, event_size, name_max, event_buffer_size, len_at, take_event, after_read, fill,
  read_next_event, is_positive,
}

-- struct inotify_event as the kernel sends it; the name with its padding.
pub record Event : Type 0 where
  pub wd : ℕ
  pub mask : ℕ
  pub cookie : ℕ
  pub name : List ℕ

abbrev bytes4 : ℕ → List ℕ → List ℕ
bytes4 n rest = (n % 256) ∷ (n / 256 % 256) ∷ (n / 65536 % 256) ∷ (n / 16777216 % 256) ∷ rest

-- The bytes of one event.
abbrev pub encode : Event → List ℕ
encode e = bytes4 e.wd (bytes4 e.mask (bytes4 e.cookie (bytes4 (length e.name) e.name)))

abbrev pub encode_all : List Event → List ℕ
encode_all [] = []
encode_all (e ∷ es) = encode e ++ encode_all es

-- A name has at most NAME_MAX bytes and a zero.
abbrev pub IsShort : Event → Type 0
IsShort e = length e.name ≤ name_max + 1

len_at-encode :
    (pre post : List ℕ) (e : Event)
    → IsShort e
    → len_at (pre ++ (encode e ++ post)) (length pre) ≡ length e.name
unfolding len_at
len_at-encode pre post e h = omega (
  arith,
  get_or-append pre (encode e ++ post) 12 (length pre + 12) 0 (omega arith),
  get_or-append pre (encode e ++ post) 13 (length pre + 12 + 1) 0 (omega arith),
  get_or-append pre (encode e ++ post) 14 (length pre + 12 + 2) 0 (omega arith),
  get_or-append pre (encode e ++ post) 15 (length pre + 12 + 3) 0 (omega arith),
)

length-encode : (e : Event) → length (encode e) ≡ event_size + length e.name
length-encode e = omega arith

-- The reader whose buffer holds `pre`, already handed out, then `rest`, then `stale` bytes.
abbrev at : List ℕ → List ℕ → List ℕ → Reader
at pre rest stale = record {
  ready = true;
  current_position = length pre;
  total_read = length pre + length rest;
  event_buffer = pre ++ (rest ++ stale);
}

-- An event that lies whole in the part that was read is handed out, and the position moves past it.
take_event_lem :
    (r : Reader) (n : ℕ) (bytes rest : List ℕ)
    → len_at r.event_buffer r.current_position ≡ n
    → r.current_position + event_size + n ≤ r.total_read
    → r.total_read ≤ event_buffer_size
    → drop r.current_position r.event_buffer ≡ bytes ++ rest
    → event_size + n ≡ length bytes
    → take_event r
      ≡ (some bytes, record r { current_position = r.current_position + event_size + n })
unfolding take_event
take_event_lem r n bytes rest len fits small at_bytes size = ground (
  arith,
  to_int32_small (r.current_position + event_size + n) (omega arith),
  take-append bytes rest,
)

-- The length of what is still in the buffer.
length-encode-append :
    (e : Event) (xs : List ℕ) → length (encode e ++ xs) ≡ event_size + length e.name + length xs
length-encode-append e xs = omega (arith, length-append e.name xs)

take_event-encode :
    (pre stale more : List ℕ) (e : Event)
    → IsShort e
    → length pre + length (encode e ++ more) ≤ event_buffer_size
    → take_event (at pre (encode e ++ more) stale)
      ≡ (some (encode e), at (pre ++ encode e) more stale)
take_event-encode pre stale more e h fits =
    let q : (encode e ++ more) ++ stale ≡ encode e ++ (more ++ stale) =
      append_assoc (encode e) more stale in
    take_event_lem (at pre (encode e ++ more) stale) (length e.name) (encode e) (more ++ stale)
      (ap (λ b. len_at (pre ++ b) (length pre)) q ∙ len_at-encode pre (more ++ stale) e h)
      (omega (arith, length-encode-append e more)) (omega arith) (drop-append pre _ ∙ q)
      (sym (length-encode e))
    ∙ ground (
      arith,
      length-append pre (encode e),
      length-encode-append e more,
      append_assoc pre (encode e) (more ++ stale),
      q,
    )

-- The results of several calls in a row, with the same answers of the kernel.
pub reads : ℕ → Supply → Reader → List (Option (List ℕ)) × Reader
reads zero s r = ([], r)
reads (suc n) s r =
    let (e, r') = read_next_event s r in let (es, r'') = reads n s r' in (e ∷ es, r'')

-- Within the buffer no call asks the kernel.
read_next_event-within :
    (s : Supply) (r : Reader)
    → r.ready ≡ true
    → r.current_position < r.total_read
    → read_next_event s r ≡ take_event r
unfolding read_next_event
read_next_event-within s r on h = ground arith

reads-at :
    (s : Supply) (pre stale : List ℕ) (es : List Event)
    → All IsShort es
    → length pre + length (encode_all es) ≤ event_buffer_size
    → reads (length es) s (at pre (encode_all es) stale)
      ≡ (map (λ e. some (encode e)) es, at (pre ++ encode_all es) [] stale)
unfolding reads
reads-at s pre stale [] h fits = rw append-nil
reads-at s pre stale (e ∷ es) h fits = ground (
  arith,
  read_next_event-within s (at pre (encode_all (e ∷ es)) stale) refl
      (omega (arith, length-encode-append e (encode_all es))),
  take_event-encode pre stale (encode_all es) e h.0 fits,
  reads-at s (pre ++ encode e) stale es h.1
      (omega (arith, length-append pre (encode e), length-encode-append e (encode_all es))),
  append_assoc pre (encode e) (encode_all es),
)

read_next_event-fill :
    (s : Supply) (r : Reader) (bytes : List ℕ)
    → r.ready ≡ true
    → r.current_position ≡ r.total_read
    → is_positive s.poll ≡ true
    → s.read ≡ some bytes
    → read_next_event s r ≡ take_event (at [] bytes (drop (length bytes) r.event_buffer))
unfolding read_next_event fill after_read
read_next_event-fill s r bytes on empty polled filled =
    let zero_length : 0 + length bytes ≡ length bytes = omega arith in
    simp (on, zero_length) (ground (arith, on, zero_length))

-- With an exhausted buffer, if the kernel has events ready and delivers whole events with names of
-- at most NAME_MAX + 1 bytes that fit the buffer, then as many calls return exactly these events, in
-- order and byte for byte, and leave the buffer exhausted again.
pub reads-encode_all :
    (s : Supply) (r : Reader) (e : Event) (es : List Event)
    → r.ready ≡ true
    → r.current_position ≡ r.total_read
    → is_positive s.poll ≡ true
    → s.read ≡ some (encode_all (e ∷ es))
    → All IsShort (e ∷ es)
    → length (encode_all (e ∷ es)) ≤ event_buffer_size
    → let out = reads (length (e ∷ es)) s r in
      (out.0 ≡ map (λ x. some (encode x)) (e ∷ es)) × (out.1.current_position ≡ out.1.total_read)
unfolding reads
reads-encode_all s r e es on empty polled filled h fits =
    let stale : List ℕ = drop (length (encode_all (e ∷ es))) r.event_buffer in
    ground (
      arith,
      read_next_event-fill s r (encode_all (e ∷ es)) on empty polled filled,
      take_event-encode [] stale (encode_all es) e h.0 (omega arith),
      reads-at s (encode e) stale es h.1
          (omega (arith, length-encode-append e (encode_all es), length-encode e)),
    )
