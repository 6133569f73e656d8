-- ===== src/FileWatcher/Inotify/Buffer.antt =====
-- FileInotifyWatcher::readNextEvent: the event buffer, byte by byte (filewatcher/file-inotify/
-- file-inotify-watcher.cpp and .h). An event is a header of 16 bytes (wd, mask, cookie, len, each of
-- four bytes, least significant first) and `len` bytes of name. Positions are unbounded numbers: the
-- source's int differs only for a `len` near 2^32, where its memcpy already runs past the array.
use kylin_kmre_manager.Base.{
  ℕ, ◌+◌, ◌*◌, Bool, false, List, ◌++◌, Option, none, some, get_or, take, drop, length, nat_beq,
  ltb, if◌then◌else◌,
}
use kylin_kmre_manager.Base.Int.{ℤ, pos, negsuc, to_int32}

-- sizeof(struct inotify_event).
abbrev pub event_size : ℕ
event_size = 16

abbrev pub name_max : ℕ
name_max = 255

abbrev pub current_event_size : ℕ
current_event_size = 16 * (event_size + name_max + 1)

abbrev pub event_buffer_size : ℕ
event_buffer_size = 64 * (event_size + name_max + 1)

pub record Reader : Type 0 where
  pub ready : Bool  -- mInitialized
  pub current_position : ℕ
  pub total_read : ℕ
  pub event_buffer : List ℕ

-- The kernel's answers while one call runs: poll's, and the bytes that read gives or `none` if it
-- fails. read gives at most event_buffer_size bytes.
pub record Supply : Type 0 where
  pub poll : ℤ
  pub read : Option (List ℕ)

-- Four bytes of the buffer from a position, least significant first.
unfoldable pub word_at : List ℕ → ℕ → ℕ
word_at b i =
    get_or b i 0
    + 256 * get_or b (i + 1) 0
    + 65536 * get_or b (i + 2) 0
    + 16777216 * get_or b (i + 3) 0

-- e->len for the event at a position.
unfoldable pub len_at : List ℕ → ℕ → ℕ
unfolding word_at
len_at b i = word_at b (i + 12)

-- (int)n > total.
abbrev pub exceeds : ℤ → ℕ → Bool
exceeds (pos n) total = ltb total n
exceeds (negsuc n) total = false

-- The part of the function after the buffer is filled: the event's bytes as they are copied to
-- mCurrentEvent, or `none` for nullptr.
unfoldable pub take_event : Reader → Option (List ℕ) × Reader
unfolding len_at
take_event r =
    let len = len_at r.event_buffer r.current_position in
    let end = r.current_position + event_size + len in
    if exceeds (to_int32 end) r.total_read
    then (none, record r { current_position = 0; total_read = 0 })
    else (
      some (take (event_size + len) (drop r.current_position r.event_buffer)),
      record r { current_position = end },
    )

-- A read writes over the front of the array and leaves the rest as it was.
abbrev pub overwrite : List ℕ → List ℕ → List ℕ
overwrite bytes b = bytes ++ drop (length bytes) b

unfoldable pub after_read : Reader → Option (List ℕ) → Option (List ℕ) × Reader
unfolding take_event
after_read r none = (none, record r { current_position = 0; total_read = 0 })
after_read r (some bytes) = take_event (record r {
  current_position = 0;
  total_read = length bytes;
  event_buffer = overwrite bytes r.event_buffer;
})

-- poll answers 0 at a timeout and -1 at an error.
abbrev pub is_positive : ℤ → Bool
is_positive (pos n) = ltb 0 n
is_positive (negsuc n) = false

unfoldable pub fill : Supply → Reader → Option (List ℕ) × Reader
unfolding after_read
fill s r =
    if is_positive s.poll
    then after_read r s.read
    else (none, record r { current_position = 0; total_read = 0 })

unfoldable pub read_next_event : Supply → Reader → Option (List ℕ) × Reader
unfolding fill take_event
read_next_event s r =
    if r.ready
    then (if nat_beq r.current_position r.total_read then fill s r else take_event r)
    else (none, r)
