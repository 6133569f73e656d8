-- ===== src/Audio/Recording/Waiting.antt =====
-- How long RecordingWorker waits for a microphone that gives nothing (audio/recordingworker.cpp).
use kylin_kmre_manager.Base.{
  ℕ, zero, suc, ◌+◌, ◌-◌, ◌%◌, ◌<◌, ◌≡◌, Bool, true, false, not, ◌&&◌, List, [], ◌∷◌, length,
  Option, ltb, nat_beq, if◌then◌else◌, arith, All,
}
use kylin_kmre_manager.Base.Int.{ℤ, pos, negsuc, ℤ-cases, word}
use kylin_kmre_manager.Audio.Recording.{RecordHandle}
use kylin_kmre_manager.Audio.Recording.Session.{
  ReadTurn, read_fails, no_frames, read_turn, Recorded, read_loop,
}

abbrev pub has_frames : ℤ → Bool
has_frames (pos zero) = false
has_frames (pos (suc n)) = true
has_frames (negsuc n) = false

-- A round that neither fails nor gives a frame.
unfoldable pub is_idle : ReadTurn → Bool
is_idle t = not (read_fails t) && not (has_frames t.nframe)

read_turn-is_idle :
    (h : RecordHandle) (rates : Option (ℕ × ℕ)) (out_size : ℕ) (t : ReadTurn) (count : ℕ)
    → is_idle t ≡ true
    → read_turn h rates out_size t count ≡ no_frames count
unfolding read_turn is_idle
read_turn-is_idle h rates out_size t count idle = ground (arith, ℤ-cases t.nframe)

-- How many idle rounds a session goes on for, from a count.
abbrev pub patience : ℕ → ℕ
patience count = (500 + word - count) % word

-- What `rounds` idle rounds give, from a count.
abbrev pub after_idle : ℕ → ℕ → Recorded
after_idle count rounds =
    let gives_up = ltb (patience count) rounds in
    record { sent = []; ends = gives_up; count = if gives_up then 501 else (count + rounds) % word }

after_idle-suc :
    (count rounds : ℕ)
    → count < word
    → after_idle count (suc rounds) ≡ (
        if nat_beq count 500
        then record { sent = []; ends = true; count = 501 }
        else after_idle ((count + 1) % word) rounds)
after_idle-suc count rounds h = ground arith

-- A session whose rounds fail in nothing and give no frame sends nothing. From a count below 2^32, it
-- ends exactly if it has more rounds than the count needs to come to 500, where the count is an int and
-- wraps around; `count` is then 501. Otherwise it goes on, and `count` has grown by the number of its
-- rounds, modulo 2^32.
pub read_loop_idle :
    (h : RecordHandle) (rates : Option (ℕ × ℕ)) (out_size : ℕ) (ts : List ReadTurn) (count : ℕ)
    → count < word
    → All (λ t. is_idle t ≡ true) ts
    → read_loop h rates out_size ts count ≡ after_idle count (length ts)
unfolding read_loop no_frames
read_loop_idle h rates out_size [] count fits idle = ground arith
read_loop_idle h rates out_size (t ∷ ts) count fits idle = ground (
  arith,
  read_turn-is_idle h rates out_size t count idle.0,
  after_idle-suc count (length ts) fits,
  read_loop_idle h rates out_size ts ((count + 1) % word) (omega arith) idle.1,
)
