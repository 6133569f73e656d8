-- ===== src/Audio/Playback/Ending.antt =====
-- When a session of PlaybackWorker ends (audio/playbackworker.cpp).
use kylin_kmre_manager.Base.{ℕ, ◌≡◌, refl, Bool, not, ◌&&◌, ◌||◌, List, [], ◌∷◌, any, arith, All}
use kylin_kmre_manager.Base.Int.{int_beq, is_negative, IsInt64, nat_beq-to_uint64}
use kylin_kmre_manager.Audio.Playback.{Turn, wc_is, minus_epipe, minus_estrpipe, play_turn, play}

-- An underrun that cannot be recovered from, and a suspended device that neither resumes nor can be
-- prepared.
abbrev pub is_lost : Turn → Bool
is_lost t =
    not t.can_prepare
    && (int_beq t.written minus_epipe
        || (int_beq t.written minus_estrpipe && is_negative t.resumed))

abbrev pub is_last : Turn → Bool
is_last t = not t.reads || is_lost t

play_turn-is_last :
    (frames : ℕ) (t : Turn) → IsInt64 t.written → (play_turn frames t).1 ≡ not (is_last t)
unfolding play_turn wc_is IsInt64
play_turn-is_last frames t h =
    ground
      (arith, nat_beq-to_uint64 t.written minus_epipe, nat_beq-to_uint64 t.written minus_estrpipe)

-- A session ends exactly if in one of its rounds the client's data cannot be read, or the device is lost:
-- by an underrun after which it cannot be prepared, or by a suspension that it neither resumes from nor
-- can be prepared after. No other error of a write ends it, though the code tests for one. The results of
-- the writes are 64-bit numbers.
pub play_ends :
    (frames : ℕ) (ts : List Turn)
    → All (λ (t : Turn). IsInt64 t.written) ts
    → (play frames ts).1 ≡ any is_last ts
unfolding play
play_ends frames [] h = refl
play_ends frames (t ∷ ts) h =
    ground (arith, play_turn-is_last frames t h.0, play_ends frames ts h.1)
