-- ===== src/Audio/Recording/Session.antt =====
-- RecordingWorker (audio/recordingworker.cpp): the loop that records one session, and the loop over the
-- connections. The answers of ALSA, of speex and of the sockets are parameters.
use kylin_kmre_manager.Base.{
  ℕ, zero, suc, ◌+◌, ◌-◌, ◌*◌, ◌/◌, ◌%◌, Bool, true, false, not, ◌&&◌, ◌||◌, List, [], ◌∷◌, ◌++◌,
  Option, none, some, nat_beq, if◌then◌else◌,
}
use kylin_kmre_manager.Base.Int.{ℤ, pos, negsuc, int_beq, is_negative, word}
use kylin_kmre_manager.Audio.Recording.{
  RecordHandle, new_handle, RecordPcm, Recorder, init_recorder, destroy_recorder,
}

-- Whether speex_preprocess_state_init gives a state; whether speex_resampler_init, from one rate to
-- another, gives a state, and whether it reports success.
pub record Speex : Type 0 where
  pub has_preprocesser : Bool
  pub init_resampler : ℕ → ℕ → Bool × Bool

abbrev pub created : ℕ → ℕ → Bool × Bool → Option (ℕ × ℕ)
created from to (true, true) = some (from, to)
created from to (true, false) = none
created from to (false, success) = none

-- A resampler that is kept if its rates are those.
abbrev pub if_fits : ℕ → ℕ → Option (ℕ × ℕ) → Option (ℕ × ℕ)
if_fits from to none = none
if_fits from to (some (i, o)) =
    if not (nat_beq i from) || not (nat_beq o to) then none else some (i, o)

abbrev pub or_created : Speex → ℕ → ℕ → Option (ℕ × ℕ) → Option (ℕ × ℕ)
or_created k from to (some rates) = some rates
or_created k from to none =
    if nat_beq from to then none else created from to (k.init_resampler from to)

-- The resampler and the preprocesser for a session.
unfoldable pub set_up_speex : Speex → RecordHandle → Recorder → Recorder
set_up_speex k h r = if nat_beq r.client_rate 0 then record r { resampler = none } else record r {
  preprocesser = r.preprocesser || k.has_preprocesser;
  resampler =
      or_created k h.sample_rate r.client_rate (if_fits h.sample_rate r.client_rate r.resampler);
}

-- One round of the loop that records: what snd_pcm_readi, snd_pcm_prepare and snd_pcm_start answer, the
-- frames that the resampler gives for so many frames and so much room, and whether writeFully succeeds.
pub record ReadTurn : Type 0 where
  pub nframe : ℤ
  pub can_prepare : Bool
  pub can_start : Bool
  pub resampled : ℕ → ℕ → Option ℕ
  pub sends : Bool

-- The breaks before the test of `nframe > 0`; EAGAIN is 11 and EPIPE is 32.
unfoldable pub read_fails : ReadTurn → Bool
read_fails t =
    if int_beq t.nframe (negsuc 10)
    then false
    else if int_beq t.nframe (negsuc 31)
    then not t.can_prepare || not t.can_start
    else is_negative t.nframe

-- What a round gives: the size of a write, whether the loop ends, and `count`.
pub record Turned : Type 0 where
  pub sent : Option ℕ
  pub ends : Bool
  pub count : ℕ

-- READ_TRY_TIMES.
abbrev pub read_try_times : ℕ
read_try_times = 500

unfoldable pub no_frames : ℕ → Turned
no_frames count = record {
  sent = none;
  ends = nat_beq count read_try_times;
  count = (count + 1) % word;
}

unfoldable pub send_bytes : ReadTurn → ℕ → ℕ → Turned
send_bytes t bytes count =
    if t.sends
    then record { sent = some bytes; ends = false; count = 0 }
    else record { sent = some bytes; ends = true; count = count }

abbrev pub send_resampled : RecordHandle → ReadTurn → Option ℕ → ℕ → Turned
send_resampled h t none count = record { sent = none; ends = false; count = 0 }
send_resampled h t (some out) count = send_bytes t (out * h.sample_bytes) count

-- Frames that were read.
abbrev pub send_frames : RecordHandle → Option (ℕ × ℕ) → ℕ → ReadTurn → ℕ → ℕ → Turned
send_frames h none out_size t n count = send_bytes t (n * h.sample_bytes) count
send_frames h (some rates) out_size t n count =
    send_resampled h t (t.resampled n (out_size / h.sample_bytes)) count

abbrev pub after_read : RecordHandle → Option (ℕ × ℕ) → ℕ → ReadTurn → ℤ → ℕ → Turned
after_read h rates out_size t (pos zero) count = no_frames count
after_read h rates out_size t (pos (suc n)) count = send_frames h rates out_size t (suc n) count
after_read h rates out_size t (negsuc n) count = no_frames count

unfoldable pub read_turn : RecordHandle → Option (ℕ × ℕ) → ℕ → ReadTurn → ℕ → Turned
unfolding read_fails no_frames send_bytes
read_turn h rates out_size t count =
    if read_fails t
    then record { sent = none; ends = true; count = count }
    else after_read h rates out_size t t.nframe count

-- The loop over the rounds that there are.
pub record Recorded : Type 0 where
  pub sent : List ℕ
  pub ends : Bool
  pub count : ℕ

abbrev pub listed : Option ℕ → List ℕ
listed none = []
listed (some n) = n ∷ []

unfoldable pub read_loop : RecordHandle → Option (ℕ × ℕ) → ℕ → List ReadTurn → ℕ → Recorded
unfolding read_turn
read_loop h rates out_size [] count = record { sent = []; ends = false; count = count }
read_loop h rates out_size (t ∷ ts) count =
    let now = read_turn h rates out_size t count in
    let rest = read_loop h rates out_size ts now.count in
    if now.ends
    then record { sent = listed now.sent; ends = true; count = now.count }
    else record rest { sent = listed now.sent ++ rest.sent }

-- A connection: whether accept gives a stream, the type and the sample rate that are read from it if they
-- can be, the answers, and the rounds of the loop that records.
pub record Connection : Type 0 where
  pub accepted : Bool
  pub kind : Option ℤ
  pub rate : Option ℕ
  pub pcm : RecordPcm
  pub speex : Speex
  pub turns : List ReadTurn

-- Where `start` is after the rounds that there are.
pub data Place : Type 0 where
  accepting recording : Place

abbrev pub known_rate : ℕ → ℕ
known_rate n =
    if not (nat_beq n 8000) && (not (nat_beq n 16000) && not (nat_beq n 48000)) then 0 else n

abbrev pub after_loop : Recorded → Recorder → Place × Recorder
after_loop d r =
    let s = record r { sent = r.sent ++ d.sent; count = d.count } in
    if d.ends
    then (accepting, destroy_recorder (record s { streams = r.streams - 1 }))
    else (recording, s)

-- A session on a handle.
unfoldable pub record_session : Connection → RecordHandle → Recorder → Place × Recorder
unfolding set_up_speex read_loop destroy_recorder
record_session c h r =
    let s = set_up_speex c.speex h r in
    after_loop (read_loop h s.resampler s.out_size c.turns s.count) s

abbrev pub record_new : Connection → Option RecordHandle → Recorder → Place × Recorder
record_new c none r = (accepting, r)
record_new c (some h) r = record_session c h (record r { out_size = h.period_bytes * 2 })

abbrev pub record_if_created : Connection → Bool × Recorder → Place × Recorder
record_if_created c (false, r) = (accepting, destroy_recorder r)
record_if_created c (true, r) = record_new c r.handle r

abbrev pub on_handle : Connection → Option RecordHandle → Recorder → Place × Recorder
on_handle c none r =
    record_if_created c (init_recorder c.pcm (record r { handle = some new_handle }))
on_handle c (some h) r = record_session c h r

abbrev pub dropped : Recorder → Place × Recorder
dropped r = (accepting, record r { streams = r.streams - 1 })

-- What is done with a stream, for the rate and the type that were read from it; RECORDING is 1.
abbrev pub serve_rate : Connection → Option ℕ → Recorder → Place × Recorder
serve_rate c none r = dropped r
serve_rate c (some n) r = on_handle c r.handle (record r { client_rate = known_rate n })

abbrev pub serve_kind : Connection → Option ℤ → Recorder → Place × Recorder
serve_kind c none r = dropped r
serve_kind c (some type) r = if int_beq type (pos 1) then serve_rate c c.rate r else dropped r

-- One round of the loop of `start`.
unfoldable pub serve : Connection → Recorder → Place × Recorder
unfolding record_session init_recorder
serve c r =
    if c.accepted
    then serve_kind c c.kind (record r { streams = r.streams + 1 })
    else (accepting, r)
