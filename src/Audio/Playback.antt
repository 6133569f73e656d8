-- ===== src/Audio/Playback.antt =====
-- PlaybackWorker (audio/playbackworker.cpp): the device, the loop that plays one session, and the loop
-- over the connections. The answers of ALSA and of the sockets are parameters.
pub mod Ending
pub mod Silence
pub mod Accounts
pub mod Life
use kylin_kmre_manager.Base.{
  ℕ, ◌+◌, ◌-◌, ◌*◌, ◌/◌, Bool, true, false, not, List, [], ◌∷◌, ◌++◌, replicate, Option, none, some,
  ◌>>=◌, ◌>>◌, holds, nat_beq, ltb, if◌then◌else◌,
}
use kylin_kmre_manager.Base.Int.{ℤ, negsuc, int_beq, pos, is_negative, to_uint64}
use kylin_kmre_manager.Audio.Pcm.{PcmCall, opens, closes, drops, prepares, resumes, writes}

-- playback_handle_t, without the device.
pub record PlaybackHandle : Type 0 where
  pub channels : ℕ
  pub sample_rate : ℕ
  pub sample_format : ℕ
  pub bits_per_sample : ℕ
  pub sample_bytes : ℕ

-- What `new playback_handle_t()` and the three assignments give; SND_PCM_FORMAT_S16_LE is 2.
abbrev pub default_handle : PlaybackHandle
default_handle = record {
  channels = 2;
  sample_rate = 48000;
  sample_format = 2;
  bits_per_sample = 0;
  sample_bytes = 0;
}

-- PLAYBACK_BUF_SIZE.
abbrev pub buffer_bytes : ℕ
buffer_bytes = 3840

-- The answers of ALSA to initPlayback: whether a call succeeds, and the value that it leaves.
pub record PlaybackPcm : Type 0 where
  pub can_open : Bool
  pub any_params : Bool
  pub set_access : Bool
  pub set_format : ℕ → Bool
  pub set_channels : ℕ → Bool
  pub set_rate_near : ℕ → Option ℕ
  pub physical_width : ℕ → ℕ
  pub set_buffer_size_near : ℕ → Option ℕ
  pub set_period_size_near : ℕ → Option ℕ
  pub hw_params : Bool
  pub set_avail_min : ℕ → Bool
  pub set_start_threshold : ℕ → Bool
  pub set_stop_threshold : ℕ → Bool
  pub sw_params : Bool

-- The body of the do-while of initPlayback. sample_bytes is not 0.
unfoldable pub configure_playback : PlaybackPcm → PlaybackHandle → Option PlaybackHandle
configure_playback k h = do
  holds k.any_params
  holds k.set_access
  holds (k.set_format h.sample_format)
  holds (k.set_channels h.channels)
  rate ← k.set_rate_near h.sample_rate
  let bits = k.physical_width h.sample_format
  buffer_size ← k.set_buffer_size_near buffer_bytes
  period_size ← k.set_period_size_near (buffer_size / (bits * h.channels / 8))
  holds k.hw_params
  holds (k.set_avail_min period_size)
  holds (k.set_start_threshold buffer_size)
  holds (k.set_stop_threshold buffer_size)
  holds k.sw_params
  some (record h {
    sample_rate = rate;
    bits_per_sample = bits;
    sample_bytes = bits * h.channels / 8;
  })

-- The worker: its handle, what was asked of the device, and how many accepted streams are not deleted.
pub record Player : Type 0 where
  pub handle : Option PlaybackHandle
  pub calls : List PcmCall
  pub streams : ℕ

-- initPlayback after snd_pcm_open.
abbrev pub end_init : Option PlaybackHandle → Player → Bool × Player
end_init none p = (false, record p { calls = p.calls ++ opens ∷ closes ∷ [] })
end_init (some h) p = (true, record p { handle = some h; calls = p.calls ++ opens ∷ [] })

abbrev pub init_with : PlaybackPcm → Option PlaybackHandle → Player → Bool × Player
init_with k none p = (false, p)
init_with k (some h) p = if k.can_open then end_init (configure_playback k h) p else (false, p)

unfoldable pub init_playback : PlaybackPcm → Player → Bool × Player
unfolding configure_playback
init_playback k p = init_with k p.handle p

abbrev pub destroy_with : Option PlaybackHandle → Player → Player
destroy_with none p = p
destroy_with (some h) p = record p { handle = none; calls = p.calls ++ drops ∷ closes ∷ [] }

unfoldable pub destroy_playback : Player → Player
destroy_playback p = destroy_with p.handle p

abbrev pub or_destroy : Bool × Player → Bool × Player
or_destroy (true, p) = (true, p)
or_destroy (false, p) = (false, destroy_playback p)

abbrev pub create_with : PlaybackPcm → Option PlaybackHandle → Player → Bool × Player
create_with k (some h) p = (true, p)
create_with k none p = or_destroy (init_playback k (record p { handle = some default_handle }))

unfoldable pub create_playback : PlaybackPcm → Player → Bool × Player
unfolding init_playback destroy_playback
create_playback k p = create_with k p.handle p

-- One round of the loop that plays: whether the read gives data, what snd_pcm_writei and
-- snd_pcm_prepare answer, how often snd_pcm_resume answers -EAGAIN, and what it answers then.
pub record Turn : Type 0 where
  pub reads : Bool
  pub written : ℤ
  pub can_prepare : Bool
  pub waits : ℕ
  pub resumed : ℤ

-- EPIPE is 32 and ESTRPIPE is 86; wc is unsigned, and so are the errors that it is compared with.
unfoldable pub wc_is : Turn → ℤ → Bool
wc_is t e = nat_beq (to_uint64 t.written) (to_uint64 e)

abbrev pub minus_epipe : ℤ
minus_epipe = negsuc 31

abbrev pub minus_estrpipe : ℤ
minus_estrpipe = negsuc 85

-- The calls of a round, and whether the loop goes on.
unfoldable pub play_turn : ℕ → Turn → List PcmCall × Bool
unfolding wc_is
play_turn frames t =
    if not t.reads
    then ([], false)
    else if wc_is t minus_epipe
    then (if t.can_prepare
        then (writes frames ∷ prepares ∷ writes frames ∷ [], true)
        else (writes frames ∷ prepares ∷ [], false))
    else if wc_is t minus_estrpipe
    then (if is_negative t.resumed
        then (writes frames ∷ (replicate (t.waits + 1) resumes ++ prepares ∷ []), t.can_prepare)
        else (writes frames ∷ replicate (t.waits + 1) resumes, true))
    else if ltb (to_uint64 t.written) 0
    then (writes frames ∷ [], false)
    else (writes frames ∷ [], true)

-- The loop over the rounds that there are: the calls, and whether it has ended.
unfoldable pub play : ℕ → List Turn → List PcmCall × Bool
play frames [] = ([], false)
play frames (t ∷ ts) =
    let rest = play frames ts in
    if (play_turn frames t).1
    then ((play_turn frames t).0 ++ rest.0, rest.1)
    else ((play_turn frames t).0, true)

-- A connection: whether accept gives a stream, the type that is read from it if it can be, mExit when it
-- is tested, ALSA's answers, and the rounds of the loop that plays.
pub record Connection : Type 0 where
  pub accepted : Bool
  pub kind : Option ℤ
  pub exits : Bool
  pub pcm : PlaybackPcm
  pub turns : List Turn

-- Where `start` is after the rounds that there are.
pub data Place : Type 0 where
  accepting playing left : Place

-- After the loop that plays.
abbrev pub after_play : Connection → List PcmCall × Bool → Player → Place × Player
after_play c (calls, false) p = (playing, record p { calls = p.calls ++ calls })
after_play c (calls, true) p =
    let q = record p { calls = p.calls ++ calls } in
    if c.exits
    then (left, q)
    else (accepting, destroy_playback (record q { streams = q.streams - 1 }))

abbrev pub play_with : Connection → Option PlaybackHandle → Player → Place × Player
play_with c none p = (accepting, p)
play_with c (some h) p = after_play c (play (buffer_bytes / h.sample_bytes) c.turns) p

abbrev pub play_if_created : Connection → Bool × Player → Place × Player
play_if_created c (false, p) = (accepting, p)
play_if_created c (true, p) = play_with c p.handle p

-- What is done with a stream, for the type that was read from it; PLAYBACK is 0.
abbrev pub serve_kind : Connection → Option ℤ → Player → Place × Player
serve_kind c none p =
    if c.exits then (left, p) else (accepting, record p { streams = p.streams - 1 })
serve_kind c (some type) p =
    if int_beq type (pos 0)
    then play_if_created c (create_playback c.pcm p)
    else (accepting, record p { streams = p.streams - 1 })

-- One round of the loop of `start`.
unfoldable pub serve : Connection → Player → Place × Player
unfolding play create_playback
serve c p =
    if c.accepted
    then serve_kind c c.kind (record p { streams = p.streams + 1 })
    else if c.exits
    then (left, p)
    else (accepting, p)
