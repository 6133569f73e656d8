-- ===== src/Audio/Recording.antt =====
-- RecordingWorker (audio/recordingworker.cpp): the device and its configuration. The answers of ALSA are
-- parameters.
pub mod Session
pub mod Waiting
pub mod Sizes
pub mod Between
pub mod Life
pub mod Retries
use kylin_kmre_manager.Base.{
  ℕ, ◌+◌, ◌*◌, ◌/◌, ◌%◌, Bool, true, false, not, List, [], ◌∷◌, ◌++◌, Option, none, some, ◌>>=◌,
  ◌>>◌, holds, nat_beq, if◌then◌else◌,
}
use kylin_kmre_manager.Base.Int.{ℤ, pos, int_beq, is_negative}
use kylin_kmre_manager.Audio.Pcm.{PcmCall, opens, closes}

-- record_handle_t, without the device.
pub record RecordHandle : Type 0 where
  pub channels : ℕ
  pub sample_rate : ℕ
  pub sample_format : ℕ
  pub bits_per_sample : ℕ
  pub sample_bytes : ℕ
  pub period_bytes : ℕ
  pub period_size : ℕ
  pub buffer_size : ℕ

-- RECORDING_BUF_SIZE, and what initRecoder sets first.
abbrev pub new_handle : RecordHandle
new_handle = record {
  channels = 0;
  sample_rate = 0;
  sample_format = 0;
  bits_per_sample = 0;
  sample_bytes = 0;
  period_bytes = 0;
  period_size = 1920;
  buffer_size = 1920 * 8;
}

-- The answers of ALSA to initRecoder: whether a call succeeds, and the value that it leaves.
pub record RecordPcm : Type 0 where
  pub allocates_params : Bool
  pub can_open : Bool
  pub any_params : Bool
  pub set_access : Bool
  pub test_format : ℕ → ℤ
  pub set_format : ℕ → Bool
  pub set_channels : ℕ → Bool
  pub set_rate_near : ℕ → Option ℕ
  pub set_period_size_near : ℕ → Option ℕ
  pub set_buffer_size_near : ℕ → Option ℕ
  pub hw_params : Bool
  pub physical_width : ℕ → ℕ
  pub can_start : Bool

-- SND_PCM_FORMAT_S16_LE and SND_PCM_FORMAT_S8; the first is mClientSampleFormat.
abbrev pub s16_le : ℕ
s16_le = 2

abbrev pub s8 : ℕ
s8 = 0

-- SampleFormats.
abbrev pub sample_formats : List ℕ
sample_formats = s16_le ∷ s8 ∷ []

-- The loop over SampleFormats: the format that is left, 0 if none was set.
unfoldable pub first_supported : RecordPcm → List ℕ → ℕ
first_supported k [] = 0
first_supported k (f ∷ fs) = if int_beq (k.test_format f) (pos 0) then f else first_supported k fs

unfoldable pub choose_format : RecordPcm → Option ℕ
unfolding first_supported
choose_format k =
    if is_negative (k.test_format s16_le)
    then (if nat_beq (first_supported k sample_formats) 0
        then none
        else some (first_supported k sample_formats))
    else some s16_le

-- What is set from the width of a sample and the sizes that ALSA takes; the sizes are 32-bit fields.
unfoldable pub sized : RecordPcm → ℕ → ℕ → ℕ → ℕ → RecordHandle
sized k format rate period_size buffer_size =
    let bits = k.physical_width format in
    record {
      channels = 1;
      sample_rate = rate;
      sample_format = format;
      bits_per_sample = bits;
      sample_bytes = bits / 8 * 1;
      period_bytes = period_size % 4294967296 * (bits / 8 * 1);
      period_size = period_size % 4294967296;
      buffer_size = buffer_size % 4294967296;
    }

-- The body of the do-while of initRecoder.
unfoldable pub configure_recorder : RecordPcm → Option RecordHandle
unfolding choose_format sized
configure_recorder k = do
  holds k.any_params
  holds k.set_access
  format ← choose_format k
  holds (k.set_format format)
  holds (k.set_channels 1)
  rate ← k.set_rate_near 48000
  period_size ← k.set_period_size_near new_handle.period_size
  buffer_size ← k.set_buffer_size_near new_handle.buffer_size
  holds k.hw_params
  holds k.can_start
  some (sized k format rate period_size buffer_size)

-- The worker: mRecoder, mSpeexResampler with its two rates, mSpeexPreprocesser, mClientSampleRate; the
-- local variables of start that outlive a session, `count` and the size of speexOutBuffer; the sizes of
-- the writes to the streams; what was asked of the device, the hardware parameters that are allocated, and
-- the accepted streams that are not deleted. mReadBuffer has period_bytes bytes while there is a handle.
-- `count` is an int, taken as its 32 bits.
pub record Recorder : Type 0 where
  pub handle : Option RecordHandle
  pub resampler : Option (ℕ × ℕ)
  pub preprocesser : Bool
  pub client_rate : ℕ
  pub count : ℕ
  pub out_size : ℕ
  pub sent : List ℕ
  pub calls : List PcmCall
  pub params : ℕ
  pub streams : ℕ

-- initRecoder after snd_pcm_open.
abbrev pub end_init : Option RecordHandle → Recorder → Bool × Recorder
end_init none r = (false, record r { calls = r.calls ++ opens ∷ closes ∷ [] })
end_init (some h) r = (true, record r { handle = some h; calls = r.calls ++ opens ∷ [] })

-- initRecoder, for a new handle.
unfoldable pub init_recorder : RecordPcm → Recorder → Bool × Recorder
unfolding configure_recorder
init_recorder k r =
    if not k.allocates_params
    then (false, r)
    else if not k.can_open
    then (false, record r { params = r.params + 1 })
    else end_init (configure_recorder k) r

abbrev pub destroy_with : Option RecordHandle → Recorder → Recorder
destroy_with none r = record r { preprocesser = false }
destroy_with (some h) r = record r {
  handle = none;
  preprocesser = false;
  calls = r.calls ++ closes ∷ [];
}

unfoldable pub destroy_recorder : Recorder → Recorder
destroy_recorder r = destroy_with r.handle r
