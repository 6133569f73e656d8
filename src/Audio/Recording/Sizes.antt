-- ===== src/Audio/Recording/Sizes.antt =====
-- The formats, the resampler and the buffers of RecordingWorker (audio/recordingworker.cpp).
use kylin_kmre_manager.Base.{
  ℕ, ◌≤◌, ◌≡◌, ◌⊎◌, inl, inr, Bool, true, false, List, Option, none, some, nat_beq, if◌then◌else◌,
  arith, All,
}
use kylin_kmre_manager.Base.Int.{pos, ℤ-cases, is_negative}
use kylin_kmre_manager.Audio.Recording.{
  RecordHandle, RecordPcm, s16_le, first_supported, choose_format, Recorder,
}
use kylin_kmre_manager.Audio.Recording.Session.{
  Speex, created, if_fits, or_created, set_up_speex, ReadTurn,
}

-- The format of a session is 16 bits, little endian, exactly if ALSA's test of it does not fail, and no
-- other: 8 bits are never chosen, though they are in the list of what to fall back on.
choose_format_lem :
    (k : RecordPcm)
    → choose_format k ≡ (if is_negative (k.test_format s16_le) then none else some s16_le)
unfolding choose_format first_supported
choose_format_lem k = ground (arith, ℤ-cases (k.test_format s16_le))

created_lem :
    (from to i o : ℕ) (same : Bool) (made : Bool × Bool)
    → (if same then none else created from to made) ≡ some (i, o)
    → (i ≡ from) × (o ≡ to)
created_lem from to i o same (true, true) e = ground arith
created_lem from to i o same (true, false) e = ground arith
created_lem from to i o same (false, success) e = ground arith

if_fits_lem :
    (from to i o : ℕ) (kept : Option (ℕ × ℕ))
    → if_fits from to kept ≡ some (i, o)
    → (i ≡ from) × (o ≡ to)
if_fits_lem from to i o none e = ground arith
if_fits_lem from to i o (some (i', o')) e = ground arith

or_created_lem :
    (k : Speex) (from to i o : ℕ) (kept : Option (ℕ × ℕ))
    → or_created k from to kept ≡ some (i, o)
    → (kept ≡ some (i, o)) ⊎ ((i ≡ from) × (o ≡ to))
or_created_lem k from to i o (some rates) e = inl e
or_created_lem k from to i o none e =
    inr (created_lem from to i o (nat_beq from to) (k.init_resampler from to) e)

-- Whatever rates the resampler had before: if a session has a resampler, it converts from the rate of the
-- device to that of the client, and that of the client is known.
pub set_up_speex_lem :
    (k : Speex) (h : RecordHandle) (r : Recorder) (i o : ℕ)
    → (set_up_speex k h r).resampler ≡ some (i, o)
    → (i ≡ h.sample_rate) × (o ≡ r.client_rate) × (nat_beq r.client_rate 0 ≡ false)
unfolding set_up_speex
set_up_speex_lem k h r i o e = ground (
  arith,
  or_created_lem k h.sample_rate r.client_rate i o
      (if_fits h.sample_rate r.client_rate r.resampler),
  if_fits_lem h.sample_rate r.client_rate i o r.resampler,
)

-- ALSA gives no more frames than were asked for, and speex no more than there is room for.
pub record IsWithin (h : RecordHandle) (t : ReadTurn) : Type 0 where
  pub reads : (n : ℕ) → t.nframe ≡ pos n → n ≤ h.period_size
  pub fits : (n room out : ℕ) → t.resampled n room ≡ some out → out ≤ room

-- The bytes of the buffer that a session sends from.
unfoldable pub room : RecordHandle → Option (ℕ × ℕ) → ℕ → ℕ
room h none out_size = h.period_bytes
room h (some rates) out_size = out_size

-- A session that keeps its writes within a buffer, from whatever is in the handle.
abbrev IsBounded : ℕ → List ℕ → Type 0
IsBounded top l = All (λ n. n ≤ top) l
