-- ===== src/Audio/Playback/Silence.antt =====
-- Playing neither opens nor closes the device (audio/playbackworker.cpp).
use kylin_kmre_manager.Base.{
  ℕ, zero, suc, ◌+◌, ◌≡◌, refl, Bool, not, List, [], ◌∷◌, ◌++◌, replicate, ltb, arith, if_both,
}
use kylin_kmre_manager.Base.Int.{is_negative, to_uint64}
use kylin_kmre_manager.Audio.Pcm.{
  PcmCall, prepares, resumes, writes, opened, closed, opened-append, closed-append,
}
use kylin_kmre_manager.Audio.Playback.{Turn, wc_is, minus_epipe, minus_estrpipe, play_turn, play}

-- Calls that neither open nor close the device.
pub record IsSilent (l : List PcmCall) : Type 0 where
  pub no_open : opened l ≡ 0
  pub no_close : closed l ≡ 0

IsSilent-append : (k l : List PcmCall) → IsSilent k → IsSilent l → IsSilent (k ++ l)
IsSilent-append k l a b = record {
  no_open = omega (arith, opened-append k l, a.no_open, b.no_open);
  no_close = omega (arith, closed-append k l, a.no_close, b.no_close);
}

IsSilent-resumes : (n : ℕ) → IsSilent (replicate n resumes)
unfolding opened closed
IsSilent-resumes zero = record { no_open = refl; no_close = refl }
IsSilent-resumes (suc n) =
    let s = IsSilent-resumes n in record { no_open = s.no_open; no_close = s.no_close }

play_turn-IsSilent : (frames : ℕ) (t : Turn) → IsSilent (play_turn frames t).0
unfolding play_turn opened closed
play_turn-IsSilent frames t =
    let Q : List PcmCall × Bool → Type 0 = λ r. IsSilent r.0 in
    let plain : IsSilent [] = record { no_open = refl; no_close = refl } in
    let written : IsSilent (writes frames ∷ []) = record { no_open = refl; no_close = refl } in
    let prepared : IsSilent (prepares ∷ []) = record { no_open = refl; no_close = refl } in
    let again : IsSilent (prepares ∷ writes frames ∷ []) = record {
      no_open = refl;
      no_close = refl;
    } in
    let resumed = IsSilent-resumes (t.waits + 1) in
    if_both Q (not t.reads) plain (
      if_both Q (wc_is t minus_epipe)
        (if_both Q t.can_prepare
          (IsSilent-append (writes frames ∷ []) (prepares ∷ writes frames ∷ []) written again)
          (IsSilent-append (writes frames ∷ []) (prepares ∷ []) written prepared))
        (if_both Q (wc_is t minus_estrpipe)
          (if_both Q (is_negative t.resumed)
            (IsSilent-append (writes frames ∷ []) (replicate (t.waits + 1) resumes ++ prepares ∷ [])
              written
              (IsSilent-append (replicate (t.waits + 1) resumes) (prepares ∷ []) resumed prepared))
            (IsSilent-append (writes frames ∷ []) (replicate (t.waits + 1) resumes) written
              resumed))
          (if_both Q (ltb (to_uint64 t.written) 0) written written)))

pub play-IsSilent : (frames : ℕ) (ts : List Turn) → IsSilent (play frames ts).0
unfolding play
play-IsSilent frames [] = unfold opened closed in (record { no_open = refl; no_close = refl })
play-IsSilent frames (t ∷ ts) =
    let now = play_turn frames t in
    let rest = play frames ts in
    if_both (λ (r : List PcmCall × Bool). IsSilent r.0) now.1
      (IsSilent-append now.0 rest.0 (play_turn-IsSilent frames t) (play-IsSilent frames ts))
      (play_turn-IsSilent frames t)
