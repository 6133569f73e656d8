-- ===== src/Audio/Recording/Retries.antt =====
-- The retries of RecordingWorker over two sessions (audio/recordingworker.cpp).
use kylin_kmre_manager.Base.{
  ℕ, ◌+◌, ◌-◌, ◌*◌, ◌≤◌, ◌<◌, ◌≡◌, refl, ap, ◌∙◌, true, [], ◌∷◌, ◌++◌, length, none, some, arith,
  All,
}
use kylin_kmre_manager.Base.Int.{pos, word}
use kylin_kmre_manager.Audio.Pcm.{opens}
use kylin_kmre_manager.Audio.Recording.{
  RecordHandle, new_handle, configure_recorder, Recorder, destroy_recorder,
}
use kylin_kmre_manager.Audio.Recording.Session.{
  Speex, set_up_speex, after_loop, known_rate, record_session, Connection, accepting, recording,
  serve,
}
use kylin_kmre_manager.Audio.Recording.Waiting.{is_idle, after_idle, read_loop_idle}
use kylin_kmre_manager.Audio.Recording.Between.{can_record, init_ready}

-- A connection on which a session starts.
pub record IsStarting (c : Connection) : Type 0 where
  pub accepts : c.accepted ≡ true
  pub for_recording : c.kind ≡ some (pos 1)
  pub client_rate : ℕ
  pub has_rate : c.rate ≡ some client_rate
  pub handle : RecordHandle
  pub device : can_record c.pcm ≡ true
  pub configured : configure_recorder c.pcm ≡ some handle

-- The session that starts.
serve_started :
    (c : Connection) (r : Recorder) (i : IsStarting c)
    → r.handle ≡ none
    → serve c r
      ≡ record_session c i.handle (record r {
        handle = some i.handle;
        client_rate = known_rate i.client_rate;
        out_size = i.handle.period_bytes * 2;
        calls = r.calls ++ opens ∷ [];
        streams = r.streams + 1;
      })
unfolding serve
serve_started c r i absent =
    let new = record r {
      handle = some new_handle;
      client_rate = known_rate i.client_rate;
      streams = r.streams + 1;
    } in
    rw
      (
        i.accepts,
        i.for_recording,
        i.has_rate,
        absent,
        init_ready c.pcm new i.handle i.device i.configured,
      )
      refl

count-set_up_speex :
    (k : Speex) (h : RecordHandle) (r : Recorder) → (set_up_speex k h r).count ≡ r.count
unfolding set_up_speex
count-set_up_speex k h r = ground arith

record_session_idle :
    (c : Connection) (h : RecordHandle) (r : Recorder)
    → r.count < word
    → All (λ t. is_idle t ≡ true) c.turns
    → record_session c h r
      ≡ after_loop (after_idle r.count (length c.turns)) (set_up_speex c.speex h r)
unfolding record_session
record_session_idle c h r fits idle =
    let s = set_up_speex c.speex h r in
    ap (λ d. after_loop d s)
      (read_loop_idle h s.resampler s.out_size c.turns s.count
          (omega (arith, fits, count-set_up_speex c.speex h r)) idle
        ∙ ap (λ n. after_idle n (length c.turns)) (count-set_up_speex c.speex h r))

serve_idle :
    (c : Connection) (r : Recorder)
    → IsStarting c
    → r.handle ≡ none
    → r.count < word
    → All (λ t. is_idle t ≡ true) c.turns
    → (s : Recorder) × (serve c r ≡ after_loop (after_idle r.count (length c.turns)) s)
serve_idle c r i absent fits idle =
    let q = record r {
      handle = some i.handle;
      client_rate = known_rate i.client_rate;
      out_size = i.handle.period_bytes * 2;
      calls = r.calls ++ opens ∷ [];
      streams = r.streams + 1;
    } in
    (
      set_up_speex c.speex i.handle q,
      serve_started c r i absent ∙ record_session_idle c i.handle q fits idle,
    )

-- An idle session that gives up, and one that does not.
gives_up :
    (rounds count : ℕ) (s : Recorder)
    → count ≤ 500
    → 500 - count < rounds
    → ((after_loop (after_idle count rounds) s).0 ≡ accepting)
      × ((after_loop (after_idle count rounds) s).1.handle ≡ none)
      × ((after_loop (after_idle count rounds) s).1.count ≡ 501)
unfolding destroy_recorder
gives_up rounds count s few enough = (ground arith, ground arith, ground arith)

goes_on :
    (rounds : ℕ) (s : Recorder)
    → rounds < word
    → (after_loop (after_idle 501 rounds) s).0 ≡ recording
goes_on rounds s short = ground arith

-- A microphone that gives nothing, in two sessions on which the device starts, one right after the other.
-- The first one, with a count of 500 at most when it starts and more than 500 - count rounds, gives up.
-- The second one does not, through any number of rounds below 2^32, with which the count would have
-- wrapped around to 500: `count` is not reset between them.
pub serve_retries :
    (first second : Connection) (r : Recorder)
    → IsStarting first
    → IsStarting second
    → r.handle ≡ none
    → r.count ≤ 500
    → All (λ t. is_idle t ≡ true) first.turns
    → All (λ t. is_idle t ≡ true) second.turns
    → 500 - r.count < length first.turns
    → length second.turns < word
    → ((serve first r).0 ≡ accepting) × ((serve second (serve first r).1).0 ≡ recording)
serve_retries first second r i j absent few idle idle2 enough short =
    let (s, e) = serve_idle first r i absent (omega (arith, few)) idle in
    let (back, gone, past) = gives_up (length first.turns) r.count s few enough in
    let after : Recorder = (serve first r).1 in
    let same : after ≡ (after_loop (after_idle r.count (length first.turns)) s).1 =
      ap (λ x. x.1) e in
    let count : after.count ≡ 501 = ap (λ (x : Recorder). x.count) same ∙ past in
    let (t, f) =
      serve_idle second after j (ap (λ (x : Recorder). x.handle) same ∙ gone) (omega (arith, count))
        idle2 in
    (
      ap (λ x. x.0) e ∙ back,
      ap (λ x. x.0) f
          ∙ ap (λ n. (after_loop (after_idle n (length second.turns)) t).0) count
          ∙ goes_on (length second.turns) t short,
    )
