-- ===== src/Audio/Recording/Between.antt =====
-- What a connection to RecordingWorker leaves behind (audio/recordingworker.cpp).
use kylin_kmre_manager.Base.{
  ℕ, suc, ◌+◌, ◌*◌, ◌≡◌, refl, inl, inr, Bool, true, false, not, ◌&&◌, [], ◌∷◌, ◌++◌, Option, none,
  some, if◌then◌else◌, arith, Bool-cases, Option-cases,
}
use kylin_kmre_manager.Base.Int.{ℤ, int_beq, pos}
use kylin_kmre_manager.Audio.Pcm.{opens, closes, opened, closed, opened-append, closed-append}
use kylin_kmre_manager.Audio.Recording.{
  RecordHandle, new_handle, RecordPcm, configure_recorder, Recorder, init_recorder,
  destroy_recorder,
}
use kylin_kmre_manager.Audio.Recording.Session.{
  Speex, set_up_speex, read_loop, Recorded, after_loop, Connection, accepting, record_session,
  record_if_created, known_rate, on_handle, dropped, serve_rate, serve_kind, serve,
}

abbrev pub has {ℓ} : {A : Type ℓ} → Option A → Bool
has none = false
has (some a) = true

abbrev pub is_recording : Option ℤ → Bool
is_recording none = false
is_recording (some type) = int_beq type (pos 1)

-- The device can be opened and configured.
unfoldable pub can_record : RecordPcm → Bool
can_record k = k.allocates_params && (k.can_open && has (configure_recorder k))

-- A connection for recording on which the device cannot be started.
unfoldable pub fails_to_start : Connection → Bool
unfolding can_record
fails_to_start c = c.accepted && (is_recording c.kind && (has c.rate && not (can_record c.pcm)))

-- There is no device and no preprocesser; `n` closes too many were asked for, and `n` streams were not
-- deleted.
pub record IsBetween (n : ℕ) (r : Recorder) : Type 0 where
  pub no_handle : r.handle ≡ none
  pub no_preprocesser : r.preprocesser ≡ false
  pub device : closed r.calls ≡ opened r.calls + n
  pub leaked : r.streams ≡ n

-- The end of a session.
ended :
    (n : ℕ) (d : Recorded) (h : RecordHandle) (s : Recorder)
    → s.handle ≡ some h
    → closed s.calls + 1 ≡ opened s.calls + n
    → s.streams ≡ suc n
    → (after_loop d s).0 ≡ accepting
    → IsBetween n (after_loop d s).1
unfolding destroy_recorder opened closed
ended n d h s e device streams back =
    let on_close = closed-append s.calls (closes ∷ []) in
    let on_open = opened-append s.calls (closes ∷ []) in
    record {
      no_handle = ground arith;
      no_preprocesser = ground arith;
      device = ground (arith, on_close, on_open);
      leaked = ground arith;
    }

-- Speex leaves the rest of the worker as it is.
record Same (r s : Recorder) : Type 0 where
  handles : s.handle ≡ r.handle
  called : s.calls ≡ r.calls
  streamed : s.streams ≡ r.streams

set_up_speex-Same : (k : Speex) (h : RecordHandle) (r : Recorder) → Same r (set_up_speex k h r)
unfolding set_up_speex
set_up_speex-Same k h r = record {
  handles = ground arith;
  called = ground arith;
  streamed = ground arith;
}

recorded :
    (n : ℕ) (c : Connection) (h : RecordHandle) (r : Recorder)
    → r.handle ≡ some h
    → closed r.calls + 1 ≡ opened r.calls + n
    → r.streams ≡ suc n
    → (record_session c h r).0 ≡ accepting
    → IsBetween n (record_session c h r).1
unfolding record_session
recorded n c h r e device streams back =
    let s = set_up_speex c.speex h r in
    let same = set_up_speex-Same c.speex h r in
    ended n (read_loop h s.resampler s.out_size c.turns s.count) h s (rw (same.handles) e)
      (rw (same.called) device) (rw (same.streamed) streams) back

-- initRecoder's results, for a new handle.
pub init_ready :
    (k : RecordPcm) (r : Recorder) (h : RecordHandle)
    → can_record k ≡ true
    → configure_recorder k ≡ some h
    → init_recorder k r ≡ (true, record r { handle = some h; calls = r.calls ++ opens ∷ [] })
unfolding init_recorder can_record
init_ready k r h can e = ground (arith, can, e)

destroyed :
    (n : ℕ) (q : Recorder) (h : RecordHandle)
    → q.handle ≡ some h
    → closed q.calls ≡ opened q.calls + n
    → q.streams ≡ suc n
    → IsBetween (suc n) (destroy_recorder q)
unfolding destroy_recorder opened closed
destroyed n q h e device streams =
    let on_close = closed-append q.calls (closes ∷ []) in
    let on_open = opened-append q.calls (closes ∷ []) in
    record {
      no_handle = ground (arith, e);
      no_preprocesser = ground (arith, e);
      device = ground (arith, e, on_close, on_open);
      leaked = ground (arith, e);
    }

unrecorded :
    (n : ℕ) (c : Connection) (r : Recorder) (h : RecordHandle)
    → can_record c.pcm ≡ false
    → r.handle ≡ some h
    → closed r.calls ≡ opened r.calls + n
    → r.streams ≡ suc n
    → IsBetween (suc n) (record_if_created c (init_recorder c.pcm r)).1
unfolding init_recorder can_record opened closed
unrecorded n c r h broken e device streams = elim (Bool-cases c.pcm.allocates_params) [
  | inr small ↦ rw small (destroyed n r h e device streams)
  | inl enough ↦ elim (Bool-cases c.pcm.can_open) [
    | inr shut ↦
        rw (enough, shut) (destroyed n (record r { params = r.params + 1 }) h e device streams)
    | inl can ↦
        let conf : configure_recorder c.pcm ≡ none =
          ground (arith, broken, enough, can, Option-cases (configure_recorder c.pcm)) in
        let l = opens ∷ closes ∷ [] in
        rw (enough, can, conf)
          (destroyed n (record r { calls = r.calls ++ l }) h e
            (ground (arith, device, opened-append r.calls l, closed-append r.calls l)) streams)
  ]
]

-- A stream for recording, at a rate.
rated :
    (n : ℕ) (c : Connection) (r : Recorder)
    → r.handle ≡ none
    → closed r.calls ≡ opened r.calls + n
    → r.streams ≡ suc n
    → (on_handle c none r).0 ≡ accepting
    → IsBetween (if not (can_record c.pcm) then suc n else n) (on_handle c none r).1
unfolding opened closed
rated n c r absent device streams back =
    let new = record r { handle = some new_handle } in
    elim (Bool-cases (can_record c.pcm)) [
      | inr broken ↦ rw broken (unrecorded n c new new_handle broken refl device streams)
      | inl can ↦ elim (Option-cases (configure_recorder c.pcm)) [
        | inl missing ↦ absurd (unfold can_record in ground (arith, can, missing))
        | inr (h, conf) ↦
            let l = opens ∷ [] in
            let size = h.period_bytes * 2 in
            let ready = init_ready c.pcm new h can conf in
            let q = record r { handle = some h; calls = r.calls ++ l; out_size = size } in
            rw (can, ready)
              (recorded n c h q refl
                (ground (arith, device, opened-append r.calls l, closed-append r.calls l)) streams
                (rw ready at back))
      ]
    ]

dropped_stream :
    (n : ℕ) (r : Recorder)
    → IsBetween n r
    → IsBetween n (dropped (record r { streams = r.streams + 1 })).1
dropped_stream n r b = record {
  no_handle = b.no_handle;
  no_preprocesser = b.no_preprocesser;
  device = b.device;
  leaked = ground (arith, b.leaked);
}

served_rate :
    (n : ℕ) (c : Connection) (rate : Option ℕ) (r : Recorder)
    → IsBetween n r
    → (serve_rate c rate (record r { streams = r.streams + 1 })).0 ≡ accepting
    → IsBetween
        (if has rate && not (can_record c.pcm) then suc n else n)
        (serve_rate c rate (record r { streams = r.streams + 1 })).1
served_rate n c none r b back = dropped_stream n r b
served_rate n c (some rate) r b back =
    let q = record r { client_rate = known_rate rate; streams = r.streams + 1 } in
    rw (b.no_handle)
      (rated n c q b.no_handle b.device (omega (arith, b.leaked)) (rw (b.no_handle) at back))

served_kind :
    (n : ℕ) (c : Connection) (kind : Option ℤ) (r : Recorder)
    → IsBetween n r
    → (serve_kind c kind (record r { streams = r.streams + 1 })).0 ≡ accepting
    → IsBetween
        (if is_recording kind && (has c.rate && not (can_record c.pcm)) then suc n else n)
        (serve_kind c kind (record r { streams = r.streams + 1 })).1
served_kind n c none r b back = dropped_stream n r b
served_kind n c (some type) r b back = elim (Bool-cases (int_beq type (pos 1))) [
  | inl recorder_type ↦ rw recorder_type (served_rate n c c.rate r b (rw recorder_type at back))
  | inr other_type ↦ rw other_type (dropped_stream n r b)
]

-- If there is no device between two connections, each close but `n` closed an open device, and `n`
-- accepted streams are not deleted, then this is so again after a connection that the worker returns from
-- to accept the next one: with the same `n`, or, if it was for recording and the device could not be
-- started, with one more.
pub serve-IsBetween :
    (n : ℕ) (c : Connection) (r : Recorder)
    → IsBetween n r
    → (serve c r).0 ≡ accepting
    → IsBetween (if fails_to_start c then suc n else n) (serve c r).1
unfolding serve fails_to_start
serve-IsBetween n c r b back = elim (Bool-cases c.accepted) [
  | inl one ↦ rw one (served_kind n c c.kind r b (rw one at back))
  | inr nothing ↦ rw nothing b
]
