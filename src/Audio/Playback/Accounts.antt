-- ===== src/Audio/Playback/Accounts.antt =====
-- What a connection to PlaybackWorker leaves behind (audio/playbackworker.cpp).
use kylin_kmre_manager.Base.{
  ℕ, suc, ◌+◌, ◌/◌, ◌≡◌, refl, subst, inl, inr, Bool, true, false, not, ◌&&◌, [], ◌∷◌, ◌++◌, Option,
  none, some, if◌then◌else◌, arith, Bool-cases, Option-cases,
}
use kylin_kmre_manager.Base.Int.{ℤ, int_beq, pos}
use kylin_kmre_manager.Audio.Pcm.{
  opens, closes, drops, opened, closed, opened-append, closed-append,
}
use kylin_kmre_manager.Audio.Playback.Silence.{play-IsSilent}
use kylin_kmre_manager.Audio.Playback.{
  PlaybackHandle, default_handle, PlaybackPcm, configure_playback, Player, init_playback,
  destroy_playback, create_playback, play, buffer_bytes, Connection, play_with, play_if_created,
  serve_kind, accepting, serve,
}

abbrev pub has {ℓ} : {A : Type ℓ} → Option A → Bool
has none = false
has (some a) = true

-- The type PLAYBACK.
abbrev pub is_playback : Option ℤ → Bool
is_playback none = false
is_playback (some type) = int_beq type (pos 0)

-- The device can be opened and configured.
unfoldable pub can_start : PlaybackPcm → Bool
can_start k = k.can_open && has (configure_playback k default_handle)

-- A connection that has to start the device, and fails.
unfoldable pub fails_to_start : Connection → Player → Bool
unfolding can_start
fails_to_start c p =
    c.accepted && (is_playback c.kind && (not (has p.handle) && not (can_start c.pcm)))

-- An open device is closed when it is destroyed; beyond that, `n` closes too many were asked for, and `n`
-- streams were not deleted.
pub record IsAccounted (n : ℕ) (p : Player) : Type 0 where
  pub device : closed p.calls + (if has p.handle then 1 else 0) ≡ opened p.calls + n
  pub leaked : p.streams ≡ n

-- create_playback without a handle.
pub create_ready :
    (k : PlaybackPcm) (p : Player) (h : PlaybackHandle)
    → p.handle ≡ none
    → k.can_open ≡ true
    → configure_playback k default_handle ≡ some h
    → create_playback k p ≡ (true, record p { handle = some h; calls = p.calls ++ opens ∷ [] })
unfolding create_playback init_playback
create_ready k p h e can conf = rw (e, can, conf) refl

pub create_unopened :
    (k : PlaybackPcm) (p : Player)
    → p.handle ≡ none
    → k.can_open ≡ false
    → create_playback k p
      ≡ (false, record p { handle = none; calls = p.calls ++ drops ∷ closes ∷ [] })
unfolding create_playback init_playback destroy_playback
create_unopened k p e can = rw (e, can) refl

pub create_unconfigured :
    (k : PlaybackPcm) (p : Player)
    → p.handle ≡ none
    → k.can_open ≡ true
    → configure_playback k default_handle ≡ none
    → create_playback k p ≡ (
      false,
      record p { handle = none; calls = (p.calls ++ opens ∷ closes ∷ []) ++ drops ∷ closes ∷ [] },
    )
unfolding create_playback init_playback destroy_playback
create_unconfigured k p e can conf = rw (e, can, conf) refl

-- The stream is accepted and the device is open; the session is played to its end.
played :
    (n : ℕ) (c : Connection) (q : Player) (h : PlaybackHandle)
    → q.handle ≡ some h
    → closed q.calls + 1 ≡ opened q.calls + n
    → q.streams ≡ suc n
    → (play_with c q.handle q).0 ≡ accepting
    → IsAccounted n (play_with c q.handle q).1
unfolding destroy_playback opened closed
played n c q h e device streams back =
    let frames = buffer_bytes / h.sample_bytes in
    let l = (play frames c.turns).0 in
    let silent = play-IsSilent frames c.turns in
    record {
      device = ground (
        arith,
        silent.no_open,
        silent.no_close,
        opened-append q.calls l,
        closed-append q.calls l,
        opened-append (q.calls ++ l) (drops ∷ closes ∷ []),
        closed-append (q.calls ++ l) (drops ∷ closes ∷ []),
      );
      leaked = ground arith;
    }

-- The stream is accepted and the device cannot be started.
unstarted :
    (n : ℕ) (c : Connection) (q : Player)
    → q.handle ≡ none
    → can_start c.pcm ≡ false
    → closed q.calls ≡ opened q.calls + n
    → q.streams ≡ suc n
    → IsAccounted (suc n) (play_if_created c (create_playback c.pcm q)).1
unfolding can_start opened closed
unstarted n c q e broken device streams = elim (Bool-cases c.pcm.can_open) [
  | inr shut ↦ rw (create_unopened c.pcm q e shut) (record {
    device = ground (
      arith,
      opened-append q.calls (drops ∷ closes ∷ []),
      closed-append q.calls (drops ∷ closes ∷ []),
    );
    leaked = streams;
  })
  | inl can ↦
      let conf : configure_playback c.pcm default_handle ≡ none =
        ground (arith, Option-cases (configure_playback c.pcm default_handle)) in
      let l = q.calls ++ opens ∷ closes ∷ [] in
      rw (create_unconfigured c.pcm q e can conf) (record {
        device = ground (
          arith,
          opened-append q.calls (opens ∷ closes ∷ []),
          closed-append q.calls (opens ∷ closes ∷ []),
          opened-append l (drops ∷ closes ∷ []),
          closed-append l (drops ∷ closes ∷ []),
        );
        leaked = streams;
      })
]

-- The stream is accepted and the device can be started.
started :
    (n : ℕ) (c : Connection) (q : Player)
    → q.handle ≡ none
    → can_start c.pcm ≡ true
    → closed q.calls ≡ opened q.calls + n
    → q.streams ≡ suc n
    → (play_if_created c (create_playback c.pcm q)).0 ≡ accepting
    → IsAccounted n (play_if_created c (create_playback c.pcm q)).1
unfolding can_start opened closed
started n c q e can device streams back =
    elim (Option-cases (configure_playback c.pcm default_handle)) [
      | inl none_there ↦ absurd (ground (arith, can, none_there))
      | inr (h, conf) ↦
          let r = record q { handle = some h; calls = q.calls ++ opens ∷ [] } in
          let made = create_ready c.pcm q h e (ground arith) conf in
          rw made (
            played n c r h refl
              (ground
                (arith, opened-append q.calls (opens ∷ []), closed-append q.calls (opens ∷ [])))
              streams (rw made at back))
    ]

-- A PLAYBACK stream, accepted.
served :
    (n : ℕ) (c : Connection) (q : Player)
    → closed q.calls + (if has q.handle then 1 else 0) ≡ opened q.calls + n
    → q.streams ≡ suc n
    → (play_if_created c (create_playback c.pcm q)).0 ≡ accepting
    → IsAccounted
        (if not (has q.handle) && not (can_start c.pcm) then suc n else n)
        (play_if_created c (create_playback c.pcm q)).1
served n c q device streams back =
    let m = if not (has q.handle) && not (can_start c.pcm) then suc n else n in
    let now : ℕ → Type 0 = λ m. IsAccounted m (play_if_created c (create_playback c.pcm q)).1 in
    elim (Option-cases q.handle) [
      | inr (h, there) ↦
          let same : create_playback c.pcm q ≡ (true, q) =
            unfold create_playback in rw there refl in
          let account : IsAccounted n (play_with c q.handle q).1 =
            played n c q h there (rw there at device) streams (rw same at back) in
          let e : n ≡ m = ground (arith, there) in subst now e (rw same account)
      | inl absent ↦
          let device' : closed q.calls ≡ opened q.calls + n = ground (arith, device, absent) in
          elim (Bool-cases (can_start c.pcm)) [
            | inl can ↦
                let e : n ≡ m = ground (arith, can) in
                subst now e (started n c q absent can device' streams back)
            | inr broken ↦
                let e : suc n ≡ m = ground (arith, absent, broken) in
                subst now e (unstarted n c q absent broken device' streams)
          ]
    ]

-- A stream, accepted, from which a type was read or not.
served_kind :
    (n : ℕ) (c : Connection) (o : Option ℤ) (p : Player)
    → IsAccounted n p
    → (serve_kind c o (record p { streams = p.streams + 1 })).0 ≡ accepting
    → IsAccounted
        (if is_playback o && (not (has p.handle) && not (can_start c.pcm)) then suc n else n)
        (serve_kind c o (record p { streams = p.streams + 1 })).1
served_kind n c none p a back = record {
  device = ground (arith, a.device);
  leaked = ground (arith, a.leaked);
}
served_kind n c (some type) p a back = elim (Bool-cases (int_beq type (pos 0))) [
  | inl play_type ↦ rw play_type (
      served n c (record p { streams = p.streams + 1 }) a.device (omega (arith, a.leaked))
        (rw play_type at back))
  | inr other_type ↦ rw other_type (record { device = a.device; leaked = ground (arith, a.leaked) })
]

-- If each close but `n` closed an open device and `n` accepted streams are not deleted, then this is so
-- again after a connection that the worker returns from to accept the next one: with the same `n`, or, if
-- the device was to be started and could not be, with one more.
pub serve-IsAccounted :
    (n : ℕ) (c : Connection) (p : Player)
    → IsAccounted n p
    → (serve c p).0 ≡ accepting
    → IsAccounted (if fails_to_start c p then suc n else n) (serve c p).1
unfolding serve fails_to_start
serve-IsAccounted n c p a back = elim (Bool-cases c.accepted) [
  | inl one ↦ rw one (served_kind n c c.kind p a (rw one at back))
  | inr nothing ↦
      rw nothing (record { device = ground (arith, a.device); leaked = ground (arith, a.leaked) })
]
