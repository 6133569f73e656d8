-- ===== src/Audio/Playback/Life/Leaving.antt =====
-- What a PlaybackWorker leaves behind when its life is over (audio/playbackworker.cpp).
use kylin_kmre_manager.Base.{
  ℕ, suc, ◌+◌, ◌≡◌, ◌≤◌, ◌⊎◌, refl, subst, inl, inr, Bool, true, false, not, ◌&&◌, List, [], ◌∷◌,
  ◌++◌, none, some, if◌then◌else◌, arith, Bool-cases, Option-cases, ◌/◌,
}
use kylin_kmre_manager.Base.Int.{int_beq, pos}
use kylin_kmre_manager.Base.Text.{Text, is_empty}
use kylin_kmre_manager.Audio.Pcm.{
  opens, closes, drops, opened, closed, opened-append, closed-append,
}
use kylin_kmre_manager.Audio.Playback.Silence.{play-IsSilent}
use kylin_kmre_manager.Audio.Playback.{
  PlaybackHandle, PlaybackPcm, Player, destroy_playback, create_playback, configure_playback,
  default_handle, play, buffer_bytes, Connection, play_with, play_if_created, Place, accepting,
  playing, left, serve,
}
use kylin_kmre_manager.Audio.Playback.Accounts.{
  has, can_start, fails_to_start, IsAccounted, serve-IsAccounted, create_ready, create_unopened,
  create_unconfigured,
}
use kylin_kmre_manager.Audio.Playback.Life.{
  socket_path, is_accepting, serve_all, start, init_data, new_player, destroy,
}

-- How often the device was to be started and could not be.
unfoldable pub failures : List Connection → Player → ℕ
unfolding fails_to_start
failures [] p = 0
failures (c ∷ cs) p =
    let rest = failures cs (serve c p).1 in
    (if fails_to_start c p then 1 else 0) + (if is_accepting (serve c p).0 then rest else 0)

-- The state in which the worker has left: a stream that it then had is not deleted.
record IsLeft (n : ℕ) (p : Player) : Type 0 where
  device : closed p.calls + (if has p.handle then 1 else 0) ≡ opened p.calls + n
  streams : p.streams ≤ suc n

-- A session after which the worker leaves.
played_left :
    (n : ℕ) (c : Connection) (q : Player) (h : PlaybackHandle)
    → q.handle ≡ some h
    → closed q.calls + 1 ≡ opened q.calls + n
    → q.streams ≡ suc n
    → (play_with c q.handle q).0 ≡ left
    → IsLeft n (play_with c q.handle q).1
unfolding destroy_playback opened closed
played_left n c q h e device streams gone =
    let frames = buffer_bytes / h.sample_bytes in
    let l = (play frames c.turns).0 in
    let silent = play-IsSilent frames c.turns in
    record {
      device = ground (
        arith,
        silent.no_open,
        silent.no_close,
        opened-append q.calls l,
        closed-append q.calls l,
      );
      streams = ground arith;
    }

started_left :
    (n : ℕ) (c : Connection) (q : Player)
    → q.handle ≡ none
    → closed q.calls ≡ opened q.calls + n
    → q.streams ≡ suc n
    → (play_if_created c (create_playback c.pcm q)).0 ≡ left
    → IsLeft n (play_if_created c (create_playback c.pcm q)).1 × (can_start c.pcm ≡ true)
unfolding can_start opened closed
started_left n c q e device streams gone = elim (Bool-cases c.pcm.can_open) [
  | inr shut ↦ let wrong : accepting ≡ left = rw (create_unopened c.pcm q e shut) at gone in cc
  | inl can ↦ elim (Option-cases (configure_playback c.pcm default_handle)) [
    | inl bad ↦
        let wrong : accepting ≡ left = rw (create_unconfigured c.pcm q e can bad) at gone in cc
    | inr (h, conf) ↦
        let r = record q { handle = some h; calls = q.calls ++ opens ∷ [] } in
        let made = create_ready c.pcm q h e can conf in
        (
          rw made (
              played_left n c r h refl
                (ground
                  (arith, opened-append q.calls (opens ∷ []), closed-append q.calls (opens ∷ [])))
                streams (rw made at gone)),
          ground (arith, can, conf),
        )
  ]
]

-- A PLAYBACK stream, accepted, after which the worker leaves.
served_left :
    (n : ℕ) (c : Connection) (q : Player)
    → closed q.calls + (if has q.handle then 1 else 0) ≡ opened q.calls + n
    → q.streams ≡ suc n
    → (play_if_created c (create_playback c.pcm q)).0 ≡ left
    → IsLeft n (play_if_created c (create_playback c.pcm q)).1
      × ((not (has q.handle) && not (can_start c.pcm)) ≡ false)
served_left n c q device streams gone = elim (Option-cases q.handle) [
  | inr (h, there) ↦
      let same : create_playback c.pcm q ≡ (true, q) = unfold create_playback in rw there refl in
      let result : IsLeft n (play_with c q.handle q).1 =
        played_left n c q h there (rw there at device) streams (rw same at gone) in
      (rw same result, ground (arith, there))
  | inl absent ↦
      let (result, can) = started_left n c q absent (ground (arith, device, absent)) streams gone in
      (result, ground (arith, can))
]

serve_left :
    (n : ℕ) (c : Connection) (p : Player)
    → IsAccounted n p
    → (serve c p).0 ≡ left
    → IsLeft n (serve c p).1 × (fails_to_start c p ≡ false)
unfolding serve fails_to_start
serve_left n c p a gone = elim (Bool-cases c.accepted) [
  | inr nothing ↦ (
    rw nothing (record { device = ground (arith, a.device); streams = ground (arith, a.leaked) }),
    ground (arith, nothing),
  )
  | inl one ↦ elim (Option-cases c.kind) [
    | inl unread ↦ (
      rw (one, unread)
          (record { device = ground (arith, a.device); streams = ground (arith, a.leaked) }),
      ground (arith, one, unread),
    )
    | inr (type, read) ↦ elim (Bool-cases (int_beq type (pos 0))) [
      | inr other ↦ let wrong : accepting ≡ left = rw (one, read, other) at gone in cc
      | inl play_type ↦
          let (result, starts) =
            served_left n c (record p { streams = p.streams + 1 }) a.device
              (ground (arith, a.leaked)) (rw (one, read, play_type) at gone) in
          (rw (one, read, play_type) result, ground (arith, one, read, play_type, starts))
    ]
  ]
]

serve_all_left :
    (cs : List Connection) (n : ℕ) (p : Player)
    → IsAccounted n p
    → (serve_all cs p).0 ≡ left
    → IsLeft (n + failures cs p) (serve_all cs p).1
unfolding serve_all failures
serve_all_left [] n p a gone = cc
serve_all_left (c ∷ cs) n p a gone = elim (place-cases (serve c p).0) [
  | inl back ↦
      let next = serve-IsAccounted n c p a back in
      let m = if fails_to_start c p then suc n else n in
      let rest = serve_all_left cs m (serve c p).1 next (rw back at gone) in
      let sum : m + failures cs (serve c p).1
          ≡ n + ((if fails_to_start c p then 1 else 0) + failures cs (serve c p).1) =
        ground arith in
      rw back (subst (λ k. IsLeft k (serve_all cs (serve c p).1).1) sum rest)
  | inr stops ↦
      let (result, fine) = serve_left n c p a (rw stops at gone) in
      let sum : n ≡ n + ((if fails_to_start c p then 1 else 0) + 0) = ground (arith, fine) in
      rw stops (subst (λ k. IsLeft k (serve c p).1) sum result)
]
  where
    place-cases : (o : Place) → (o ≡ accepting) ⊎ (is_accepting o ≡ false)
    place-cases accepting = inl refl
    place-cases playing = inr refl
    place-cases left = inr refl

destroy-IsLeft :
    (n : ℕ) (p : Player)
    → IsLeft n p
    → ((destroy p).handle ≡ none)
      × (closed (destroy p).calls ≡ opened (destroy p).calls + n)
      × ((destroy p).streams ≤ suc n)
unfolding destroy destroy_playback opened closed
destroy-IsLeft n p h = elim (Option-cases p.handle) [
  | inl absent ↦ rw absent (refl, ground (arith, h.device, absent), ground (arith, h.streams))
  | inr (handle, there) ↦ rw there (
    refl,
    ground (
      arith,
      h.device,
      there,
      opened-append p.calls (drops ∷ closes ∷ []),
      closed-append p.calls (drops ∷ closes ∷ []),
    ),
    ground (arith, h.streams),
  )
]

-- How often the device could not be started in a whole life: at the beginning, or for a connection.
unfoldable pub life_failures : PlaybackPcm → Text → Text → Bool → List Connection → ℕ
unfolding failures can_start socket_path
life_failures k uid user listens cs =
    if can_start k
    then (if listens && not (is_empty (socket_path true uid user))
        then failures cs (create_playback k new_player).1
        else 0)
    else 1

-- `start` with an open device.
start_left :
    (path : Text) (listens : Bool) (cs : List Connection) (p : Player)
    → IsAccounted 0 p
    → (start path listens cs p).0 ≡ left
    → IsLeft
        (if listens && not (is_empty path) then failures cs p else 0)
        (start path listens cs p).1
unfolding start
start_left [] true cs p a gone = record { device = a.device; streams = omega (arith, a.leaked) }
start_left [] false cs p a gone = record { device = a.device; streams = omega (arith, a.leaked) }
start_left (c ∷ path) false cs p a gone = record {
  device = a.device;
  streams = omega (arith, a.leaked);
}
start_left (c ∷ path) true cs p a gone =
    let sum : 0 + failures cs p ≡ failures cs p = omega arith in
    subst (λ n. IsLeft n (serve_all cs p).1) sum (serve_all_left cs 0 p a gone)

init_data_left :
    (k : PlaybackPcm) (uid user : Text) (listens : Bool) (cs : List Connection)
    → (init_data k uid user listens cs new_player).0 ≡ left
    → IsLeft (life_failures k uid user listens cs) (init_data k uid user listens cs new_player).1
unfolding init_data life_failures opened closed
init_data_left k uid user listens cs gone = elim (Bool-cases k.can_open) [
  | inr shut ↦
      let broken : can_start k ≡ false = unfold can_start in ground (arith, shut) in
      rw (create_unopened k new_player refl shut, broken)
        (record { device = refl; streams = omega arith })
  | inl can ↦ elim (Option-cases (configure_playback k default_handle)) [
    | inl bad ↦
        let broken : can_start k ≡ false = unfold can_start in ground (arith, bad) in
        rw (create_unconfigured k new_player refl can bad, broken)
          (record { device = refl; streams = omega arith })
    | inr (h, conf) ↦
        let made = create_ready k new_player h refl can conf in
        let starts : can_start k ≡ true = unfold can_start in ground (arith, can, conf) in
        rw (made, starts)
          (start_left (socket_path true uid user) listens cs _
            (record { device = refl; leaked = refl }) (rw made at gone))
  ]
]

-- If a worker has returned from `start`, with any connections before, and is then destroyed, its device
-- is closed; there was one close too many for each time that the device could not be started, and as
-- many closes as opens else; and the streams that are not deleted are at most one for each of these
-- times, and one more.
pub init_data-destroy :
    (k : PlaybackPcm) (uid user : Text) (listens : Bool) (cs : List Connection)
    → (init_data k uid user listens cs new_player).0 ≡ left
    → let p = destroy (init_data k uid user listens cs new_player).1 in
      let n = life_failures k uid user listens cs in
      (p.handle ≡ none) × (closed p.calls ≡ opened p.calls + n) × (p.streams ≤ suc n)
init_data-destroy k uid user listens cs gone =
    destroy-IsLeft (life_failures k uid user listens cs)
      (init_data k uid user listens cs new_player).1 (init_data_left k uid user listens cs gone)
