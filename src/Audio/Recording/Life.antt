-- ===== src/Audio/Recording/Life.antt =====
-- The life of a RecordingWorker (audio/recordingworker.cpp: initData, start, stop, the destructor).
use kylin_kmre_manager.Base.{
  ℕ, suc, ◌+◌, ◌≡◌, ◌⊎◌, refl, subst, inl, inr, Bool, true, false, List, [], ◌∷◌, Option, none,
  some, if◌then◌else◌, arith,
}
use kylin_kmre_manager.Base.Text.{Text}
use kylin_kmre_manager.Audio.Pcm.{opened, closed}
use kylin_kmre_manager.Audio.Recording.{Recorder, destroy_recorder}
use kylin_kmre_manager.Audio.Recording.Session.{Connection, Place, accepting, recording, serve}
use kylin_kmre_manager.Audio.Recording.Between.{IsBetween, fails_to_start, serve-IsBetween}
use kylin_kmre_manager.Audio.Playback.Life.{socket_path}

-- The constructor, with the `count` of start.
abbrev pub new_recorder : Recorder
new_recorder = record {
  handle = none;
  resampler = none;
  preprocesser = false;
  client_rate = 0;
  count = 0;
  out_size = 0;
  sent = [];
  calls = [];
  params = 0;
  streams = 0;
}

abbrev pub is_accepting : Place → Bool
is_accepting accepting = true
is_accepting recording = false

-- The loop over the connections that there are.
unfoldable pub serve_all : List Connection → Recorder → Place × Recorder
serve_all [] r = (accepting, r)
serve_all (c ∷ cs) r =
    let rest = serve_all cs (serve c r).1 in if is_accepting (serve c r).0 then rest else serve c r

-- start, for the path of the socket and whether listen succeeds; `none` if it returns, which it only
-- does before the loop.
unfoldable pub start : Text → Bool → List Connection → Recorder → Option (Place × Recorder)
unfolding serve_all
start [] listens cs r = none
start (c ∷ path) listens cs r = if listens then some (serve_all cs r) else none

-- initData, for the user's id and name.
unfoldable pub init_data :
    Text → Text → Bool → List Connection → Recorder → Option (Place × Recorder)
unfolding start socket_path
init_data uid user listens cs r = start (socket_path false uid user) listens cs r

-- stop, and the destructor, which calls it and once more destroyRecorder.
unfoldable pub stop : Recorder → Recorder
unfolding destroy_recorder
stop r = destroy_recorder r

unfoldable pub destroy : Recorder → Recorder
unfolding stop destroy_recorder
destroy r = destroy_recorder (record (stop r) { resampler = none })

-- How many connections were for recording on a device that could not be started.
unfoldable pub failures : List Connection → ℕ
unfolding fails_to_start
failures [] = 0
failures (c ∷ cs) = (if fails_to_start c then 1 else 0) + failures cs

serve_all-kept :
    (cs : List Connection) (n : ℕ) (r : Recorder)
    → IsBetween n r
    → (serve_all cs r).0 ≡ accepting
    → IsBetween (n + failures cs) (serve_all cs r).1
unfolding serve_all failures
serve_all-kept [] n r b back = let sum : n ≡ n + 0 = omega arith in subst (λ k. IsBetween k r) sum b
serve_all-kept (c ∷ cs) n r b back = elim (place-cases (serve c r).0) [
  | inl here ↦
      let m = if fails_to_start c then suc n else n in
      let sum : m + failures cs ≡ n + ((if fails_to_start c then 1 else 0) + failures cs) =
        ground arith in
      rw here (
        subst (λ k. IsBetween k (serve_all cs (serve c r).1).1) sum
          (serve_all-kept cs m (serve c r).1 (serve-IsBetween n c r b here) (rw here at back)))
  | inr there ↦ let wrong : recording ≡ accepting = rw there at back in cc
]
  where
    place-cases : (o : Place) → (o ≡ accepting) ⊎ (o ≡ recording)
    place-cases accepting = inl refl
    place-cases recording = inr refl

-- Whatever connections a recording worker has served since its start, when it waits for the next one:
-- it has no device and no preprocesser; and for each of them that was for recording on a device that
-- could not be started there was one close too many and one stream that is not deleted, and for none
-- else.
pub serve_all-IsBetween :
    (cs : List Connection)
    → (serve_all cs new_recorder).0 ≡ accepting
    → IsBetween (failures cs) (serve_all cs new_recorder).1
serve_all-IsBetween cs back =
    let sum : 0 + failures cs ≡ failures cs = omega arith in
    subst (λ k. IsBetween k (serve_all cs new_recorder).1) sum
      (serve_all-kept cs 0 new_recorder
        (unfold opened closed in
          record { no_handle = refl; no_preprocesser = refl; device = refl; leaked = refl })
        back)
