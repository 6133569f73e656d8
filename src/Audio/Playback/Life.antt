-- ===== src/Audio/Playback/Life.antt =====
-- The life of a PlaybackWorker (audio/playbackworker.cpp: initData, start, the destructor;
-- audio/myutils.h: getUnixDomainSocketPath).
pub mod Leaving
use kylin_kmre_manager.Base.{
  ℕ, suc, ◌+◌, ◌≡◌, ◌≤◌, ◌⊎◌, refl, sym, ◌∙◌, subst, inl, inr, Bool, true, false, not, ◌&&◌, List,
  [], ◌∷◌, ◌++◌, Option, none, some, if◌then◌else◌, arith, Bool-cases, Option-cases, ◌/◌,
}
use kylin_kmre_manager.Base.Int.{ℤ, int_beq, pos}
use kylin_kmre_manager.Base.Text.{Text, codes, is_empty}
use kylin_kmre_manager.Audio.Pcm.{
  opens, closes, drops, opened, closed, opened-append, closed-append,
}
use kylin_kmre_manager.Audio.Playback.Silence.{play-IsSilent}
use kylin_kmre_manager.Audio.Playback.{
  PlaybackHandle, PlaybackPcm, Player, destroy_playback, create_playback, init_playback,
  configure_playback, default_handle, play, buffer_bytes, Connection, play_with, play_if_created,
  serve_kind, Place, accepting, playing, left, serve,
}
use kylin_kmre_manager.Audio.Playback.Accounts.{
  has, is_playback, can_start, fails_to_start, IsAccounted, serve-IsAccounted, create_ready,
  create_unopened, create_unconfigured,
}

-- getUnixDomainSocketPath, for the user's id in digits and name.
unfoldable pub socket_path : Bool → Text → Text → Text
socket_path is_playback uid [] = []
socket_path is_playback uid (c ∷ user) =
    codes "/var/lib/kmre/kmre-"
    ++ uid
    ++ codes "-"
    ++ (c ∷ user)
    ++ (if is_playback
        then codes "/sockets/kmre_audio_playback"
        else codes "/sockets/kmre_audio_recording")

abbrev pub is_accepting : Place → Bool
is_accepting accepting = true
is_accepting playing = false
is_accepting left = false

-- The loop over the connections that there are.
unfoldable pub serve_all : List Connection → Player → Place × Player
serve_all [] p = (accepting, p)
serve_all (c ∷ cs) p =
    let rest = serve_all cs (serve c p).1 in if is_accepting (serve c p).0 then rest else serve c p

-- start, for the path of the socket and whether listen succeeds; `left` if it returns at once.
unfoldable pub start : Text → Bool → List Connection → Player → Place × Player
unfolding serve_all
start [] listens cs p = (left, p)
start (c ∷ path) listens cs p = if listens then serve_all cs p else (left, p)

abbrev pub start_if_created : Text → Bool → List Connection → Bool × Player → Place × Player
start_if_created path listens cs (true, p) = start path listens cs p
start_if_created path listens cs (false, p) = (left, p)

-- initData, for the user's id and name.
unfoldable pub init_data :
    PlaybackPcm → Text → Text → Bool → List Connection → Player → Place × Player
unfolding start socket_path
init_data k uid user listens cs p =
    start_if_created (socket_path true uid user) listens cs (create_playback k p)

abbrev pub new_player : Player
new_player = record { handle = none; calls = []; streams = 0 }

-- The destructor, which stops the playback.
unfoldable pub destroy : Player → Player
destroy p = destroy_playback p
