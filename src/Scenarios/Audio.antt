-- ===== src/Scenarios/Audio.antt =====
-- Runs of the audio sessions on concrete answers of ALSA and the sockets (audio/).
use kylin_kmre_manager.Base.{◌+◌, ◌≡◌, refl, true, false, List, [], ◌∷◌, none, some, arith}
use kylin_kmre_manager.Base.Int.{pos, negsuc, IsInt64}
use kylin_kmre_manager.Base.Text.{codes}
use kylin_kmre_manager.Audio.Pcm.{opened, closed}
use kylin_kmre_manager.Audio.Playback
use kylin_kmre_manager.Audio.Playback.{
  Player, PlaybackPcm, Turn, configure_playback, play, destroy_playback,
}
use kylin_kmre_manager.Audio.Playback.Ending.{play_ends}
use kylin_kmre_manager.Audio.Playback.Accounts
use kylin_kmre_manager.Audio.Playback.Accounts.{can_start}
use kylin_kmre_manager.Audio.Playback.Life.{
  socket_path, serve_all, start, init_data, new_player, destroy,
}
use kylin_kmre_manager.Audio.Playback.Life.Leaving.{failures, life_failures, init_data-destroy}
use kylin_kmre_manager.Audio.Recording.{
  RecordHandle, RecordPcm, Recorder, choose_format, sized, configure_recorder,
}
use kylin_kmre_manager.Audio.Recording.Session
use kylin_kmre_manager.Audio.Recording.Session.{
  Speex, ReadTurn, read_fails, read_loop, recording, accepting,
}
use kylin_kmre_manager.Audio.Recording.Waiting.{is_idle, after_idle, read_loop_idle}
use kylin_kmre_manager.Audio.Recording.Between
use kylin_kmre_manager.Audio.Recording.Between.{IsBetween, can_record}
use kylin_kmre_manager.Audio.Recording.Life
use kylin_kmre_manager.Audio.Recording.Life.{serve_all-IsBetween}
use kylin_kmre_manager.Audio.Recording.Retries.{IsStarting, serve_retries}

-- A write that fails with EIO, and the end of the client's data.
abbrev io_error : Turn
io_error = record {
  reads = true;
  written = negsuc 4;
  can_prepare = false;
  waits = 0;
  resumed = pos 0;
}

play_ends_example : (play 960 (io_error ∷ io_error ∷ [])).1 ≡ false
unfolding IsInt64
play_ends_example = play_ends 960 (io_error ∷ io_error ∷ []) (omega arith, (omega arith, tt))

-- A device that cannot be opened.
abbrev no_device : PlaybackPcm
no_device = record {
  can_open = false;
  any_params = true;
  set_access = true;
  set_format = λ f. true;
  set_channels = λ n. true;
  set_rate_near = λ n. some n;
  physical_width = λ f. 16;
  set_buffer_size_near = λ n. some n;
  set_period_size_near = λ n. some n;
  hw_params = true;
  set_avail_min = λ n. true;
  set_start_threshold = λ n. true;
  set_stop_threshold = λ n. true;
  sw_params = true;
}

abbrev client : Playback.Connection
client = record { accepted = true; kind = some (pos 0); exits = false; pcm = no_device; turns = [] }

-- The device can be opened at first; a client plays, the next one finds no device, and then the worker
-- is told to leave.
abbrev device : PlaybackPcm
device = record no_device { can_open = true }

abbrev clients : List Playback.Connection
clients =
    record client { pcm = device; turns = record io_error { reads = false } ∷ [] }
    ∷ client
    ∷ record client { accepted = false; exits = true }
    ∷ []

abbrev played : Player
played = destroy (init_data device (codes "1000") (codes "kylin") true clients new_player).1

init_data-destroy_example : closed played.calls ≡ opened played.calls + 1
unfolding init_data start socket_path serve_all Playback.serve Playback.create_playback
    Playback.init_playback configure_playback play Playback.play_turn destroy_playback life_failures
    failures Accounts.fails_to_start can_start
init_data-destroy_example =
    (init_data-destroy device (codes "1000") (codes "kylin") true clients refl).1

-- A read that gives nothing.
abbrev silence : ReadTurn
silence = record {
  nframe = pos 0;
  can_prepare = true;
  can_start = true;
  resampled = λ n top. some 0;
  sends = true;
}

abbrev microphone : RecordPcm
microphone = record {
  allocates_params = true;
  can_open = true;
  any_params = true;
  set_access = true;
  test_format = λ f. pos 0;
  set_format = λ f. true;
  set_channels = λ n. true;
  set_rate_near = λ n. some n;
  set_period_size_near = λ n. some n;
  set_buffer_size_near = λ n. some n;
  hw_params = true;
  physical_width = λ f. 16;
  can_start = true;
}

abbrev a_handle : RecordHandle
a_handle = sized microphone 2 48000 1920 15360

read_loop_idle_example : read_loop a_handle none 0 (silence ∷ silence ∷ []) 499 ≡ after_idle 499 2
unfolding is_idle read_fails
read_loop_idle_example =
    read_loop_idle a_handle none 0 (silence ∷ silence ∷ []) 499 (omega arith) (refl, (refl, tt))

-- A read that gives 960 frames.
abbrev sound : ReadTurn
sound = record silence { nframe = pos 960 }

abbrev recorder : Recorder
recorder = record {
  handle = none;
  resampler = none;
  preprocesser = false;
  client_rate = 0;
  count = 499;
  out_size = 0;
  sent = [];
  calls = [];
  params = 0;
  streams = 0;
}

abbrev speex : Speex
speex = record { has_preprocesser = true; init_resampler = λ i o. (true, true) }

abbrev caller : List ReadTurn → Session.Connection
caller turns = record {
  accepted = true;
  kind = some (pos 1);
  rate = some 16000;
  pcm = microphone;
  speex = speex;
  turns = turns;
}

caller-IsStarting : (turns : List ReadTurn) → IsStarting (caller turns)
unfolding can_record configure_recorder choose_format sized
caller-IsStarting turns = record {
  accepts = refl;
  for_recording = refl;
  client_rate = 16000;
  has_rate = refl;
  handle = a_handle;
  device = refl;
  configured = refl;
}

abbrev waits : Session.Connection
waits = caller (silence ∷ silence ∷ [])

-- A client for whom the device cannot be opened, and one whose type cannot be read.
abbrev callers : List Session.Connection
callers =
    record waits { pcm = record microphone { can_open = false } }
    ∷ record waits { kind = none }
    ∷ []

serve_all-IsBetween_example : IsBetween 1 (Life.serve_all callers Life.new_recorder).1
unfolding opened closed Life.serve_all Session.serve Between.fails_to_start can_record Life.failures
serve_all-IsBetween_example = serve_all-IsBetween callers refl

serve_retries_example :
    ((Session.serve waits recorder).0 ≡ accepting)
    × ((Session.serve waits (Session.serve waits recorder).1).0 ≡ recording)
unfolding is_idle read_fails
serve_retries_example =
    serve_retries waits waits recorder (caller-IsStarting (silence ∷ silence ∷ []))
      (caller-IsStarting (silence ∷ silence ∷ [])) refl (omega arith) (refl, (refl, tt))
      (refl, (refl, tt)) (omega arith) (omega arith)
