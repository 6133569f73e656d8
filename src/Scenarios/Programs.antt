-- ===== src/Scenarios/Programs.antt =====
-- The programs, their threads and their start at concrete inputs (manager/main.cpp, filewatcher/, audio/).
use kylin_kmre_manager.Base.{
  ℕ, zero, suc, ◌≡◌, refl, true, false, List, [], ◌∷◌, ◌++◌, map, none, some, length, replicate,
}
use kylin_kmre_manager.Base.Int.{pos}
use kylin_kmre_manager.Base.Text.{Text, codes}
use kylin_kmre_manager.Base.Lines.{unlines, read_lines}
use kylin_kmre_manager.Programs.Lock.{Flock, granted, busy, interrupted, audio, goes_on}
use kylin_kmre_manager.Programs.Single.{
  Machine, start, exit, starts, exits, here, next, IsSingle, no_process, Reach-IsSingle,
}
use kylin_kmre_manager.Manager.Apps.Library.{Library}
use kylin_kmre_manager.Manager.Entry.{
  adds_record, set_system_prop, new_manager, Happening, queues, turns, asks, run,
}
use kylin_kmre_manager.Manager.Entry.Order.{commands, direct, run-direct}
use kylin_kmre_manager.Manager.Start.{Host, set_and_save_env}
use kylin_kmre_manager.Manager.Start.Saved.{variables, read_variables, set_and_save_env-read}
use kylin_kmre_manager.Manager.Display.Gles.{Scan, gl_text, Egl, check_aep}
use kylin_kmre_manager.Manager.Display.Gles.Balance.{nothing, held_after, check_aep-held_after}
use kylin_kmre_manager.Audio.Server.{new_server, init, on_init, wakes, wakes-on_init}

-- flock is interrupted once and then granted.
abbrev second_try : ℕ → Flock
second_try zero = interrupted
second_try (suc i) = granted

-- Process 7 starts, process 8 is refused, process 7 exits, process 8 starts.
abbrev after_seven : Machine
after_seven = start audio 7 (some 3) second_try no_process

abbrev refused : Machine
refused = start audio 8 (some 3) (λ i. busy) after_seven

Reach-IsSingle_example : IsSingle (start audio 8 (some 3) second_try (exit 7 refused))
unfolding start exit goes_on
Reach-IsSingle_example = Reach-IsSingle audio (
    next
      (next
        (next (next here (starts 7 (some 3) second_try (λ i h. refl)))
          (starts 8 (some 3) (λ i. busy) (λ i h. cc)))
        (exits 7))
      (starts 8 (some 3) second_try (λ i h. refl)))

abbrev library : Library
library = record {
  is_there = true;
  opens = true;
  symbol = λ r. true;
  error = λ r. false;
  succeeds = λ r. true;
  number = λ r. pos 0;
  string = λ r. none;
}

abbrev photo : Text
photo = codes "/a.png"

abbrev happenings : List Happening
happenings =
    queues (adds_record photo (codes "image/png"))
    ∷ queues (set_system_prop (pos 0) (codes "a") (codes "1"))
    ∷ asks (pos 0) (codes "a")
    ∷ turns
    ∷ []

run-direct_example :
    (run library (happenings ++ replicate (length (commands happenings)) turns) new_manager).done
    ≡ direct library (commands happenings)
run-direct_example = (run-direct library happenings).1

-- A virtual machine on x86-64.
abbrev virtual : Host
virtual = record {
  virt_type = codes "kvm";
  is_x86_64 = true;
  is_aarch64 = false;
  has_swrast_x86 = true;
  has_swrast_arm = false;
  has_i965 = true;
  prefers_i965 = true;
  has_iris = false;
}

abbrev saved : Text
saved = codes "QT_QPA_PLATFORMTHEME=ukui\nMESA_LOADER_DRIVER_OVERRIDE=swrast\n"

set_and_save_env-read_example : read_variables (read_lines [] saved) ≡ map some (variables virtual)
unfolding set_and_save_env unlines
set_and_save_env-read_example = (set_and_save_env-read (λ name. true) virtual [] saved refl).0

abbrev egl : Egl
egl = record {
  has_display = true;
  initializes = true;
  chooses = true;
  has_config = true;
  creates = true;
  makes_current = true;
  version = gl_text (codes "OpenGL ES 3.2");
  extensions = codes "GL_ANDROID_extension_pack_es31a" ∷ [];
}

abbrev scan : Scan
scan prefix version = some (pos 3, pos 2)

check_aep-held_after_example : held_after (check_aep scan egl).0 (some nothing) ≡ some nothing
check_aep-held_after_example = (check_aep-held_after scan egl).0

wakes-on_init_example :
    (wakes (true ∷ false ∷ false ∷ []) (on_init (init new_server))).record_thread ≡ some 2
wakes-on_init_example = (wakes-on_init (true ∷ false ∷ false ∷ [])).2
