-- ===== src/Scenarios/Camera.antt =====
-- Runs of the camera service on concrete input (manager/camera/camera_service.cpp).
use kylin_kmre_manager.Base.{◌+◌, ◌≡◌, refl, true, false, some, any, nat_beq, if◌then◌else◌}
use kylin_kmre_manager.Base.Text.{Text, codes}
use kylin_kmre_manager.Base.Int.{ℤ, pos}
use kylin_kmre_manager.Manager.Camera.Service.{
  Answers, available, video, search, numbers, Camera, fall_back, serve,
}
use kylin_kmre_manager.Manager.Camera.Choice.{is_result, serve_lem}

-- /dev/video2 is the only camera; every device opens.
abbrev answers : Answers
answers = record {
  open_device = λ attempt name. pos (attempt + 3);
  querycap = λ attempt. if nat_beq attempt 3 then some 67108865 else some 1;
}

abbrev camera : Camera
camera = record { device_name = codes "/dev/video0"; use_selected = false }

third_is_sent : (serve answers camera).sent ≡ some (codes "/dev/video2", pos 6)
unfolding serve fall_back search video numbers available
third_is_sent = refl

-- No device is a camera: the last one that was opened is sent all the same.
abbrev no_camera : Answers
no_camera = record answers { querycap = λ attempt. some 1 }

last_is_sent : (serve no_camera camera).sent ≡ some (codes "/dev/video11", pos 15)
unfolding serve fall_back search video numbers available
last_is_sent = refl

serve_lem_example :
    (r : Text × ℤ) × ((serve answers camera).sent ≡ some r)
    × (any (is_result answers r) numbers ≡ true)
    × ((serve answers camera).camera.device_name ≡ r.0)
unfolding available video numbers
serve_lem_example = (serve_lem answers camera).1 refl refl
