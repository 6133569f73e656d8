-- ===== src/Manager/Camera/Service.antt =====
-- CameraService: which camera a client of the container gets, and the message that carries it
-- (manager/camera/camera_service.cpp). Device names are bytes. The answers of the system while one
-- client is served are numbered by attempt: 0 is the selected device and i + 1 is /dev/video<i>.
use kylin_kmre_manager.Base.{
  ℕ, suc, ◌+◌, ◌/◌, ◌%◌, Bool, true, false, ◌&&◌, ◌||◌, List, [], ◌∷◌, ◌++◌, Option, none, some,
  ◌==◌, nat_eq, list_eq, take, ltb, nat_beq, if◌then◌else◌,
}
use kylin_kmre_manager.Base.Text.{Text, codes}
use kylin_kmre_manager.Base.Int.{ℤ, pos, negsuc, minus_one, int_beq}

pub record Answers : Type 0 where
  pub open_device : ℕ → Text → ℤ  -- open's result for an attempt
  pub querycap : ℕ → Option ℕ  -- the capabilities of what an attempt opened, `none` if ioctl fails

-- isAvailableCamera: V4L2_CAP_VIDEO_CAPTURE is bit 0, V4L2_CAP_STREAMING is bit 26.
unfoldable pub available : Option ℕ → Bool
available none = false
available (some caps) = nat_beq (caps % 2) 1 && nat_beq (caps / 67108864 % 2) 1

abbrev pub is_positive : ℤ → Bool
is_positive (pos n) = ltb 0 n
is_positive (negsuc n) = false

-- "/dev/video%d" for a number below 100.
unfoldable pub video : ℕ → Text
video i =
    codes "/dev/video" ++ (if ltb i 10 then (48 + i) ∷ [] else (48 + i / 10) ∷ (48 + i % 10) ∷ [])

-- An attempt that gives a camera.
abbrev pub usable : Answers → ℕ → Text → Bool
usable k attempt name = is_positive (k.open_device attempt name) && available (k.querycap attempt)

-- The loop over the devices: the name and the descriptor that are left.
unfoldable pub search : Answers → List ℕ → Text → ℤ → Text × ℤ
search k [] name fd = (name, fd)
search k (i ∷ is) name fd =
    let skipped = search k is name fd in
    let next = search k is (video i) (k.open_device (suc i) (video i)) in
    if video i == name
    then skipped
    else if usable k (suc i) (video i)
    then (video i, k.open_device (suc i) (video i))
    else next

unfoldable pub numbers : List ℕ
numbers = 0 ∷ 1 ∷ 2 ∷ 3 ∷ 4 ∷ 5 ∷ 6 ∷ 7 ∷ 8 ∷ 9 ∷ 10 ∷ 11 ∷ []

-- m_cameraDeviceName and useSelectedCamera.
pub record Camera : Type 0 where
  pub device_name : Text
  pub use_selected : Bool

unfoldable pub set_camera_device : Text → Camera → Camera
set_camera_device [] c = c
set_camera_device (b ∷ device) c = record c { device_name = b ∷ device }

-- dev_name, an array of 24 bytes with its zero.
abbrev pub selected : Camera → Text
selected c = take 23 c.device_name

-- The loop over all twelve devices, after the selected one.
unfoldable pub fall_back : Answers → Camera → Text × ℤ
fall_back k c = search k numbers (selected c) (k.open_device 0 (selected c))

-- One client: the new state, the device that is sent with its name, and the signal
-- sigCurrentCameraDevice.
pub record Served : Type 0 where
  pub camera : Camera
  pub sent : Option (Text × ℤ)
  pub current : Option Text

-- What is done with the name and the descriptor that are left after both tries; `first` tells whether
-- the selected device served.
unfoldable pub hand_over : Camera → Bool → Text × ℤ → Served
hand_over c first (name, fd) =
    let use_selected' = c.use_selected || first in
    if is_positive fd
    then record {
      camera = record { device_name = name; use_selected = use_selected' };
      sent = some (name, fd);
      current = if use_selected' then some name else none;
    }
    else record { camera = record c { use_selected = use_selected' }; sent = none; current = none }

unfoldable pub serve : Answers → Camera → Served
unfolding hand_over
serve k c =
    if usable k 0 (selected c)
    then hand_over c true (selected c, k.open_device 0 (selected c))
    else hand_over c false (fall_back k c)

-- send_fd: the three bytes, the descriptor that goes with them, and the return code for what sendmsg
-- answers.
pub record Message : Type 0 where
  pub bytes : List ℕ
  pub control : Option ℕ

unfoldable pub message : ℤ → ℕ → Message
message (pos fd) number = record { bytes = 0 ∷ 0 ∷ number % 256 ∷ []; control = some fd }
message (negsuc e) number = record {
  bytes = 0 ∷ (if nat_beq (suc e % 256) 0 then 1 else suc e % 256) ∷ 0 ∷ [];
  control = none;
}

unfoldable pub send_fd : (Message → ℤ) → ℤ → ℕ → ℤ
unfolding message
send_fd sendmsg fd number =
    if int_beq (sendmsg (message fd number)) (pos 2) then pos 0 else minus_one
