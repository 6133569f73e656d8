-- ===== src/Manager/Display/Ratio.antt =====
-- getAspectRatioType (manager/kmre/wm/displaysizemanager.cpp).
use kylin_kmre_manager.Base.{ℕ, ◌*◌, ◌≤◌, Bool, ◌&&◌, ◌||◌, ltb, nat_beq, if◌then◌else◌}

pub data RatioType : Type 0 where
  unknown_ratio ratio_16_9 ratio_16_10 ratio_3_2 ratio_4_3 ratio_5_4 : RatioType

abbrev pub is_at : ℕ → ℕ → ℕ → ℕ → Bool
is_at w h a b = nat_beq w a && nat_beq h b

unfoldable pub small_ratio_type : ℕ → ℕ → RatioType
small_ratio_type w h =
    if is_at w h 1440 810
    then ratio_16_9
    else if is_at w h 1368 768
    then ratio_16_9
    else if is_at w h 1366 768
    then ratio_16_9
    else if is_at w h 1360 768
    then ratio_16_9
    else if is_at w h 1280 800
    then ratio_16_10
    else if is_at w h 1152 864
    then ratio_4_3
    else if is_at w h 1280 720
    then ratio_16_9
    else if is_at w h 1024 768
    then ratio_4_3
    else if is_at w h 960 720
    then ratio_4_3
    else unknown_ratio

unfoldable pub middle_ratio_type : ℕ → ℕ → RatioType
middle_ratio_type w h =
    if is_at w h 1400 1050
    then ratio_4_3
    else if is_at w h 1600 900
    then ratio_16_9
    else if is_at w h 1280 1024
    then ratio_5_4
    else if is_at w h 1440 900
    then ratio_16_10
    else if is_at w h 1400 900
    then ratio_3_2
    else if is_at w h 1280 960
    then ratio_4_3
    else small_ratio_type w h

-- The chain of tests, in three parts.
unfoldable pub get_aspect_ratio_type : ℕ → ℕ → RatioType
get_aspect_ratio_type w h =
    if ltb w 1024 || ltb h 720
    then unknown_ratio
    else if is_at w h 3840 2160
    then ratio_16_9
    else if is_at w h 2560 1440
    then ratio_16_9
    else if is_at w h 1920 1200
    then ratio_16_10
    else if is_at w h 1920 1080
    then ratio_16_9
    else if is_at w h 1680 1050
    then ratio_16_10
    else if is_at w h 1600 1024
    then ratio_3_2
    else middle_ratio_type w h

-- The numbers in a ratio's name.
abbrev pub across : RatioType → ℕ
across unknown_ratio = 0
across ratio_16_9 = 16
across ratio_16_10 = 16
across ratio_3_2 = 3
across ratio_4_3 = 4
across ratio_5_4 = 5

abbrev pub down : RatioType → ℕ
down unknown_ratio = 0
down ratio_16_9 = 9
down ratio_16_10 = 10
down ratio_3_2 = 2
down ratio_4_3 = 3
down ratio_5_4 = 4

-- Width times `down` and height times `across` differ by at most a twentieth.
abbrev pub IsNear : ℕ → ℕ → RatioType → Type 0
IsNear w h r = (20 * (w * down r) ≤ 21 * (h * across r)) × (20 * (h * across r) ≤ 21 * (w * down r))
