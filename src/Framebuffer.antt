-- ===== src/Framebuffer.antt =====
-- kexts/VMsvga2/FB/VMsvga2.cpp and modes.cpp: the modes of the framebuffer, the switch to a custom
-- mode, and the conversion of cursor images. The log and the lock around the device are left out.
pub mod Table
pub mod Cursor
pub mod Custom
mod Tests
use docker_macos.Base.{
  ℕ, zero, suc, ◌+◌, ◌-◌, ◌*◌, ◌/◌, ◌%◌, ◌^◌, Bool, true, false, not, ◌||◌, ◌&&◌, Option, none,
  some, List, [], ◌∷◌, length, ltb, leb, ◌==◌, if◌then◌else◌, set, get_or, get_elem?,
}

-- Every mode of the table is valid and safe; the flag tells whether it is also the default.
pub record DisplayModeEntry : Type 0 where
  pub width : ℕ
  pub height : ℕ
  pub default : Bool

abbrev pub entry : (width height : ℕ) → Bool → DisplayModeEntry
entry width height default = record { width = width; height = height; default = default }

abbrev pub mode_list : List DisplayModeEntry
mode_list =
    entry 800 600 false
    ∷ entry 800 600 false
    ∷ entry 1024 768 true
    ∷ entry 1152 720 false
    ∷ entry 1152 864 false
    ∷ entry 1152 900 false
    ∷ entry 1280 720 false
    ∷ entry 1280 768 false
    ∷ entry 1280 800 false
    ∷ entry 1280 960 false
    ∷ entry 1280 1024 false
    ∷ entry 1366 768 false
    ∷ entry 1376 1032 false
    ∷ entry 1400 1050 false
    ∷ entry 1440 900 false
    ∷ entry 1600 900 false
    ∷ entry 1600 1200 false
    ∷ entry 1680 1050 false
    ∷ entry 1920 1080 false
    ∷ entry 1920 1200 false
    ∷ entry 1920 1440 false
    ∷ entry 2048 1152 false
    ∷ entry 2048 1536 false
    ∷ entry 2360 1770 false
    ∷ entry 2560 1440 false
    ∷ entry 2560 1600 false
    ∷ []

pub record Framebuffer : Type 0 where
  pub num_active_modes : ℕ
  pub modes : List ℕ
  pub display_mode : ℕ
  pub custom_switch : ℕ
  pub custom_mode_switched : Bool
  pub custom_mode : DisplayModeEntry

-- Mode 1 is the custom mode, whatever the table says of it.
pub get_display_mode : Framebuffer → ℕ → Option DisplayModeEntry
get_display_mode f id =
    if id == 1
    then some f.custom_mode
    else (if leb 1 id && leb id 26 then get_elem? mode_list (id - 1) else none)

-- The loop of TryDetectCurrentDisplayMode over the entries from index `i` on; `table_default` is 0
-- as long as no default was seen.
pub detect_loop : List DisplayModeEntry → (i w h table_default default_mode : ℕ) → ℕ
detect_loop [] i w h table_default default_mode =
    if table_default == 0 then default_mode else table_default
detect_loop (m ∷ ms) i w h table_default default_mode =
    let rest =
      detect_loop ms (i + 1) w h (if m.default then i + 1 else table_default) default_mode in
    if (w == m.width) && (h == m.height) then i + 1 else rest

-- The loop starts behind the entry of the custom mode.
abbrev pub tail : List DisplayModeEntry → List DisplayModeEntry
tail [] = []
tail (m ∷ ms) = ms

pub try_detect_current_display_mode : (w h default_mode : ℕ) → ℕ
try_detect_current_display_mode w h default_mode = detect_loop (tail mode_list) 1 w h 0 default_mode

-- The first `n` entries of the array of modes.
abbrev pub take : ℕ → List ℕ → List ℕ
take zero is = []
take (suc n) [] = []
take (suc n) (i ∷ is) = i ∷ take n is

pub get_display_modes : Framebuffer → List ℕ
get_display_modes f = if not (f.custom_switch == 0) then 1 ∷ [] else take f.num_active_modes f.modes

pub get_display_mode_count : Framebuffer → ℕ
get_display_mode_count f = if not (f.custom_switch == 0) then 1 else f.num_active_modes

-- The nominal size, where getInformationForDisplayMode succeeds.
pub get_information : Framebuffer → ℕ → Option (ℕ × ℕ)
get_information f id = elim (get_display_mode f id) [
  | none ↦ none
  | some m ↦ some (m.width, m.height)
]

-- `((activeWidth + 7U) & (~7U)) << 2` on a uint32_t.
pub aligned_bytes_per_row : ℕ → ℕ
aligned_bytes_per_row width = (width + 7) % 2 ^ 32 / 8 * 8 * 4 % 2 ^ 32

-- The active size and the bytes of a row; the system's aperture is number 0.
pub get_pixel_information : Framebuffer → (id depth aperture : ℕ) → Option (ℕ × ℕ × ℕ)
get_pixel_information f id depth aperture =
    if not (aperture == 0)
    then none
    else (if not (depth == 0) then none else elim (get_display_mode f id) [
      | none ↦ none
      | some m ↦ some (m.width, m.height, aligned_bytes_per_row m.width)
    ])

-- RestoreAllModes' loop: the first slot from `i` on, of the `n` that are left, whose mode has not
-- the size of the custom mode.
pub find_slot : Framebuffer → (n i : ℕ) → Option ℕ
find_slot f zero i = none
find_slot f (suc n) i =
    let later = find_slot f n (i + 1) in
    elim (get_display_mode f (get_or f.modes i 0)) [
      | none ↦ later
      | some m ↦
          if not (m.width == f.custom_mode.width) || not (m.height == f.custom_mode.height)
          then some i
          else later
    ]

abbrev pub swap_first : List ℕ → ℕ → List ℕ
swap_first modes i = set (set modes 0 (get_or modes i 0)) i (get_or modes 0 0)

-- The event that the connection has changed is left out.
pub restore_all_modes : Framebuffer → Framebuffer
restore_all_modes f =
    if not (f.custom_switch == 2) then f else elim (find_slot f f.num_active_modes 0) [
      | none ↦ f
      | some i ↦ record f {
        modes = swap_first f.modes i;
        custom_mode_switched = true;
        custom_switch = 0;
      }
    ]

-- The limits of CustomMode: `if (w < lowest) w = lowest; else if (w > highest) w = highest`.
pub clamp : (lowest highest w : ℕ) → ℕ
clamp lowest highest w = if ltb w lowest then lowest else (if ltb highest w then highest else w)

-- What CustomMode asks for, before it wakes the window server: the size that is wanted, within the
-- limits, and whether it differs from that of the current mode.
pub request_custom_mode : (w h max_width max_height : ℕ) → Framebuffer → Bool × Framebuffer
request_custom_mode w h max_width max_height f =
    let w' = clamp 800 max_width w in
    let h' = clamp 600 max_height h in
    elim (get_display_mode f f.display_mode) [
      | none ↦ (false, f)
      | some m ↦ if (w' == m.width) && (h' == m.height) then (false, f) else (
        true,
        record f {
          custom_mode = record f.custom_mode { width = w'; height = h' };
          custom_switch = 1;
        },
      )
    ]

-- setDisplayMode while the custom mode is switched: the mode is noted, and the adapter is left as it
-- is. Otherwise `none`: the adapter's mode is set as well.
pub note_display_mode : ℕ → Framebuffer → Option Framebuffer
note_display_mode id f = elim (get_display_mode f id) [
  | none ↦ none
  | some m ↦
      if f.custom_mode_switched
      then some (record f {
        custom_mode_switched =
            not ((f.custom_mode.width == m.width) && (f.custom_mode.height == m.height));
        display_mode = id;
      })
      else none
]

-- ConvertAlphaCursor: a pixel of 32 bits, whose alpha is in the highest 8. The parts that the code
-- joins by `|` do not overlap, so they are added.
abbrev pub channel : ℕ → ℕ → ℕ → ℕ
channel pixel unit alpha = pixel / unit % 256 * alpha / 255

pub convert_pixel : ℕ → ℕ
convert_pixel pixel =
    let alpha = pixel / 0x100_0000 in
    if (alpha == 0) || (alpha % 256 == 255)
    then pixel
    else alpha * 0x100_0000
      + channel pixel 0x1_0000 alpha * 0x1_0000
      + channel pixel 0x100 alpha * 0x100
      + channel pixel 1 alpha

pub convert_alpha_cursor : List ℕ → List ℕ
convert_alpha_cursor [] = []
convert_alpha_cursor (pixel ∷ pixels) = convert_pixel pixel ∷ convert_alpha_cursor pixels
