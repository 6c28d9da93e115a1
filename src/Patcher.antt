-- ===== src/Patcher.antt =====
-- kexts/QEMUDisplayPatcher/src/patcher.cpp: the methods that stand in for those of IONDRVFramebuffer.
-- The original methods are reached through trampolines, which are arguments.
pub mod Queried
pub mod Modes
pub mod Hooks
pub mod Edid
mod Tests
use docker_macos.Base.{
  ℕ, zero, suc, ◌+◌, ◌*◌, ◌%◌, ◌^◌, Bool, true, false, not, ◌||◌, ◌&&◌, Option, none, some, List,
  [], ◌∷◌, map, length, ltb, ◌==◌, if◌then◌else◌, bit_or,
}
use docker_macos.Base.Word.{add32}
use docker_macos.QemuDisplay.{
  ModeInfo, mode, find_mode, Information, PixelInformation, Timing, pixels, take,
}

-- What a method answers: a value with code 0, or an IOReturn that is not 0.
pub data Reply (A : Type 0) : Type 0 where
  good : A → Reply A
  bad : ℕ → Reply A

abbrev pub bad_argument : ℕ
bad_argument = 0xe00002bc

abbrev pub not_found : ℕ
not_found = 0xe00002c2

abbrev pub unsupported : ℕ
unsupported = 0xe00002c7

abbrev pub modes : List ModeInfo
modes =
    mode 1 1920 1080 60
    ∷ mode 2 2560 1440 60
    ∷ mode 3 5120 2880 60
    ∷ mode 4 3840 2160 60
    ∷ mode 5 3008 1692 60
    ∷ mode 6 2048 1152 60
    ∷ mode 7 1680 945 60
    ∷ mode 8 1280 720 60
    ∷ []

-- Numbers of IOKit's headers, which are not part of the repository.
pub record IoKit : Type 0 where
  pub hardware_cursor_attribute : ℕ
  pub connection_enable : ℕ
  pub connection_check_enable : ℕ
  pub connection_flags : ℕ
  pub connection_supports_hlddc_sense : ℕ
  pub connection_supports_apple_sense : ℕ
  pub valid_flag : ℕ
  pub safe_flag : ℕ
  pub default_flag : ℕ

-- The globals: the mode's size, the calls of each hook, and the bits of gModesQueriedMask.
pub record Globals : Type 0 where
  pub current_width : ℕ
  pub current_height : ℕ
  pub hook_counters : ℕ → ℕ
  pub modes_queried : ℕ → Bool

-- QDP_COUNT, for a hook by its number.
pub count_call : ℕ → Globals → Globals
count_call hook g = record g {
  hook_counters = λ i. if i == hook then add32 (g.hook_counters i) 1 else g.hook_counters i;
}

-- `__sync_fetch_and_or(&gModesQueriedMask, (uint64_t)1 << i)`
pub mark : ℕ → Globals → Globals
mark i g = record g { modes_queried = λ j. if j == i then true else g.modes_queried j }

-- The loop over the modes, with the index of the mode that is found.
pub find_index : List ModeInfo → ℕ → ℕ → Option (ℕ × ModeInfo)
find_index [] i id = none
find_index (m ∷ ms) i id =
    let rest = find_index ms (i + 1) id in if m.id == id then some (i, m) else rest

abbrev pub mode_flags : IoKit → ℕ → ℕ
mode_flags k i =
    let flags = bit_or k.valid_flag k.safe_flag in
    if i == 0 then bit_or flags k.default_flag else flags

pub patched_has_ddc_connect : Globals → Bool × Globals
patched_has_ddc_connect g = (true, count_call 1 g)

pub patched_set_gamma_table : Globals → ℕ × Globals
patched_set_gamma_table g = (0, count_call 3 g)

pub patched_set_attribute_for_connection : Globals → ℕ × Globals
patched_set_attribute_for_connection g = (0, count_call 5 g)

-- patchedGetDDCBlock. `length` is `none` for a null pointer, and `has_data` tells whether the other
-- is not. The blocks are arguments.
pub patched_get_ddc_block :
    (block0 block1 : List ℕ) (bn : ℕ) (has_data : Bool)
    → Option ℕ
    → Globals
    → Reply (List ℕ) × Globals
patched_get_ddc_block block0 block1 bn has_data none g = (bad bad_argument, count_call 2 g)
patched_get_ddc_block block0 block1 bn has_data (some length) g =
    let copy_len = if ltb length 128 then length else 128 in
    if not has_data
    then (bad bad_argument, count_call 2 g)
    else (if bn == 1
        then (good (take copy_len block0), count_call 2 g)
        else (if bn == 2
            then (good (take copy_len block1), count_call 2 g)
            else (bad bad_argument, count_call 2 g)))

pub patched_get_display_mode_count : Globals → ℕ × Globals
patched_get_display_mode_count g = (length modes, count_call 8 g)

pub patched_get_display_modes : (all_modes : Bool) → Globals → Reply (List ℕ) × Globals
patched_get_display_modes all_modes g =
    if not all_modes
    then (bad bad_argument, count_call 9 g)
    else (good (map (λ m. m.id) modes), count_call 9 g)

-- The pointers `info` are given as whether they are not null.
pub patched_get_information : IoKit → (id : ℕ) (info : Bool) → Globals → Reply Information × Globals
patched_get_information k id info g =
    if not info then (bad bad_argument, count_call 10 g) else elim (find_index modes 0 id) [
      | none ↦ (bad not_found, count_call 10 g)
      | some (i, m) ↦ (
        good (record {
          max_depth_index = 0;
          nominal_width = m.width;
          nominal_height = m.height;
          refresh_rate = m.refresh_rate;
          flags = mode_flags k i;
        }),
        mark i (count_call 10 g),
      )
    ]

pub patched_get_pixel_information :
    (id depth : ℕ) (info : Bool) → Globals → Reply PixelInformation × Globals
patched_get_pixel_information id depth info g =
    if not info || not (depth == 0)
    then (bad bad_argument, count_call 11 g)
    else elim (find_mode modes id) [
      | none ↦ (bad not_found, count_call 11 g)
      | some m ↦ (good (pixels m), count_call 11 g)
    ]

pub patched_get_current_display_mode : Globals → (ℕ × ℕ) × Globals
patched_get_current_display_mode g = ((1, 0), count_call 12 g)

-- The code is 0 for success.
pub patched_set_display_mode : (id : ℕ) → Globals → ℕ × Globals
patched_set_display_mode id g = elim (find_mode modes id) [
  | none ↦ (not_found, count_call 13 g)
  | some m ↦ (0, record (count_call 13 g) { current_width = m.width; current_height = m.height })
]

pub patched_get_pixel_formats_for_display_mode : Globals → ℕ × Globals
patched_get_pixel_formats_for_display_mode g = (0, count_call 14 g)

pub patched_get_timing_info : (id : ℕ) (info : Bool) → Globals → Reply Timing × Globals
patched_get_timing_info id info g =
    if not info then (bad bad_argument, count_call 15 g) else elim (find_mode modes id) [
      | none ↦ (bad not_found, count_call 15 g)
      | some m ↦ (
        good (record {
          horizontal_active = m.width;
          vertical_active = m.height;
          pixel_clock = m.width * m.height * 60 % 2 ^ 64;
        }),
        count_call 15 g,
      )
    ]

pub patched_get_connection_count : Globals → ℕ × Globals
patched_get_connection_count g = (1, count_call 16 g)

-- The size of the range that patchedGetApertureRange makes of the video memory for the system's
-- aperture.
pub patched_aperture_size : Globals → ℕ
patched_aperture_size g = g.current_width * g.current_height * 4 % 2 ^ 64

-- What an original answers: a code, and the value if it stores one.
abbrev pub Original : Type 0
Original = ℕ → ℕ × Option ℕ

abbrev pub delegate : Option Original → ℕ → ℕ × Option ℕ
delegate none attr = (unsupported, none)
delegate (some original) attr = original attr

-- `stored` is the value that is stored through a pointer that is not null.
pub patched_get_attribute :
    IoKit → Option Original → (attr : ℕ) → Globals → (ℕ × Option ℕ) × Globals
patched_get_attribute k original attr g =
    if attr == k.hardware_cursor_attribute
    then ((0, some 0), count_call 18 g)
    else (delegate original attr, count_call 18 g)

pub patched_get_attribute_for_connection :
    IoKit → Option Original → (attr : ℕ) → Globals → (ℕ × Option ℕ) × Globals
patched_get_attribute_for_connection k original attr g =
    if (attr == k.connection_enable) || (attr == k.connection_check_enable)
    then ((0, some 1), count_call 19 g)
    else (if attr == k.connection_flags
        then ((0, some 0), count_call 19 g)
        else (if attr == k.connection_supports_hlddc_sense
            then ((0, none), count_call 19 g)
            else (if attr == k.connection_supports_apple_sense
                then ((unsupported, none), count_call 19 g)
                else (delegate original attr, count_call 19 g))))

-- The handle that is stored.
pub patched_register_for_interrupt_type : (type : ℕ) → Globals → ℕ × Globals
patched_register_for_interrupt_type type g = (add32 type 1, count_call 20 g)

pub patched_unregister_interrupt : Globals → ℕ × Globals
patched_unregister_interrupt g = (0, count_call 21 g)

pub patched_set_interrupt_state : Globals → ℕ × Globals
patched_set_interrupt_state g = (0, count_call 22 g)

pub patched_connect_flags :
    IoKit → Option Original → (mode_id : ℕ) (flags : Bool) → Globals → (ℕ × Option ℕ) × Globals
patched_connect_flags k original mode_id flags g =
    if not flags
    then ((bad_argument, none), count_call 23 g)
    else elim (find_index modes 0 mode_id) [
      | some (i, m) ↦ ((0, some (mode_flags k i)), count_call 23 g)
      | none ↦ elim original [
        | none ↦ ((0, some 0), count_call 23 g)
        | some org ↦ (org mode_id, count_call 23 g)
      ]
    ]
