-- ===== src/QemuDisplay.antt =====
-- kexts/QEMUDisplay/src/QEMUDisplay.cpp: a framebuffer in VGA mode with a fixed list of modes. The
-- superclass IOFramebuffer is not part of the repository: it is an argument where it is called.
pub mod Modes
pub mod Interface
pub mod Edid
mod Tests
use docker_macos.Base.{
  ℕ, zero, suc, ◌+◌, ◌*◌, ◌%◌, ◌^◌, Bool, true, false, not, ◌||◌, Option, none, some, List, [], ◌∷◌,
  map, length, ltb, ◌==◌, if◌then◌else◌,
}

pub data Answer : Type 0 where
  success bad_argument unsupported : Answer

pub record ModeInfo : Type 0 where
  pub id : ℕ
  pub width : ℕ
  pub height : ℕ
  pub refresh_rate : ℕ

-- A mode of `hz` frames per second; the rate is fixed-point 16.16.
abbrev pub mode : (id width height hz : ℕ) → ModeInfo
mode id width height hz = record {
  id = id;
  width = width;
  height = height;
  refresh_rate = hz * 0x1_0000;
}

abbrev pub modes : List ModeInfo
modes =
    mode 1 1920 1080 60
    ∷ mode 2 2560 1440 60
    ∷ mode 3 1280 720 60
    ∷ mode 4 1600 900 60
    ∷ mode 5 3840 2160 30
    ∷ []

-- The loop over the modes: the first whose identifier is the one that is asked for.
unfoldable pub find_mode : List ModeInfo → ℕ → Option ModeInfo
find_mode [] id = none
find_mode (m ∷ ms) id = let rest = find_mode ms id in if m.id == id then some m else rest

-- The object: the hardware's limits, the current mode and the handler for connect interrupts.
pub record Display : Type 0 where
  pub vram_size : ℕ
  pub max_width : ℕ
  pub max_height : ℕ
  pub current_width : ℕ
  pub current_height : ℕ
  pub connect_proc : Option ℕ

-- What getInformationForDisplayMode fills in; the other fields are 0.
pub record Information : Type 0 where
  pub max_depth_index : ℕ
  pub nominal_width : ℕ
  pub nominal_height : ℕ
  pub refresh_rate : ℕ
  pub flags : ℕ

-- What getPixelInformation fills in, but for the pixel format and type.
pub record PixelInformation : Type 0 where
  pub bytes_per_row : ℕ
  pub bits_per_pixel : ℕ
  pub component_count : ℕ
  pub bits_per_component : ℕ
  pub active_width : ℕ
  pub active_height : ℕ

pub record Timing : Type 0 where
  pub horizontal_active : ℕ
  pub vertical_active : ℕ
  pub pixel_clock : ℕ

-- `readReg` as a function from the register's number.
pub init_device : (ℕ → ℕ) → Display → Display
init_device read_reg d = record d {
  vram_size = read_reg 15;
  max_width = read_reg 4;
  max_height = read_reg 5;
  current_width = 1920;
  current_height = 1080;
}

pub get_display_mode_count : ℕ
get_display_mode_count = length modes

pub get_display_modes : List ℕ
get_display_modes = map (λ m. m.id) modes

pub get_information : ℕ → Option Information
get_information id = elim (find_mode modes id) [
  | none ↦ none
  | some m ↦ some (record {
    max_depth_index = 0;
    nominal_width = m.width;
    nominal_height = m.height;
    refresh_rate = m.refresh_rate;
    flags = 0;
  })
]

-- `modes[i].width * 4` on a uint32_t.
abbrev pub pixels : ModeInfo → PixelInformation
pixels m = record {
  bytes_per_row = m.width * 4 % 2 ^ 32;
  bits_per_pixel = 32;
  component_count = 3;
  bits_per_component = 8;
  active_width = m.width;
  active_height = m.height;
}

pub get_pixel_information : (id depth : ℕ) → Option PixelInformation
get_pixel_information id depth =
    if not (depth == 0)
    then none
    else elim (find_mode modes id) [ none ↦ none | some m ↦ some (pixels m) ]

-- The mode and the depth.
pub get_current_display_mode : Display → ℕ × ℕ
get_current_display_mode d = (1, 0)

pub set_display_mode : ℕ → Display → Answer × Display
set_display_mode id d = elim (find_mode modes id) [
  | none ↦ (bad_argument, d)
  | some m ↦ (success, record d { current_width = m.width; current_height = m.height })
]

-- getApertureRange: `vram` says whether the PCI device has video memory, `with_sub_range` is what
-- IODeviceMemory answers for a start in it and a length. The aperture for the system is number 0.
-- IOByteCount has 64 bits.
pub get_aperture_range :
    {R : Type 0}
    → (vram : Bool) → (with_sub_range : (start length : ℕ) → Option R) → (aperture : ℕ) → Display
    → Option R
get_aperture_range vram with_sub_range aperture d =
    if not (aperture == 0)
    then none
    else if not vram
    then none
    else with_sub_range 0 (d.current_width * d.current_height * 4 % 2 ^ 64)

pub get_timing_info : ℕ → Option Timing
get_timing_info id = elim (find_mode modes id) [
  | none ↦ none
  | some m ↦ some (record {
    horizontal_active = m.width;
    vertical_active = m.height;
    pixel_clock = m.width * m.height * 60 % 2 ^ 64;
  })
]

-- The handle is the type and one; the handler of the connect interrupt is kept.
pub register_for_interrupt_type :
    (connect_interrupt_type interrupt_type proc : ℕ) → Display → ℕ × Display
register_for_interrupt_type connect_interrupt_type interrupt_type proc d = (
  (interrupt_type + 1) % 2 ^ 32,
  (if interrupt_type == connect_interrupt_type then record d { connect_proc = some proc } else d),
)

-- The first bytes of the EDID, as many as the caller has room for.
abbrev pub take : ℕ → List ℕ → List ℕ
take zero bs = []
take (suc n) [] = []
take (suc n) (b ∷ bs) = b ∷ take n bs

-- getDDCBlock: `length` is `none` for a null pointer, and `has_data` tells whether the other is not.
pub get_ddc_block :
    (edid : List ℕ) (block_number : ℕ) (has_data : Bool) → Option ℕ → Option (List ℕ)
get_ddc_block edid block_number has_data none = none
get_ddc_block edid block_number has_data (some length) =
    if not (block_number == 1) || not has_data
    then none
    else (let copy_len = if ltb length 128 then length else 128 in some (take copy_len edid))
