-- ===== src/Surface/Shape.antt =====
-- VMsvga2Surface.cpp: the identifier, the format, the scale, the shape and the overlay of a surface.
use docker_macos.Base.{
  ℕ, ◌+◌, ◌-◌, ◌*◌, ◌%◌, ◌^◌, Bool, true, false, not, ◌&&◌, ◌||◌, Option, none, some, [], ◌∷◌, ltb,
  ◌==◌, if◌then◌else◌,
}
use docker_macos.Base.Word.{u32, add32}
use docker_macos.Svga.Commands.{Rect}
use docker_macos.Accel.{Region, int16}
use docker_macos.Surface.{
  Kernel, Surface, Scale, PixelFormat, depth1555, depth8888, yuvs, vuy2, Status, success,
  bad_argument, unsupported, failed, in_world,
}

abbrev pub mul32 : ℕ → ℕ → ℕ
mul32 a b = a * b % u32

-- `v > 0` for the value of an int.
abbrev pub is_positive : ℕ → Bool
is_positive v = ltb 0 v && ltb v (2 ^ 31)

-- An int as a size_t.
abbrev pub sign_extend : ℕ → ℕ
sign_extend v = if ltb v (2 ^ 31) then v else 2 ^ 64 - u32 + v

unfoldable pub round_up_to_page : ℕ → ℕ
round_up_to_page s = let t = add32 s 4095 in t - t % 4096

abbrev pub no_rect : Rect
no_rect = record { x = 0; y = 0; w = 0; h = 0 }

unfoldable pub is_region_empty : Region → Bool
is_region_empty r = elim r.rects [
  | [] ↦ false
  | first ∷ rest ↦ not (is_positive first.w) || not (is_positive first.h)
]

abbrev pub is_client_backing_valid : {W : Type 0} → Surface W → Bool
is_client_backing_valid s = not (s.client.addr == 0)

abbrev pub is_source_valid : {W : Type 0} → Surface W → Bool
is_source_valid s = is_positive s.scale.source_w && is_positive s.scale.source_h

abbrev pub have_front_buffer : {W : Type 0} → Surface W → Bool
have_front_buffer s = s.flags.have_screen_object || s.flags.have_master_surface

-- The two words that come from the screen, the client or the source: the size before it is rounded,
-- and the pitch.
unfoldable pub source_size : {W : Type 0} → Bool → Surface W → ℕ × ℕ
source_size from_gfb s =
    let pitch = mul32 s.scale.source_w s.format.bytes_per_pixel in
    if from_gfb
    then (s.screen.y, s.screen.client_row_bytes)
    else if is_client_backing_valid s
    then ((s.client.size + s.client.addr % 4096) % u32, s.client.row_bytes % u32)
    else (mul32 s.scale.source_h pitch, pitch)

unfoldable pub calculate_scale_parameters : {W : Type 0} → Bool → Surface W → Surface W
calculate_scale_parameters from_gfb s =
    let (size, pitch) = source_size from_gfb s in
    record s {
      scale = record s.scale {
        byte_size = round_up_to_page size;
        pitch = pitch;
        buffer_offset =
            add32 (mul32 s.scale.buffer.y pitch) (mul32 s.scale.buffer.x s.format.bytes_per_pixel);
      };
    }

unfoldable pub clear_last_region : {W : Type 0} → Surface W → Surface W
clear_last_region s = elim s.last_region [
  | none ↦ s
  | some r ↦ record s { last_region = none; framebuffer_index = 0 }
]

-- The depths of the mode bits, whose numbers are IOKit's.
pub data Depth : Type 0 where
  bits1555 bits8888 bits_bgra32 bits_yuv bits_yuv2 other_bits : Depth

-- `more` says that another bit is set.
pub record ModeBits : Type 0 where
  pub depth : Depth
  pub windowed : Bool
  pub more : Bool

-- The switch over the depth: SVGA3D's format, the bytes of a pixel, and the pixel format.
unfoldable pub depth_format : Depth → Option (ℕ × ℕ × PixelFormat)
depth_format bits1555 = some (4, 2, depth1555)
depth_format bits8888 = some (1, 4, depth8888)
depth_format bits_bgra32 = some (2, 4, depth8888)
depth_format bits_yuv = some (43, 2, yuvs)
depth_format bits_yuv2 = some (42, 2, vuy2)
depth_format other_bits = none

unfoldable pub set_mode_bits : {W : Type 0} → (w_id : ℕ) → ModeBits → Surface W → Status × Surface W
set_mode_bits w_id bits s =
    if bits.more
    then (unsupported, s)
    else if not bits.windowed
    then (unsupported, s)
    else elim (depth_format bits.depth) [
      | none ↦ (unsupported, s)
      | some (f, b, p) ↦ (
        success,
        record s {
          format = record {
            w_id = w_id % u32;
            surface_format = f;
            bytes_per_pixel = b;
            pixel_format = p;
          };
          flags = record s.flags { have_id = true };
        },
      )
    ]

unfoldable pub set_id_mode :
    {W : Type 0} → Kernel W → (w_id : ℕ) → ModeBits → Surface W → Status × Surface W
set_id_mode k w_id bits s =
    let (rc, w) = k.create_primary_screen s.screen.w s.screen.h s.transfer.world in
    if w_id == 1
    then (if not (have_front_buffer s)
        then (unsupported, s)
        else if s.flags.have_screen_object
        then (if not (rc == 0)
            then (failed rc, in_world w s)
            else set_mode_bits w_id bits (in_world w s))
        else set_mode_bits w_id bits s)
    else set_mode_bits w_id bits s

-- `none` is a null pointer, or a size that is too small.
unfoldable pub set_scale : {W : Type 0} → Option Scale → Surface W → Status × Surface W
set_scale none s = (bad_argument, s)
set_scale (some scaling) s =
    (success, calculate_scale_parameters false (record s { scale = scaling }))

unfoldable pub context_scale_surface :
    {W : Type 0} → (fixed_source : Bool) (width height : ℕ) → Surface W → Status × Surface W
context_scale_surface fixed_source width height s = if not fixed_source then (success, s) else (
  success,
  calculate_scale_parameters false (record s {
    scale = record s.scale {
      source_w = int16 width;
      source_h = int16 height;
      buffer = record { x = 0; y = 0; w = int16 width; h = int16 height };
    };
  }),
)

-- `none` stands for a result that is not written.
unfoldable pub surface_control : (selector arg : ℕ) → Status × Option ℕ
surface_control selector arg =
    if selector == 1
    then (success, none)
    else if selector == 4
    then (success, some 1)
    else if selector == 5
    then (success, some 1)
    else (bad_argument, none)
