-- ===== src/Surface/Reshape.antt =====
-- VMsvga2Surface.cpp: set_shape_backing_length_ext, by which the window server gives a surface its
-- shape and, if it likes, its own memory.
use docker_macos.Base.{
  ℕ, ◌*◌, ◌%◌, ◌^◌, Bool, true, false, not, ◌&&◌, ◌||◌, Option, none, some, ltb, leb, ◌==◌,
  if◌then◌else◌,
}
use docker_macos.Accel.{Region, int16}
use docker_macos.Base.Word.{u32}
use docker_macos.Surface.{
  Kernel, Surface, Status, success, bad_argument, not_ready, no_memory, overrun, no_space,
  no_client, in_world,
}
use docker_macos.Surface.Shape.{
  sign_extend, is_region_empty, calculate_scale_parameters, clear_last_region,
}
use docker_macos.Surface.Overlays.{video_reshape}

-- The arguments: `fits` says whether there is a region, in as many bytes as it needs; `identity_scale`
-- is the bit of that name of the options.
pub record Request : Type 0 where
  pub options : ℕ
  pub identity_scale : Bool
  pub framebuffer_index : ℕ
  pub backing : ℕ
  pub row_bytes : ℕ
  pub backing_length : ℕ
  pub region : Region
  pub region_size : ℕ
  pub fits : Bool

abbrev pub mul64 : ℕ → ℕ → ℕ
mul64 a b = a * b % 2 ^ 64

-- The row bytes and the length of the client's memory, or `none` for kIOReturnOverrun.
unfoldable pub client_size : (w h bytes_per_pixel row_bytes backing_length : ℕ) → Option (ℕ × ℕ)
client_size w h bytes_per_pixel row_bytes backing_length =
    let min_row_bytes = mul64 (sign_extend w) bytes_per_pixel in
    let default = (row_bytes == 0) || leb (2 ^ 63) row_bytes in
    let row = if default then min_row_bytes else row_bytes in
    let min_size = mul64 (sign_extend h) row in
    let size = if backing_length == 0 then min_size else backing_length in
    if not default && ltb row_bytes min_row_bytes
    then none
    else if not (backing_length == 0) && ltb backing_length min_size
    then none
    else some (row, size)

-- The client's memory, if it is given, replaces what has been cleared before; a descriptor of the
-- old one is marked as out of date.
unfoldable pub set_client : {W : Type 0} → Request → Surface W → Option (Surface W)
set_client q s =
    if q.backing == 0
    then some s
    else elim (client_size q.region.bounds.w q.region.bounds.h s.format.bytes_per_pixel q.row_bytes
        q.backing_length) [
          | none ↦ none
          | some (row, size) ↦ some (record s {
            client = record { addr = q.backing; row_bytes = row; size = size };
            memory = record s.memory { gart_ptr = if not (s.memory.gart_ptr == 0) then 2 else 0 };
          })
        ]

module _ {W : Type 0} (k : Kernel W) where
  unfoldable pub identity_scale : Request → Surface W → Surface W
  identity_scale q s =
      if not (s.format.w_id == 1) || k.option_packed_backing
      then calculate_scale_parameters false (record s {
        scale = record s.scale {
          source_w = q.region.bounds.w;
          source_h = q.region.bounds.h;
          buffer = record { x = 0; y = 0; w = q.region.bounds.w; h = q.region.bounds.h };
        };
      })
      else calculate_scale_parameters true (record s {
        scale = record s.scale {
          buffer = q.region.bounds;
          source_w = int16 s.screen.w;
          source_h = int16 s.screen.h;
        };
      })

  -- Once the region has been copied.
  unfoldable pub adopt_shape : Request → Surface W → Surface W
  adopt_shape q s =
      let t = record s {
        last_region = some q.region;
        framebuffer_index = q.framebuffer_index % u32;
      } in
      let u = if q.identity_scale then identity_scale q t else t in
      let v = video_reshape k u in
      if (v.format.w_id == 1) && (q.options == 5)
      then record v { flags = record v.flags { skip_write_lock_once = true } }
      else v

  unfoldable pub copy_shape : Request → Surface W → Status × Surface W
  copy_shape q s =
      let (ok, w) = k.shape_bytes s.transfer.world in
      if not ok
      then (no_memory, record (in_world w s) { client = no_client })
      else (success, adopt_shape q (record (in_world w s) { has_last_shape = true }))

  unfoldable pub set_shape : Request → Surface W → Status × Surface W
  set_shape q s =
      let t = record (clear_last_region s) { client = no_client } in
      if not q.fits
      then (bad_argument, s)
      else if ltb 4096 q.region_size
      then (no_space, s)
      else if not s.flags.video_mode && is_region_empty q.region
      then (success, t)
      else if not s.flags.have_id
      then (not_ready, t)
      else elim (set_client q t) [ none ↦ (overrun, t) | some u ↦ copy_shape q u ]
