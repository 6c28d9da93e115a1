-- ===== src/Surface/Overlays.antt =====
-- VMsvga2Surface.cpp: the overlay of a surface, and what it has of the front buffer.
use docker_macos.Base.{
  ℕ, ◌%◌, Bool, true, false, not, ◌||◌, Option, none, some, ◌==◌, if◌then◌else◌,
}
use docker_macos.Base.Word.{u32}
use docker_macos.Ids.{alloc_stream_id, free_stream_id}
use docker_macos.Transfer.{id_invalid}
use docker_macos.Surface.{
  Kernel, Surface, PixelFormat, depth8888, bgra32, Status, success, not_ready, unsupported,
  no_resources, no_device, Overlay, in_world, is_backing_valid,
}
use docker_macos.Surface.Shape.{mul32, no_rect, is_region_empty, have_front_buffer}

-- The two formats that the switch knows.
unfoldable pub video_format : (vmware_pixel_format : ℕ) (old : ℕ) → ℕ
video_format vmware_pixel_format old =
    if vmware_pixel_format == 0x5956_5955
    then 42
    else if vmware_pixel_format == 0x3259_5559
    then 43
    else old

unfoldable pub is_bgra32 : PixelFormat → Bool
is_bgra32 bgra32 = true
is_bgra32 p = false

module _ {W : Type 0} where
  -- Without a shape nothing is done.
  unfoldable pub set_video_dest : Surface W → Bool × Surface W
  set_video_dest s = elim s.last_region [
    | none ↦ (false, s)
    | some r ↦
        let dst = if is_region_empty r then no_rect else r.bounds in
        (true, record s { video = record s.video { unit = record s.video.unit { dst = dst } } })
  ]

  unfoldable pub set_video_regs : Surface W → Bool × Surface W
  set_video_regs s = if not (is_backing_valid s) then (false, s) else (
    true,
    record s {
      video = record s.video {
        unit = record {
          enabled = false;
          data_offset = s.memory.offset % u32;
          format = s.video.vmware_pixel_format;
          width = s.scale.source_w;
          height = s.scale.source_h;
          src = s.scale.buffer;
          dst = no_rect;
          pitch = s.scale.pitch;
          size = mul32 s.scale.source_h s.scale.pitch;
          data_gmr_id = s.transfer.buffer.gmr_id;
          dst_screen_id = s.framebuffer_index;
        };
      };
    },
  )

module _ {W : Type 0} (k : Kernel W) where
  -- The accelerator's VideoSetRegsInRange with the fence of the backing: `none` is an accelerator
  -- without its device, which leaves the fence.
  unfoldable pub set_regs : Option Overlay → (min_reg max_reg : ℕ) → Surface W → Status × Surface W
  set_regs regs min_reg max_reg s =
      let (f, w) =
        k.video_set_regs_in_range s.video.stream_id regs min_reg max_reg s.transfer.world in
      elim f [
        | none ↦ (no_device, in_world w s)
        | some fence ↦ (
          success,
          record s {
            transfer = record s.transfer {
              world = w;
              buffer = record s.transfer.buffer { fence = fence };
            };
          },
        )
      ]

  unfoldable pub video_reshape : Surface W → Surface W
  video_reshape s =
      let (ok, t) = set_video_dest s in
      if not s.flags.video_mode || not s.video.unit.enabled
      then s
      else if not ok
      then t
      else (set_regs (some t.video.unit) 12 15 t).1

  unfoldable pub surface_video_off : Surface W → Status × Surface W
  surface_video_off s =
      if not s.flags.video_mode || not s.video.unit.enabled then (success, s) else (
        success,
        record s {
          video = record s.video {
            unit = record s.video.unit { enabled = false };
            stream_id = id_invalid;
          };
          transfer = record s.transfer {
            world = k.video_set_reg s.video.stream_id 0 0 s.transfer.world;
            ids = free_stream_id s.video.stream_id s.transfer.ids;
          };
        },
      )

  -- surface_flush_video, once AllocStreamID has given a stream.
  unfoldable pub start_stream : Surface W → Status × Surface W
  start_stream s =
      let t = (set_video_dest (set_video_regs s).1).1 in
      let on = record t {
        video = record t.video { unit = record t.video.unit { enabled = true } };
      } in
      set_regs (some on.video.unit) 0 20 on

  unfoldable pub surface_flush_video : Surface W → Status × Surface W
  surface_flush_video s =
      let (r, ids') = alloc_stream_id s.transfer.ids in
      let with_stream = λ (id : ℕ). record s {
        video = record s.video { stream_id = id };
        transfer = record s.transfer { ids = ids' };
      } in
      if not s.flags.have_id
        || (elim s.last_region [ none ↦ true | some x ↦ false ])
        || not (is_backing_valid s)
      then (not_ready, s)
      else if not s.flags.video_mode
      then (unsupported, s)
      else if s.video.unit.enabled
      then set_regs none 0 0 s
      else elim r [
        | none ↦ (no_resources, with_stream id_invalid)
        | some id ↦ start_stream (with_stream id)
      ]

  -- Start3D. With a screen object nothing is tested.
  unfoldable pub start_3d : Surface W → Surface W
  start_3d s =
      let screen = k.have_screen s.transfer.world in
      let (master, w) = k.retain_master_surface s.transfer.world in
      let (direct, w') = k.test_direct_blit w in
      let f = record s.flags { have_screen_object = screen } in
      if screen
      then record s { flags = f }
      else if not master
      then record (in_world w s) { flags = record f { have_master_surface = false } }
      else if k.option_direct_blit
      then record (in_world w s) {
        flags = record f { have_master_surface = true; direct_blit = true };
      }
      else record (in_world w' s) {
        flags = record f { have_master_surface = true; direct_blit = direct };
      }

  unfoldable pub cleanup_3d : Surface W → Surface W
  cleanup_3d s =
      let w = k.release_master_surface s.transfer.world in
      let f = record s.flags { have_master_surface = false; have_screen_object = false } in
      if not (have_front_buffer s)
      then s
      else if s.flags.have_master_surface
      then record (in_world w s) { flags = f }
      else record s { flags = f }

  unfoldable pub leave_video : PixelFormat → Surface W → Surface W
  leave_video apple_pixel_format s =
      let off = (surface_video_off s).1 in
      let f =
        if is_bgra32 apple_pixel_format
        then record off.format { surface_format = 2; bytes_per_pixel = 4; pixel_format = depth8888 }
        else off.format in
      let t = record off { flags = record off.flags { video_mode = false }; format = f } in
      if not (have_front_buffer t) then start_3d t else t

  unfoldable pub context_set_surface :
      (vmware_pixel_format : ℕ) → PixelFormat → Surface W → Status × Surface W
  context_set_surface vmware_pixel_format apple_pixel_format s =
      if vmware_pixel_format == 0
      then (success, leave_video apple_pixel_format s)
      else if k.option_no_yuv
      then (unsupported, s)
      else (
        success,
        cleanup_3d (record s {
          flags = record s.flags { video_mode = true };
          video = record s.video {
            vmware_pixel_format = vmware_pixel_format;
            unit = record s.video.unit { enabled = false };
          };
          format = record s.format {
            surface_format = video_format vmware_pixel_format s.format.surface_format;
            bytes_per_pixel = 2;
            pixel_format = apple_pixel_format;
          };
        }),
      )
