-- ===== src/Surface/Tests.antt =====
-- Surfaces at concrete states.
pub mod History
use docker_macos.Base.{
  ℕ, ◌+◌, ◌-◌, ◌*◌, ◌%◌, ◌^◌, ◌≤◌, ◌<◌, ◌≡◌, ◌⊎◌, refl, Bool, not, true, false, none, some, List,
  [], ◌∷◌, ◌==◌, if◌then◌else◌, arith,
}
use docker_macos.Svga.Commands.{Rect}
use docker_macos.Ids.{alloc_gmr_id, alloc_from, find_bit_in_array64, find_bit, log_2_64, log_2_32}
use docker_macos.Transfer.{Provider, id_invalid, complete, discard, prepare, prepare_with, sync}
use docker_macos.Transfer.Regions.{Unchanged}
use docker_macos.Transfer.Tests.{ids, ids-IsValid}
use docker_macos.Surface
use docker_macos.Surface.{
  Kernel, Surface, Overlay, bgra32, depth8888, bare_memory, no_client, alloc_backing,
  is_backing_valid, drop_region, not_ready, cannot_lock,
}
use docker_macos.Surface.Backing.{IsBacked}
use docker_macos.Surface.Backing.Alloc.{alloc_backing_lem}
use docker_macos.Surface.Shape.{
  bits8888, calculate_scale_parameters, surface_control, clear_last_region, set_id_mode,
  set_mode_bits, depth_format, is_region_empty, round_up_to_page, source_size,
}
use docker_macos.Surface.Reshape.{
  Request, set_shape, set_client, copy_shape, adopt_shape, identity_scale, client_size,
}
use docker_macos.Surface.Lock.{
  surface_query_lock, surface_write_lock, write_locked, finish_write, map_memory,
  calculate_surface_information,
}
use docker_macos.Surface.Overlays.{surface_video_off, cleanup_3d, video_reshape, set_video_dest}
use docker_macos.Surface.Calls.{
  Call, set_mode, reshape, lock_read, unlock_read, lock_write, unlock_write, lock_memory,
  unlock_memory, perform, perform_all, cleanup,
}
use docker_macos.Surface.Life.{IsNew, new-IsBacked, cleanup-perform_all}
use docker_macos.Surface.Returned.{Handle, a_map, a_block, a_descriptor, Logs, holding}
use docker_macos.Surface.Sound.{perform_all-IsBacked}
use docker_macos.Surface.Exclusion.{write_lock-exclusive}
use docker_macos.Surface.Exclusion.Unmoved.{IsHeld}
use docker_macos.Surface.Exclusion.Outcome.{WriteLocked, write_lock_lem}
use docker_macos.Surface.Bounds.{IsPlain, calculate_scale_lem}

-- The world is the number of blocks of video memory that are out, of which there are as many as
-- fit; larger ones than a megabyte are refused. Everything else is granted.
abbrev quiet : Provider ℕ
quiet = record {
  md_prepare = λ w. (0, w);
  md_complete = λ w. w;
  md_release = λ w. w;
  create_gmr = λ id w. (0, w);
  drop_gmr = λ id w. w;
  wait_for_fence = λ fence w. w;
}

abbrev grant : ℕ → ℕ → ℕ → ℕ × ℕ
grant ptr size w =
    if (size == 0x4_0000) then (0, w) else if ptr == 0 then (0x1_0000, w + 1) else (ptr, w)

abbrev kernel : Kernel ℕ
kernel = record {
  provider = quiet;
  client_md = λ addr size w. (true, w);
  kernel_md = λ size w. (true, w);
  vram_realloc = grant;
  vram_free = λ ptr w. w - 1;
  map_vram = λ task offset size w. (0x7000, w);
  map_md = λ task w. (0x9000, w);
  release_map = λ map w. w;
  pageable_md = λ size w. (true, w);
  pageable_prepare = λ w. (0, w);
  pageable_map = λ task w. (0x5000, w);
  pageable_complete = λ w. w;
  pageable_release = λ w. w;
  fill = λ map value words w. w;
  shape_bytes = λ w. (true, w);
  create_primary_screen = λ x y w. (0, w);
  retain_master_surface = λ w. (true, w);
  release_master_surface = λ w. w;
  test_direct_blit = λ w. (true, w);
  have_screen = λ w. false;
  have_3d = λ w. true;
  option_packed_backing = false;
  option_no_yuv = false;
  option_direct_blit = false;
  video_set_reg = λ stream_id register_id value w. w;
  video_set_regs_in_range = λ stream_id regs min_reg max_reg w. (some 7, w);
}

abbrev none_rect : Rect
none_rect = record { x = 0; y = 0; w = 0; h = 0 }

abbrev pub surface : Surface ℕ
surface = record {
  transfer = record {
    buffer = record { has_md = false; gmr_id = id_invalid; fence = 0 };
    ids = ids;
    world = 0;
  };
  memory = bare_memory;
  client = no_client;
  scale = record {
    buffer = none_rect;
    source_w = 0;
    source_h = 0;
    byte_size = 0;
    pitch = 0;
    buffer_offset = 0;
  };
  screen = record { client_addr = 0; w = 800; h = 600; y = 0; client_row_bytes = 3200 };
  locks = record { read = false; write = false; context = false };
  flags = record {
    have_id = false;
    have_master_surface = true;
    have_screen_object = false;
    video_mode = false;
    direct_blit = false;
    skip_write_lock_once = false;
  };
  format = record { w_id = 0; surface_format = 0; bytes_per_pixel = 0; pixel_format = depth8888 };
  video = record {
    stream_id = id_invalid;
    vmware_pixel_format = 0;
    unit = record {
      enabled = false;
      data_offset = 0;
      format = 0;
      width = 0;
      height = 0;
      src = none_rect;
      dst = none_rect;
      pitch = 0;
      size = 0;
      data_gmr_id = 0;
      dst_screen_id = 0;
    };
  };
  owning_task = 3;
  has_last_shape = false;
  last_region = none;
  framebuffer_index = 0;
}

surface-IsNew : IsNew surface
surface-IsNew = record { valid = ids-IsValid; memory = refl; no_md = refl; no_region = refl }

-- A shape of w by h pixels at (10, 20), in memory of the kernel or of the client.
abbrev shape : (w h backing : ℕ) → Request
shape w h backing = record {
  options = 1;
  identity_scale = true;
  framebuffer_index = 0;
  backing = backing;
  row_bytes = 0;
  backing_length = 0;
  region = record {
    bounds = record { x = 10; y = 20; w = w; h = h };
    rects = record { x = 10; y = 20; w = w; h = h } ∷ [];
  };
  region_size = 20;
  fits = true;
}

abbrev mode : Call
mode = set_mode 5 (record { depth = bits8888; windowed = true; more = false })

abbrev pub session : List Call
session =
    mode
    ∷ reshape (shape 64 32 0)
    ∷ lock_write
    ∷ unlock_write
    ∷ reshape (shape 64 32 0x2_3400)
    ∷ lock_memory 9
    ∷ unlock_memory
    ∷ lock_read
    ∷ unlock_read
    ∷ []

surface-IsBacked : IsBacked ids surface
surface-IsBacked = new-IsBacked kernel surface surface-IsNew

-- With a shape of 64 by 32 pixels of four bytes.
abbrev sized : Surface ℕ
sized = record surface {
  scale = record {
    buffer = record { x = 0; y = 0; w = 64; h = 32 };
    source_w = 64;
    source_h = 32;
    byte_size = 8192;
    pitch = 256;
    buffer_offset = 0;
  };
  flags = record surface.flags { have_id = true };
  format = record { w_id = 5; surface_format = 1; bytes_per_pixel = 4; pixel_format = depth8888 };
}

sized-IsBacked : IsBacked ids sized
sized-IsBacked = record {
  region = surface-IsBacked.region;
  either = surface-IsBacked.either;
  vram = surface-IsBacked.vram;
  client = surface-IsBacked.client;
  unmapped = surface-IsBacked.unmapped;
}

alloc_backing_lem_example :
    IsBacked ids (alloc_backing kernel sized).1
    × ((alloc_backing kernel sized).0 ≡ true
        → is_backing_valid (alloc_backing kernel sized).1 ≡ true)
    × ((alloc_backing kernel sized).0 ≡ true
        → ◌≡◌ {A = ℕ} 0 0
        → 8192 ≤ (alloc_backing kernel sized).1.memory.size)
alloc_backing_lem_example = alloc_backing_lem kernel ids sized sized-IsBacked

perform_all-IsBacked_example : IsBacked ids (perform_all kernel session surface)
perform_all-IsBacked_example = perform_all-IsBacked kernel ids session surface surface-IsBacked

write_lock_lem_example : WriteLocked kernel false sized (surface_write_lock kernel true sized)
write_lock_lem_example = write_lock_lem kernel ids sized sized-IsBacked refl

abbrev held : Surface ℕ
held = record sized { locks = record { read = false; write = true; context = false } }

write_lock-exclusive_example :
    (((surface_write_lock kernel true (perform_all kernel (lock_read ∷ []) held)).0 ≡ not_ready)
      ⊎ ((surface_write_lock kernel true (perform_all kernel (lock_read ∷ []) held)).0
          ≡ cannot_lock))
    × ((surface_write_lock kernel true (perform_all kernel (lock_read ∷ []) held)).2
        ≡ perform_all kernel (lock_read ∷ []) held)
    × ((surface_write_lock kernel true (perform_all kernel (lock_read ∷ []) held)).1 ≡ none)
write_lock-exclusive_example =
    write_lock-exclusive kernel (lock_read ∷ []) held (tt, tt) (unfold IsHeld in (refl, refl))

sized-IsPlain : IsPlain sized
sized-IsPlain = record {
  own = refl;
  width = omega arith;
  height = omega arith;
  bytes = omega arith;
}

calculate_scale_lem_example :
    ((calculate_scale_parameters false sized).scale.pitch ≡ 256)
    × ((calculate_scale_parameters false sized).scale.byte_size % 4096 ≡ 0)
    × (32 * (calculate_scale_parameters false sized).scale.pitch
        ≤ (calculate_scale_parameters false sized).scale.byte_size)
    × ((calculate_scale_parameters false sized).scale.byte_size
        < 32 * (calculate_scale_parameters false sized).scale.pitch + 4096)
    × ((calculate_scale_parameters false sized).scale.buffer_offset
        ≡ 0 * (calculate_scale_parameters false sized).scale.pitch + 0 * 4)
    × ((calculate_scale_parameters false sized).scale.buffer_offset
          + 31 * (calculate_scale_parameters false sized).scale.pitch
          + 63 * 4
          + 4
        ≤ (calculate_scale_parameters false sized).scale.byte_size)
calculate_scale_lem_example =
    calculate_scale_lem sized sized-IsPlain 63 31 (omega arith) (omega arith) (omega arith)
      (omega arith)

-- A block of two pages that should become 64.
abbrev grown : Surface ℕ
grown = record sized {
  memory = record bare_memory { self = 0x1_0000; size = 8192 };
  scale = record sized.scale { byte_size = 0x4_0000 };
}

-- The same, with one block out.
abbrev full : Surface ℕ
full = record grown { transfer = record grown.transfer { world = 1 } }

abbrev in_use : ℕ → Bool
in_use w = not (w == 0)

-- What the window server is told of the surface: its address, size and row bytes.
told :
    (surface_write_lock kernel true
      (perform_all kernel (mode ∷ reshape (shape 64 32 0) ∷ []) surface)).1
    ≡ some (record {
      address = 0x7000;
      width = 64;
      height = 32;
      row_bytes = 256;
      pixel_format = depth8888;
    })
unfolding surface_write_lock perform_all perform set_shape set_id_mode set_mode_bits depth_format
    is_region_empty set_client copy_shape adopt_shape video_reshape set_video_dest identity_scale
    calculate_scale_parameters round_up_to_page source_size write_locked finish_write map_memory
    calculate_surface_information alloc_backing Surface.classify_backing Surface.alloc_new
    Surface.map_backing0 clear_last_region
told = refl

-- A surface that outgrows video memory never gives its block back.
leaked :
    (cleanup kernel
      (alloc_backing kernel
        (record grown { transfer = record grown.transfer { world = 1 } })).1).transfer.world
    ≡ 1
unfolding cleanup clear_last_region Surface.release_backing surface_video_off cleanup_3d
    Surface.adopt alloc_backing Surface.alloc_gmr_backing Surface.alloc_new Surface.classify_backing
    drop_region Surface.release_map0 Surface.release_map1 complete discard prepare prepare_with
    alloc_gmr_id sync alloc_from find_bit_in_array64 find_bit log_2_64 log_2_32
leaked = refl

-- No overflow is noticed in the size that the client's memory must have.
wrapped : client_size 64 0x4000 4 (2 ^ 50) 1 ≡ some (2 ^ 50, 1)
unfolding client_size
wrapped = refl

controls :
    (surface_control 4 0 ≡ (Surface.success, some 1))
    × (surface_control 7 0 ≡ (Surface.bad_argument, none))
unfolding surface_control
controls = (refl, refl)

queried : (surface_query_lock held ≡ cannot_lock) × (surface_query_lock sized ≡ Surface.success)
unfolding surface_query_lock
queried = (refl, refl)
