-- ===== src/Accel/Tests.antt =====
-- The theorems on blits and regions at the device of the tests of SVGADevice.
use docker_macos.Base.{ℕ, ◌≤◌, ◌≡◌, ◌≢◌, refl, true, false, none, some, [], ◌∷◌, arith}
use docker_macos.Svga.{Device, has_capability}
use docker_macos.Svga.Tests.{reader, reader-Drains, device, ring-IsFifo}
use docker_macos.Svga.Commands.{Rect, define_gmr}
use docker_macos.Svga.Fifo.Stream.{CanStream, Streamed, wire}
use docker_macos.Accel.{
  Status, success, unset, bad_argument, no_device, Accel, Region, moved, set_region, copy_region,
  copy_regions, blit_copy, update_framebuffer_auto_ring,
}
use docker_macos.Accel.Surfaces.{Extra, copy_boxes, create_surface}
use docker_macos.Accel.Blits.{copy_code, shifted_code, copy_region_lem}
use docker_macos.Accel.Regions.{Setting, page_list, destroy_gmr, destroy_gmr2}
use docker_macos.Accel.Regions

abbrev accel : Accel
accel = record { have_front_buffer = false; has_framebuffer = true; region_bounds_copy = false }

abbrev pub able : Device ℕ
able = record device { capabilities = 0x70_0000 }

able-CanStream : (n : ℕ) → n ≤ 23 → CanStream reader 400 able n
able-CanStream n h = record {
  drains = reader-Drains;
  valid = ring-IsFifo;
  idle = refl;
  fuel_enough = omega arith;
  small = omega arith;
  fit = omega arith;
}

abbrev rect : ℕ → Rect
rect i = record { x = i; y = i; w = 8; h = 9 }

abbrev region : Region
region = record { bounds = rect 1; rects = rect 1 ∷ rect 30 ∷ [] }

copy_region_lem_example :
    (e : Device ℕ) × (s : Status) × (copy_region reader 400 accel 5 6 (some region) able
      ≡ some (s, e))
    × Streamed able (wire (shifted_code 5 6 (rect 1)) (rect 1 ∷ rect 30 ∷ [])) e
    × (region.rects ≡ [] → s ≡ unset)
    × (region.rects ≢ [] → s ≡ success)
copy_region_lem_example =
    copy_region_lem reader 400 accel refl refl 5 6 region able refl (able-CanStream 7 (omega arith))

-- The second rectangle moves by 4 and 5, as the bounds do.
second_moved : copy_code (moved 5 6 (rect 1) (rect 30)) ≡ 3 ∷ 30 ∷ 30 ∷ 34 ∷ 35 ∷ 8 ∷ 9 ∷ []
second_moved = refl

-- set_region keeps the sign of its coordinates.
negative : (set_region 4294967295 5 6 7).bounds.x ≡ 4294967295
unfolding set_region
negative = refl

-- With a front buffer nothing is copied.
with_front :
    blit_copy reader 1
      (record accel { have_front_buffer = true })
      (moved 5 6 (rect 1) (rect 30) ∷ [])
      able
    ≡ some (success, able)
unfolding blit_copy copy_regions copy_region
with_front = refl

no_rect : update_framebuffer_auto_ring reader 1 accel none able ≡ some (bad_argument, able)
unfolding update_framebuffer_auto_ring
no_rect = refl

abbrev setting : Setting
setting = record { has_framebuffer = true; max_gmr_pages = 100; allocated = true }

pages : page_list ((0x10_0000, 8192) ∷ (0x30_0000, 5000) ∷ []) ≡ some (256 ∷ 257 ∷ 768 ∷ 769 ∷ [])
unfolding page_list
pages = refl

-- An adapter without GMR2 destroys nothing.
not_destroyed : destroy_gmr2 reader 1 setting 3 device ≡ some (Regions.unsupported, device)
unfolding destroy_gmr2 has_capability
not_destroyed = refl

region_destroyed :
    destroy_gmr reader 1 setting 3 device ≡ (Regions.success, (define_gmr reader 3 0 device).1)
unfolding destroy_gmr has_capability
region_destroyed = refl

abbrev extra : Extra
extra = record { src_delta_x = 100; src_delta_y = 0; dst_delta_x = 4294967295; dst_delta_y = 2 }

-- The destination moves by -1 and 2.
box : copy_boxes extra (rect 5 ∷ []) ≡ 4 ∷ 7 ∷ 0 ∷ 8 ∷ 9 ∷ 1 ∷ 105 ∷ 5 ∷ 0 ∷ []
unfolding copy_boxes
box = refl

-- Without SVGA3D nothing is sent.
no_3d : create_surface reader 1 false 1 2 3 4 5 device ≡ some (no_device, device)
unfolding create_surface
no_3d = refl
