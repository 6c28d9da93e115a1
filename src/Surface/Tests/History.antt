-- ===== src/Surface/Tests/History.antt =====
-- The end of a surface in a world that keeps the history of what was given back.
use docker_macos.Base.{◌≡◌, refl, true, false, none, some, List, [], ◌∷◌}
use docker_macos.Transfer.Regions.{Unchanged}
use docker_macos.Transfer.Tests.{ids, ids-IsValid}
use docker_macos.Surface.{Kernel, Surface, bare_memory}
use docker_macos.Surface.Calls.{perform_all, cleanup}
use docker_macos.Surface.Life.{cleanup-perform_all}
use docker_macos.Surface.Returned.{Handle, a_map, a_block, a_descriptor, Logs, holding}
use docker_macos.Surface.Tests.{surface, session}

-- A world that is the history of what was given back, where everything is granted.
abbrev logged : Kernel (List Handle)
logged = record {
  provider = record {
    md_prepare = λ w. (0, w);
    md_complete = λ w. w;
    md_release = λ w. a_descriptor ∷ w;
    create_gmr = λ id w. (0, w);
    drop_gmr = λ id w. w;
    wait_for_fence = λ fence w. w;
  };
  client_md = λ addr size w. (true, w);
  kernel_md = λ size w. (true, w);
  vram_realloc = λ ptr size w. (0x1_0000, w);
  vram_free = λ ptr w. a_block ptr ∷ w;
  map_vram = λ task offset size w. (0x7000, w);
  map_md = λ task w. (0x9000, w);
  release_map = λ map w. a_map map ∷ w;
  pageable_md = λ size w. (true, w);
  pageable_prepare = λ w. (0, w);
  pageable_map = λ task w. (0x5000, w);
  pageable_complete = λ w. w;
  pageable_release = λ w. w;
  fill = λ map value words w. w;
  shape_bytes = λ w. (true, w);
  create_primary_screen = λ x y w. (0, w);
  retain_master_surface = λ w. (true, w);
  release_master_surface = λ w. w;
  test_direct_blit = λ w. (true, w);
  have_screen = λ w. false;
  have_3d = λ w. true;
  option_packed_backing = false;
  option_no_yuv = false;
  option_direct_blit = false;
  video_set_reg = λ stream_id register_id value w. w;
  video_set_regs_in_range = λ stream_id regs min_reg max_reg w. (some 7, w);
}

logged-Logs : Logs logged (λ w. w)
logged-Logs = record {
  release_map = λ map w. refl;
  vram_free = λ ptr w. refl;
  md_release = λ w. refl;
  md_complete = λ w. refl;
  drop_gmr = λ id w. refl;
  wait_for_fence = λ fence w. refl;
  video_set_reg = λ stream_id register_id value w. refl;
  release_master_surface = λ w. refl;
}

abbrev logged_surface : Surface (List Handle)
logged_surface = record {
  transfer = record { buffer = surface.transfer.buffer; ids = ids; world = [] };
  memory = surface.memory;
  client = surface.client;
  scale = surface.scale;
  screen = surface.screen;
  locks = surface.locks;
  flags = surface.flags;
  format = surface.format;
  video = surface.video;
  owning_task = 3;
  has_last_shape = false;
  last_region = none;
  framebuffer_index = 0;
}

abbrev ended : Surface (List Handle)
ended = perform_all logged session logged_surface

cleanup-perform_all_example :
    Unchanged ids (cleanup logged ended).transfer.ids
    × ((cleanup logged ended).transfer.world
        ≡ holding ended.memory ended.transfer.buffer.has_md ended.transfer.world)
    × ((cleanup logged ended).memory ≡ bare_memory)
    × ((cleanup logged ended).transfer.buffer.has_md ≡ false)
cleanup-perform_all_example =
    cleanup-perform_all logged (λ w. w) logged-Logs session logged_surface
      (record { valid = ids-IsValid; memory = refl; no_md = refl; no_region = refl })
