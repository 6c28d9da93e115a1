-- ===== src/Surface/Exclusion/Unmoved.antt =====
-- What leaves the locks alone, and what holds one.
use docker_macos.Base.{
  ◌%◌, not, ℕ, ◌≡◌, ◌≢◌, refl, ◌∙◌, Bool, true, false, Option, none, some, List, [], ◌∷◌,
  if◌then◌else◌, arith,
}
use docker_macos.Base.Word.{u32}
use docker_macos.Surface.{
  depth8888, Kernel, Surface, no_client, in_world, PixelFormat, adopt, wrap_new,
  wrap_client_backing, alloc_gmr_backing, alloc_new, drop_region, release_backing, release_map0,
  release_map1, alloc_backing, map_backing0, map_backing1,
}
use docker_macos.Surface.Shape.{have_front_buffer, clear_last_region, calculate_scale_parameters}
use docker_macos.Surface.Overlays.{
  is_bgra32, context_set_surface, surface_video_off, surface_flush_video, cleanup_3d, video_reshape,
  set_video_dest, set_video_regs, set_regs, start_stream, start_3d, leave_video,
}
use docker_macos.Surface.Reshape.{
  Request, client_size, set_client, identity_scale, adopt_shape, copy_shape, set_shape,
}
use docker_macos.Surface.Lock.{
  map_memory, map_for_context, setup_trick_buffer, show_black, clear_yuv_to_black,
}
use docker_macos.Surface.Calls.{Call, reshape, unlock_write}

-- All calls but the unlock, and the requests for a new shape with option 5, by which the next lock
-- can go unasked.
abbrev pub Keeps : Call → Type 0
Keeps unlock_write = ⊥
Keeps (reshape q) = q.options ≢ 5
Keeps c = Unit {0}

abbrev pub AllKeep : List Call → Type 0
AllKeep [] = Unit {0}
AllKeep (c ∷ cs) = Keeps c × AllKeep cs

module _ {W : Type 0} where
  unfoldable pub IsHeld : Surface W → Type 0
  IsHeld s = (s.locks.write ≡ true) × (s.flags.skip_write_lock_once ≡ false)

  pub record Still (s t : Surface W) : Type 0 where
    pub locks : t.locks ≡ s.locks
    pub skip : t.flags.skip_write_lock_once ≡ s.flags.skip_write_lock_once

  Still-trans : (s t u : Surface W) → Still s t → Still t u → Still s u
  Still-trans s t u e f = record { locks = f.locks ∙ e.locks; skip = f.skip ∙ e.skip }

module _ {W : Type 0} (k : Kernel W) where
  release-Still : (s : Surface W) → Still s (release_backing k s)
  unfolding release_backing
  release-Still s = ground arith

  drop-Still : (s : Surface W) → Still s (drop_region k s)
  unfolding drop_region release_map0 release_map1
  drop-Still s = ground arith

  wrap_new-Still : (s : Surface W) → Still s (wrap_new k s).1
  unfolding wrap_new adopt
  wrap_new-Still s = ground arith

  wrap-Still : (s : Surface W) → Still s (wrap_client_backing k s).1
  unfolding wrap_client_backing
  wrap-Still s =
      ground (arith, wrap_new-Still s, wrap_new-Still (release_backing k s), release-Still s)

  alloc_new-Still : (s : Surface W) → Still s (alloc_new k s).1
  unfolding alloc_new alloc_gmr_backing adopt
  alloc_new-Still s = ground arith

  alloc-Still : (s : Surface W) → Still s (alloc_backing k s).1
  unfolding alloc_backing
  alloc-Still s = ground (
    arith,
    wrap-Still s,
    alloc_new-Still s,
    alloc_new-Still (release_backing k s),
    release-Still s,
    alloc_new-Still (drop_region k s),
    drop-Still s,
  )

  pub map_memory-Still : (s : Surface W) → Still s (map_memory k s).1
  unfolding map_memory map_backing0
  map_memory-Still s = ground (arith, alloc-Still s)

  pub map_for_context-Still : (task : ℕ) (s : Surface W) → Still s (map_for_context k task s).1
  unfolding map_for_context map_backing1
  map_for_context-Still task s = ground (arith, alloc-Still s)

  pub trick-Still : (s : Surface W) → Still s (setup_trick_buffer k s).1
  unfolding setup_trick_buffer show_black release_map0 clear_yuv_to_black
  trick-Still s = ground arith

  reshape-Still : (s : Surface W) → Still s (video_reshape k s)
  unfolding video_reshape set_video_dest set_regs
  reshape-Still s = ground arith

  pub flush-Still : (s : Surface W) → Still s (surface_flush_video k s).1
  unfolding surface_flush_video start_stream set_regs set_video_dest set_video_regs
  flush-Still s = ground arith

  off-Still : (s : Surface W) → Still s (surface_video_off k s).1
  unfolding surface_video_off
  off-Still s = ground arith

  started-Still : (b : Bool) (s : Surface W) → Still s (if b then start_3d k s else s)
  unfolding start_3d
  started-Still b s = ground arith

  leave-Still : (p : PixelFormat) (s : Surface W) → Still s (leave_video k p s)
  unfolding leave_video
  leave-Still p s =
      let off = (surface_video_off k s).1 in
      let f =
        if is_bgra32 p
        then record off.format { surface_format = 2; bytes_per_pixel = 4; pixel_format = depth8888 }
        else off.format in
      let t = record off { flags = record off.flags { video_mode = false }; format = f } in
      Still-trans s off (leave_video k p s) (off-Still s) (
        Still-trans off t (leave_video k p s) (record { locks = refl; skip = refl })
          (started-Still (not (have_front_buffer t)) t))

  pub set_video-Still :
      (v : ℕ) (p : PixelFormat) (s : Surface W) → Still s (context_set_surface k v p s).1
  unfolding context_set_surface cleanup_3d
  set_video-Still v p s = ground (arith, leave-Still p s)

  scaled-Still :
      (b : Bool) (q : Request) (s : Surface W) → Still s (if b then identity_scale k q s else s)
  unfolding identity_scale calculate_scale_parameters
  scaled-Still b q s = ground arith

  adopt-Still : (q : Request) (s : Surface W) → q.options ≢ 5 → Still s (adopt_shape k q s)
  unfolding adopt_shape
  adopt-Still q s h =
      let t = record s {
        last_region = some q.region;
        framebuffer_index = q.framebuffer_index % u32;
      } in
      let u = if q.identity_scale then identity_scale k q t else t in
      let e = scaled-Still q.identity_scale q t in let f = reshape-Still u in ground (arith, e, f)

  copy-Still : (q : Request) (s : Surface W) → q.options ≢ 5 → Still s (copy_shape k q s).1
  unfolding copy_shape
  copy-Still q s h =
      let t = record (in_world (k.shape_bytes s.transfer.world).1 s) { has_last_shape = true } in
      ground (arith, adopt-Still q t h)

  abbrev Stays : Surface W → Option (Surface W) → Type 0
  Stays s none = Unit {0}
  Stays s (some u) = Still s u

  set_client-Still : (q : Request) (s : Surface W) → Stays s (set_client q s)
  unfolding set_client client_size
  set_client-Still q s = ground arith

  pub shape-Still : (q : Request) (s : Surface W) → q.options ≢ 5 → Still s (set_shape k q s).1
  unfolding set_shape clear_last_region
  shape-Still q s h =
      let t = record (clear_last_region s) { client = no_client } in
      let e : Still s t = unfold clear_last_region in ground arith in
      go t (set_client q t) refl (set_client-Still q t) e
    where
      go :
          (t : Surface W) (o : Option (Surface W))
          → set_client q (record (clear_last_region s) { client = no_client }) ≡ o
          → Stays (record (clear_last_region s) { client = no_client }) o
          → Still s (record (clear_last_region s) { client = no_client })
          → Still s (set_shape k q s).1
      go t none eq f e = ground (arith, eq, e)
      go t (some u) eq f e =
          let c =
            Still-trans (record (clear_last_region s) { client = no_client }) u (copy_shape k q u).1
              f (copy-Still q u h) in
          ground (arith, eq, e, c)
