-- ===== src/Surface/Exclusion.antt =====
-- A surface that is locked for writing stays so, and is locked for nobody else.
pub mod Unmoved
pub mod Outcome
use docker_macos.Base.{
  ℕ, ◌≡◌, ◌≢◌, refl, sym, ap, ◌∙◌, ◌⊎◌, inl, inr, Bool, true, false, not, ◌&&◌, Option, none, some,
  List, [], ◌∷◌, ◌==◌, if◌then◌else◌, arith, Bool-cases,
}
use docker_macos.Ids.{Ids}
use docker_macos.Transfer.{sync}
use docker_macos.Surface.Backing.{IsBacked}
use docker_macos.Surface.{
  Kernel, Surface, no_client, in_world, Scale, Overlay, PixelFormat, Status, no_memory,
  is_backing_valid, success, not_ready, cannot_lock, adopt, wrap_new, wrap_client_backing,
  alloc_gmr_backing, alloc_new, drop_region, release_backing, release_map0, release_map1,
  alloc_backing, map_backing0, map_backing1,
}
use docker_macos.Surface.Shape.{
  is_source_valid, is_client_backing_valid, ModeBits, set_id_mode, set_mode_bits, set_scale,
  context_scale_surface, clear_last_region, calculate_scale_parameters,
}
use docker_macos.Surface.Overlays.{
  context_set_surface, surface_video_off, surface_flush_video, cleanup_3d, video_reshape,
  set_video_dest, set_video_regs, set_regs, start_stream, start_3d, leave_video,
}
use docker_macos.Surface.Reshape.{
  Request, client_size, set_client, identity_scale, adopt_shape, copy_shape, set_shape,
}
use docker_macos.Surface.Lock.{
  Info, set_write, set_read, set_context, map_memory, map_for_context, surface_read_lock,
  finish_write, write_locked, surface_write_lock, setup_trick_buffer, show_black,
  clear_yuv_to_black, context_lock_memory, context_unlock_memory, surface_read_unlock,
  surface_write_unlock,
}
use docker_macos.Surface.Sound.Locked.{map_memory_lem, lock-IsBacked}
use docker_macos.Surface.Calls.{
  Call, set_mode, scale_by, reshape, lock_read, unlock_read, lock_write, unlock_write, flush_video,
  video_off, set_video, scale_to, lock_memory, unlock_memory, perform, perform_all,
}
use docker_macos.Surface.Exclusion.Unmoved.{
  Keeps, AllKeep, IsHeld, Still, map_memory-Still, map_for_context-Still, trick-Still, flush-Still,
  set_video-Still, shape-Still,
}

module _ {W : Type 0} (k : Kernel W) where
  Still-IsHeld : (s t : Surface W) → Still s t → IsHeld s → IsHeld t
  unfolding IsHeld
  Still-IsHeld s t e (w, f) = (ap (λ l. l.write) e.locks ∙ w, e.skip ∙ f)

  read-IsHeld : (s : Surface W) → IsHeld s → IsHeld (surface_read_lock k true s).2
  unfolding surface_read_lock IsHeld
  read-IsHeld s h = ground (arith, map_memory-Still k (set_read true s))

  context-IsHeld :
      (task : ℕ) (s : Surface W) → IsHeld s → IsHeld (context_lock_memory k true task s).2
  unfolding context_lock_memory IsHeld
  context-IsHeld task s h =
      let t = (map_for_context k task (set_context true s)).1 in
      ground (arith, map_for_context-Still k task (set_context true s), trick-Still k t)

  held-refused :
      (s : Surface W)
      → IsHeld s
      → let r = surface_write_lock k true s in
        ((r.0 ≡ not_ready) ⊎ (r.0 ≡ cannot_lock)) × (r.2 ≡ s) × (r.1 ≡ none)
  unfolding surface_write_lock IsHeld
  held-refused s (w, f) = elim (Bool-cases (s.flags.have_id && is_source_valid s)) [
    | inl id ↦ simp (id, w, f, surface_write_lock) (inr refl, refl, refl)
    | inr not_yet ↦ simp (not_yet, surface_write_lock) (inl refl, refl, refl)
  ]

  perform-IsHeld : (c : Call) (s : Surface W) → Keeps c → IsHeld s → IsHeld (perform k c s)
  unfolding perform
  perform-IsHeld (set_mode w_id bits) s c h =
      Still-IsHeld s _ (unfold set_id_mode set_mode_bits in ground arith) h
  perform-IsHeld (scale_by none) s c h = unfold set_scale in h
  perform-IsHeld (scale_by (some z)) s c h =
      Still-IsHeld s _ (unfold set_scale calculate_scale_parameters in ground arith) h
  perform-IsHeld (reshape q) s c h = Still-IsHeld s _ (shape-Still k q s c) h
  perform-IsHeld lock_read s c h = read-IsHeld s h
  perform-IsHeld unlock_read s c h = unfold surface_read_unlock IsHeld in h
  perform-IsHeld lock_write s c h = rw (held-refused s h).1 h
  perform-IsHeld unlock_write s c h = elim c [ ]
  perform-IsHeld flush_video s c h = Still-IsHeld s _ (flush-Still k s) h
  perform-IsHeld video_off s c h = Still-IsHeld s _ (unfold surface_video_off in ground arith) h
  perform-IsHeld (set_video f p) s c h = Still-IsHeld s _ (set_video-Still k f p s) h
  perform-IsHeld (scale_to b x y) s c h =
      Still-IsHeld s _ (unfold context_scale_surface calculate_scale_parameters in ground arith) h
  perform-IsHeld (lock_memory task) s c h = context-IsHeld task s h
  perform-IsHeld unlock_memory s c h = unfold context_unlock_memory release_map1 IsHeld in h

  -- While a surface is locked for writing and its next request is not to go unasked (the flag
  -- skip_write_lock_once), after any calls among which are no unlock and no request for a shape with
  -- option 5, by which a later request goes unasked, another request for the lock is refused, gives
  -- out no memory and changes nothing.
  pub write_lock-exclusive :
      (cs : List Call) (s : Surface W)
      → AllKeep cs
      → IsHeld s
      → let t = perform_all k cs s in
        let r = surface_write_lock k true t in
        ((r.0 ≡ not_ready) ⊎ (r.0 ≡ cannot_lock)) × (r.2 ≡ t) × (r.1 ≡ none)
  unfolding perform_all
  write_lock-exclusive [] s a h = held-refused s h
  write_lock-exclusive (c ∷ cs) s (a, more) h =
      write_lock-exclusive cs (perform k c s) more (perform-IsHeld c s a h)
