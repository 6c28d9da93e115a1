-- ===== src/Surface/Calls.antt =====
-- The calls that a surface answers, those of the window server and those of 2D contexts.
use docker_macos.Base.{ℕ, Bool, true, false, Option, List, [], ◌∷◌}
use docker_macos.Surface.{Kernel, Surface, Scale, PixelFormat, release_backing}
use docker_macos.Surface.Shape.{
  ModeBits, set_id_mode, set_scale, context_scale_surface, clear_last_region,
}
use docker_macos.Surface.Overlays.{
  context_set_surface, surface_video_off, surface_flush_video, cleanup_3d,
}
use docker_macos.Surface.Reshape.{Request, set_shape}
use docker_macos.Surface.Lock.{
  surface_read_lock, surface_read_unlock, surface_write_lock, surface_write_unlock,
  context_lock_memory, context_unlock_memory,
}

pub data Call : Type 0 where
  set_mode : (w_id : ℕ) (bits : ModeBits) → Call
  scale_by : Option Scale → Call
  reshape : Request → Call
  lock_read unlock_read lock_write unlock_write : Call
  flush_video video_off : Call
  set_video : (vmware_pixel_format : ℕ) (apple_pixel_format : PixelFormat) → Call
  scale_to : (fixed_source : Bool) (width height : ℕ) → Call
  lock_memory : (task : ℕ) → Call
  unlock_memory : Call

-- The caller's structures are there and large enough.
unfoldable pub perform : {W : Type 0} → Kernel W → Call → Surface W → Surface W
perform k (set_mode w_id bits) s = (set_id_mode k w_id bits s).1
perform k (scale_by scaling) s = (set_scale scaling s).1
perform k (reshape q) s = (set_shape k q s).1
perform k lock_read s = (surface_read_lock k true s).2
perform k unlock_read s = (surface_read_unlock s).1
perform k lock_write s = (surface_write_lock k true s).2
perform k unlock_write s = (surface_write_unlock s).1
perform k flush_video s = (surface_flush_video k s).1
perform k video_off s = (surface_video_off k s).1
perform k (set_video vmware_pixel_format apple_pixel_format) s =
    (context_set_surface k vmware_pixel_format apple_pixel_format s).1
perform k (scale_to fixed_source width height) s =
    (context_scale_surface fixed_source width height s).1
perform k (lock_memory task) s = (context_lock_memory k true task s).2
perform k unlock_memory s = (context_unlock_memory k s).1

unfoldable pub perform_all : {W : Type 0} → Kernel W → List Call → Surface W → Surface W
perform_all k [] s = s
perform_all k (c ∷ cs) s = perform_all k cs (perform k c s)

-- Cleanup, when the surface is closed.
unfoldable pub cleanup : {W : Type 0} → Kernel W → Surface W → Surface W
cleanup k s =
    let t = clear_last_region (release_backing k (surface_video_off k (cleanup_3d k s)).1) in
    record t { has_last_shape = false }
