-- ===== src/Surface/Sound.antt =====
-- Whatever is called on a surface, and in whichever order, its memory keeps to the rules.
pub mod Reshaped
pub mod Locked
use docker_macos.Base.{
  ℕ, ◌≡◌, ◌≢◌, refl, sym, ap, ◌∙◌, inl, inr, Bool, true, false, not, ◌&&◌, ◌||◌, Option, none, some,
  List, [], ◌∷◌, ltb, ◌==◌, if◌then◌else◌, arith, Bool-cases,
}
use docker_macos.Ids.{Ids}
use docker_macos.Transfer.{sync}
use docker_macos.Surface.{
  Kernel, Surface, Locks, Client, no_client, is_backing_valid, in_world, release_map1, release_map0,
  map_backing0, map_backing1, alloc_backing,
}
use docker_macos.Surface.Backing.{IsBacked, IsBare, release_backing-IsBare}
use docker_macos.Surface.Backing.Alloc.{
  mapped, alloc_backing_lem, map_backing0-IsBacked, map_backing1-IsBacked,
}
use docker_macos.Surface.Kept.{
  Kept, Kept-IsBacked, Kept-refl, Kept-trans, same_masks, scale-Kept, video_reshape-Kept,
  clear_last_region-Kept, set_id_mode-Kept, set_scale-Kept, context_scale-Kept,
  context_set_surface-Kept, video_off-Kept, flush_video-Kept, cleanup_3d-Kept,
}
use docker_macos.Surface.Shape.{
  is_region_empty, clear_last_region, calculate_scale_parameters, is_client_backing_valid,
}
use docker_macos.Surface.Overlays.{video_reshape}
use docker_macos.Surface.Reshape.{
  Request, client_size, set_client, identity_scale, adopt_shape, copy_shape, set_shape,
}
use docker_macos.Surface.Lock.{
  set_read, set_write, set_context, map_memory, map_for_context, surface_read_lock, finish_write,
  write_locked, surface_write_lock, setup_trick_buffer, show_black, black_pixel, clear_yuv_to_black,
  context_lock_memory, context_unlock_memory, surface_read_unlock, surface_write_unlock,
}
use docker_macos.Surface.Calls.{
  Call, set_mode, scale_by, reshape, lock_read, unlock_read, lock_write, unlock_write, flush_video,
  video_off, set_video, scale_to, lock_memory, unlock_memory, perform, perform_all, cleanup,
}
use docker_macos.Surface.Sound.Reshaped.{set_shape-IsBacked}
use docker_macos.Surface.Sound.Locked.{
  lock-IsBacked, read_lock-IsBacked, write_lock-IsBacked, context_lock-IsBacked,
  context_unlock-IsBacked,
}

module _ {W : Type 0} (k : Kernel W) (a : Ids) where
  pub perform-IsBacked : (c : Call) (s : Surface W) → IsBacked a s → IsBacked a (perform k c s)
  unfolding perform surface_read_unlock surface_write_unlock
  perform-IsBacked (set_mode w_id bits) s v = Kept-IsBacked a s _ (set_id_mode-Kept k w_id bits s) v
  perform-IsBacked (scale_by scaling) s v = Kept-IsBacked a s _ (set_scale-Kept scaling s) v
  perform-IsBacked (reshape q) s v = set_shape-IsBacked k a q s v
  perform-IsBacked lock_read s v = read_lock-IsBacked k a s v
  perform-IsBacked unlock_read s v = lock-IsBacked k a _ s v
  perform-IsBacked lock_write s v = write_lock-IsBacked k a s v
  perform-IsBacked unlock_write s v = lock-IsBacked k a _ s v
  perform-IsBacked flush_video s v = Kept-IsBacked a s _ (flush_video-Kept k s) v
  perform-IsBacked video_off s v = Kept-IsBacked a s _ (video_off-Kept k s) v
  perform-IsBacked (set_video f p) s v = Kept-IsBacked a s _ (context_set_surface-Kept k f p s) v
  perform-IsBacked (scale_to b w h) s v = Kept-IsBacked a s _ (context_scale-Kept b w h s) v
  perform-IsBacked (lock_memory task) s v = context_lock-IsBacked k a task s v
  perform-IsBacked unlock_memory s v = context_unlock-IsBacked k a s v

  -- After any sequence of calls the backing of a surface is still video memory or a memory descriptor
  -- or neither; the descriptor has a region, which is the only identifier in use beyond those of the
  -- others; and without backing nothing is mapped.
  pub perform_all-IsBacked :
      (cs : List Call) (s : Surface W) → IsBacked a s → IsBacked a (perform_all k cs s)
  unfolding perform_all
  perform_all-IsBacked [] s v = v
  perform_all-IsBacked (c ∷ cs) s v =
      perform_all-IsBacked cs (perform k c s) (perform-IsBacked c s v)
