-- ===== src/Surface/Kept.antt =====
-- What the calls that do not make memory leave alone.
use docker_macos.Base.{
  if◌then◌else◌, not, ℕ, ◌≡◌, refl, ◌∙◌, Bool, true, false, Option, none, some, arith,
}
use docker_macos.Ids.{Ids, alloc_stream_id, free_stream_id}
use docker_macos.Transfer.Held.{Holds}
use docker_macos.Surface.{depth8888, Kernel, Surface, Scale, Overlay, PixelFormat}
use docker_macos.Surface.Backing.{IsBacked}
use docker_macos.Surface.Shape.{
  have_front_buffer, ModeBits, set_id_mode, set_mode_bits, set_scale, context_scale_surface,
  clear_last_region, calculate_scale_parameters,
}
use docker_macos.Surface.Overlays.{
  is_bgra32, context_set_surface, surface_video_off, surface_flush_video, cleanup_3d, video_reshape,
  set_video_dest, set_video_regs, set_regs, start_stream, start_3d, leave_video,
}

-- The masks of surfaces and of regions are the same.
pub record SameMasks (i j : Ids) : Type 0 where
  pub surfaces : j.surface_id_mask ≡ i.surface_id_mask
  pub surface_idx : j.surface_id_idx ≡ i.surface_id_idx
  pub regions : j.gmr_id_mask ≡ i.gmr_id_mask
  pub region_idx : j.gmr_id_idx ≡ i.gmr_id_idx

module _ {W : Type 0} where
  -- The memory is the same, and so is what the transfer buffer holds.
  pub record Kept (s t : Surface W) : Type 0 where
    pub memory : t.memory ≡ s.memory
    pub has_md : t.transfer.buffer.has_md ≡ s.transfer.buffer.has_md
    pub gmr_id : t.transfer.buffer.gmr_id ≡ s.transfer.buffer.gmr_id
    pub masks : SameMasks s.transfer.ids t.transfer.ids

pub same_masks : (i : Ids) → SameMasks i i
same_masks i = record { surfaces = refl; surface_idx = refl; regions = refl; region_idx = refl }

Holds-SameMasks :
    (b : Bool) (id : ℕ) (a i j : Ids) → SameMasks i j → Holds b id a i → Holds b id a j
Holds-SameMasks true id a i j m h = rw (m.surfaces, m.surface_idx, m.regions, m.region_idx) h
Holds-SameMasks false id a i j m h = rw (m.surfaces, m.surface_idx, m.regions, m.region_idx) h

module _ {W : Type 0} where
  pub Kept-IsBacked : (a : Ids) (s t : Surface W) → Kept s t → IsBacked a s → IsBacked a t
  Kept-IsBacked a s t e v = record {
    region =
        rw (e.has_md, e.gmr_id)
          (Holds-SameMasks s.transfer.buffer.has_md s.transfer.buffer.gmr_id a s.transfer.ids
            t.transfer.ids e.masks v.region);
    either = rw (e.memory, e.has_md) v.either;
    vram = rw (e.memory, e.gmr_id) v.vram;
    client = rw (e.memory, e.has_md) v.client;
    unmapped = rw (e.memory, e.has_md) v.unmapped;
  }

  pub Kept-refl : (s : Surface W) → Kept s s
  Kept-refl s = record {
    memory = refl;
    has_md = refl;
    gmr_id = refl;
    masks = same_masks s.transfer.ids;
  }

  pub Kept-trans : (s t u : Surface W) → Kept s t → Kept t u → Kept s u
  Kept-trans s t u e f = record {
    memory = f.memory ∙ e.memory;
    has_md = f.has_md ∙ e.has_md;
    gmr_id = f.gmr_id ∙ e.gmr_id;
    masks = record {
      surfaces = f.masks.surfaces ∙ e.masks.surfaces;
      surface_idx = f.masks.surface_idx ∙ e.masks.surface_idx;
      regions = f.masks.regions ∙ e.masks.regions;
      region_idx = f.masks.region_idx ∙ e.masks.region_idx;
    };
  }

  set_mode_bits-Kept :
      (w_id : ℕ) (bits : ModeBits) (s : Surface W) → Kept s (set_mode_bits w_id bits s).1
  unfolding set_mode_bits
  set_mode_bits-Kept w_id bits s = ground arith

  pub scale-Kept : (b : Bool) (s : Surface W) → Kept s (calculate_scale_parameters b s)
  unfolding calculate_scale_parameters
  scale-Kept b s = record {
    memory = refl;
    has_md = refl;
    gmr_id = refl;
    masks = same_masks s.transfer.ids;
  }

  pub set_scale-Kept : (o : Option Scale) (s : Surface W) → Kept s (set_scale o s).1
  unfolding set_scale
  set_scale-Kept none s = Kept-refl s
  set_scale-Kept (some z) s =
      Kept-trans s (record s { scale = z }) _
        (record { memory = refl; has_md = refl; gmr_id = refl; masks = same_masks s.transfer.ids })
        (scale-Kept false (record s { scale = z }))

  pub context_scale-Kept :
      (b : Bool) (w h : ℕ) (s : Surface W) → Kept s (context_scale_surface b w h s).1
  unfolding context_scale_surface calculate_scale_parameters
  context_scale-Kept b w h s = ground arith

  pub clear_last_region-Kept : (s : Surface W) → Kept s (clear_last_region s)
  unfolding clear_last_region
  clear_last_region-Kept s = ground arith

module _ {W : Type 0} (k : Kernel W) where
  pub set_id_mode-Kept :
      (w_id : ℕ) (bits : ModeBits) (s : Surface W) → Kept s (set_id_mode k w_id bits s).1
  unfolding set_id_mode set_mode_bits
  set_id_mode-Kept w_id bits s = ground arith

  set_regs-Kept : (o : Option Overlay) (i j : ℕ) (s : Surface W) → Kept s (set_regs k o i j s).1
  unfolding set_regs
  set_regs-Kept o i j s = ground arith

  pub video_reshape-Kept : (s : Surface W) → Kept s (video_reshape k s)
  unfolding video_reshape set_video_dest set_regs
  video_reshape-Kept s = ground arith

  pub video_off-Kept : (s : Surface W) → Kept s (surface_video_off k s).1
  unfolding surface_video_off free_stream_id
  video_off-Kept s = ground arith

  start_stream-Kept : (s : Surface W) → Kept s (start_stream k s).1
  unfolding start_stream set_video_dest set_regs set_video_regs
  start_stream-Kept s = ground arith

  start_3d-Kept : (s : Surface W) → Kept s (start_3d k s)
  unfolding start_3d
  start_3d-Kept s = ground arith

  pub cleanup_3d-Kept : (s : Surface W) → Kept s (cleanup_3d k s)
  unfolding cleanup_3d
  cleanup_3d-Kept s = ground arith

  started-Kept : (b : Bool) (s : Surface W) → Kept s (if b then start_3d k s else s)
  started-Kept true s = start_3d-Kept s
  started-Kept false s = Kept-refl s

  leave_video-Kept : (p : PixelFormat) (s : Surface W) → Kept s (leave_video k p s)
  unfolding leave_video
  leave_video-Kept p s =
      let off = (surface_video_off k s).1 in
      let f =
        if is_bgra32 p
        then record off.format { surface_format = 2; bytes_per_pixel = 4; pixel_format = depth8888 }
        else off.format in
      let t = record off { flags = record off.flags { video_mode = false }; format = f } in
      let e : Kept off t = record {
        memory = refl;
        has_md = refl;
        gmr_id = refl;
        masks = same_masks off.transfer.ids;
      } in
      Kept-trans s off (leave_video k p s) (video_off-Kept s)
        (Kept-trans off t (leave_video k p s) e (started-Kept (not (have_front_buffer t)) t))

  pub context_set_surface-Kept :
      (v : ℕ) (p : PixelFormat) (s : Surface W) → Kept s (context_set_surface k v p s).1
  unfolding context_set_surface cleanup_3d
  context_set_surface-Kept v p s = ground (arith, leave_video-Kept p s, Kept-refl s)

  pub flush_video-Kept : (s : Surface W) → Kept s (surface_flush_video k s).1
  unfolding surface_flush_video alloc_stream_id
  flush_video-Kept s = grind (arith, start_stream-Kept, set_regs-Kept, Kept-refl)
