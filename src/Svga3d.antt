-- ===== src/Svga3d.antt =====
-- kexts/VMsvga2/AC/SVGA3D.cpp: the commands of the SVGA3D protocol. A pointer to a structure or an
-- array is the memory from there on, by dwords; floats are moved as bit patterns.
pub mod Sent
pub mod Begin
pub mod Shader
pub mod Suffix
pub mod Version
mod Tests
use docker_macos.Base.{
  ℕ, zero, suc, ◌+◌, ◌*◌, ◌%◌, Bool, true, false, not, Option, none, some, List, [], ◌∷◌, ◌++◌,
  length, ltb, ◌==◌, if◌then◌else◌,
}
use docker_macos.Base.Mem.{Mem}
use docker_macos.Base.Word.{u32}
use docker_macos.Svga.{Host, Device, Pointer, has_capability}
use docker_macos.Svga.Fifo.{
  Wait, put, fifo_reserve, fifo_commit, fifo_commit_all, with_header, fill_and_commit, ◌+ptr◌,
}
use docker_macos.Svga.Regs.{
  cap_extended_fifo, fifo_min, fifo_guest_hw_version, fifo_cap_hw_version_revised, fifo_hw_version,
  fifo_hw_version_revised,
}
use docker_macos.Svga.{has_fifo_cap}

-- `n` dwords from index `i` on.
abbrev pub dwords : ℕ → ℕ → Mem → List ℕ
dwords zero i m = []
dwords (suc n) i m = m i ∷ dwords n (i + 1) m

abbrev pub zeros : ℕ → List ℕ
zeros zero = []
zeros (suc n) = 0 ∷ zeros n

-- `bzero` from the pointer on, which does not move.
abbrev pub zero_at :
    {H : Type 0} → ℕ → Option (Option Pointer × Device H) → Option (Option Pointer × Device H)
zero_at n none = none
zero_at n (some (none, d)) = some (none, d)
zero_at n (some (some p, d)) = some (some p, put p (zeros n) d)

-- The suffix of a DMA command behind the boxes, which are left to the caller.
abbrev pub with_suffix :
    {H : Type 0}
    → ℕ
    → ℕ
    → ℕ
    → Option (Option Pointer × Device H)
    → Option (Option Pointer × Device H)
with_suffix num_boxes maximum_offset flags none = none
with_suffix num_boxes maximum_offset flags (some (none, d)) = some (none, d)
with_suffix num_boxes maximum_offset flags (some (some p, d)) =
    some (some p, put (p +ptr 36 * num_boxes) (12 ∷ maximum_offset ∷ flags ∷ []) d)

-- SVGADevice::get3DHWVersion; the version is `none` where it returns false.
pub get_3d_hw_version : {H : Type 0} → Device H → Option ℕ
get_3d_hw_version d =
    if not (ltb (4 * fifo_guest_hw_version) (d.fifo fifo_min))
    then none
    else (if has_fifo_cap d fifo_cap_hw_version_revised
        then some (d.fifo fifo_hw_version_revised)
        else some (d.fifo fifo_hw_version))

-- What SVGA3D::Init checks once it has a device: the extended FIFO, and a host version from
-- SVGA3D_HWVERSION_WS65_B1 on.
pub init : {H : Type 0} → Device H → Bool
init d = if not (has_capability d cap_extended_fifo) then false else elim (get_3d_hw_version d) [
  | none ↦ false
  | some version ↦ if version == 0 then false else (if ltb version 0x20000 then false else true)
]

module _ {H : Type 0} (host : Host H) where
  -- The header holds the command and the size of what follows it, as a uint32_t.
  pub reserve : (fuel cmd cmd_size : ℕ) → Wait H (Option Pointer)
  reserve fuel cmd cmd_size d =
      with_header (cmd ∷ cmd_size % u32 ∷ []) (fifo_reserve host fuel (8 + cmd_size) d)

  pub destroy_surface : (fuel : ℕ) (sid : ℕ) → Wait H Bool
  destroy_surface fuel sid d = fill_and_commit (sid ∷ []) (reserve fuel 1041 4 d)

  pub define_context : (fuel : ℕ) (cid : ℕ) → Wait H Bool
  define_context fuel cid d = fill_and_commit (cid ∷ []) (reserve fuel 1045 4 d)

  pub destroy_context : (fuel : ℕ) (cid : ℕ) → Wait H Bool
  destroy_context fuel cid d = fill_and_commit (cid ∷ []) (reserve fuel 1046 4 d)

  pub set_render_target : (fuel : ℕ) (cid : ℕ) (type : ℕ) (target : Mem) → Wait H Bool
  set_render_target fuel cid type target d =
      fill_and_commit (cid ∷ type ∷ dwords 3 0 target) (reserve fuel 1050 20 d)

  pub set_transform : (fuel : ℕ) (cid : ℕ) (type : ℕ) (matrix : Mem) → Wait H Bool
  set_transform fuel cid type matrix d =
      fill_and_commit (cid ∷ type ∷ dwords 16 0 matrix) (reserve fuel 1047 72 d)

  pub set_material : (fuel : ℕ) (cid : ℕ) (face : ℕ) (material : Mem) → Wait H Bool
  set_material fuel cid face material d =
      fill_and_commit (cid ∷ face ∷ dwords 17 0 material) (reserve fuel 1052 76 d)

  pub set_light_enabled : (fuel : ℕ) (cid : ℕ) (index : ℕ) (enabled : Bool) → Wait H Bool
  set_light_enabled fuel cid index enabled d =
      fill_and_commit (cid ∷ index ∷ (if enabled then 1 else 0) ∷ []) (reserve fuel 1054 12 d)

  pub set_light_data : (fuel : ℕ) (cid : ℕ) (index : ℕ) (light : Mem) → Wait H Bool
  set_light_data fuel cid index light d =
      fill_and_commit (cid ∷ index ∷ dwords 29 0 light) (reserve fuel 1053 124 d)

  pub destroy_shader : (fuel : ℕ) (cid : ℕ) (shid : ℕ) (type : ℕ) → Wait H Bool
  destroy_shader fuel cid shid type d =
      fill_and_commit (cid ∷ shid ∷ type ∷ []) (reserve fuel 1060 12 d)

  pub set_shader : (fuel : ℕ) (cid : ℕ) (type : ℕ) (shid : ℕ) → Wait H Bool
  set_shader fuel cid type shid d =
      fill_and_commit (cid ∷ type ∷ shid ∷ []) (reserve fuel 1061 12 d)

  pub surface_stretch_blt :
      (fuel : ℕ) (src : Mem) (dest : Mem) (box_src : Mem) (box_dest : Mem) (mode : ℕ) → Wait H Bool
  surface_stretch_blt fuel src dest box_src box_dest mode d =
      fill_and_commit
        (dwords 3 0 src
          ++ (dwords 3 0 dest ++ (dwords 6 0 box_src ++ (dwords 6 0 box_dest ++ (mode ∷ [])))))
        (reserve fuel 1043 76 d)

  pub set_viewport : (fuel : ℕ) (cid : ℕ) (rect : Mem) → Wait H Bool
  set_viewport fuel cid rect d = fill_and_commit (cid ∷ dwords 4 0 rect) (reserve fuel 1055 20 d)

  pub set_scissor_rect : (fuel : ℕ) (cid : ℕ) (rect : Mem) → Wait H Bool
  set_scissor_rect fuel cid rect d =
      fill_and_commit (cid ∷ dwords 4 0 rect) (reserve fuel 1064 20 d)

  pub set_zrange : (fuel : ℕ) (cid : ℕ) (zmin : ℕ) (zmax : ℕ) → Wait H Bool
  set_zrange fuel cid zmin zmax d =
      fill_and_commit (cid ∷ zmin ∷ zmax ∷ []) (reserve fuel 1048 12 d)

  pub set_clip_plane : (fuel : ℕ) (cid : ℕ) (index : ℕ) (plane : Mem) → Wait H Bool
  set_clip_plane fuel cid index plane d =
      fill_and_commit (cid ∷ index ∷ dwords 4 0 plane) (reserve fuel 1056 24 d)

  pub begin_query : (fuel : ℕ) (cid : ℕ) (qtype : ℕ) → Wait H Bool
  begin_query fuel cid qtype d = fill_and_commit (cid ∷ qtype ∷ []) (reserve fuel 1065 8 d)

  pub end_query : (fuel : ℕ) (cid : ℕ) (qtype : ℕ) (gmr_id : ℕ) (offset_in_gmr : ℕ) → Wait H Bool
  end_query fuel cid qtype gmr_id offset_in_gmr d =
      fill_and_commit (cid ∷ qtype ∷ gmr_id ∷ offset_in_gmr ∷ []) (reserve fuel 1066 16 d)

  pub wait_for_query :
      (fuel : ℕ) (cid : ℕ) (qtype : ℕ) (gmr_id : ℕ) (offset_in_gmr : ℕ) → Wait H Bool
  wait_for_query fuel cid qtype gmr_id offset_in_gmr d =
      fill_and_commit (cid ∷ qtype ∷ gmr_id ∷ offset_in_gmr ∷ []) (reserve fuel 1067 16 d)

  pub begin_define_surface :
      (fuel : ℕ) (sid : ℕ) (flags : ℕ) (format : ℕ) (num_mip_sizes : ℕ) → Wait H (Option Pointer)
  begin_define_surface fuel sid flags format num_mip_sizes d =
      zero_at (6 + 3 * num_mip_sizes)
        (with_header (sid ∷ flags ∷ format ∷ []) (reserve fuel 1040 (36 + 12 * num_mip_sizes) d))

  pub begin_surface_dma :
      (fuel : ℕ) (guest_image : Mem) (host_image : Mem) (transfer : ℕ) (num_boxes : ℕ)
      → Wait H (Option Pointer)
  begin_surface_dma fuel guest_image host_image transfer num_boxes d = zero_at (9 * num_boxes) (
      with_header (dwords 3 0 guest_image ++ (dwords 3 0 host_image ++ (transfer ∷ [])))
        (reserve fuel 1044 (28 + 36 * num_boxes) d))

  pub begin_present : (fuel : ℕ) (sid : ℕ) (num_rects : ℕ) → Wait H (Option Pointer)
  begin_present fuel sid num_rects d =
      with_header (sid ∷ []) (reserve fuel 1058 (4 + 24 * num_rects) d)

  pub begin_clear :
      (fuel : ℕ) (cid : ℕ) (flags : ℕ) (color : ℕ) (depth : ℕ) (stencil : ℕ) (num_rects : ℕ)
      → Wait H (Option Pointer)
  begin_clear fuel cid flags color depth stencil num_rects d =
      with_header (cid ∷ flags ∷ color ∷ depth ∷ stencil ∷ [])
        (reserve fuel 1057 (20 + 16 * num_rects) d)

  pub begin_draw_primitives :
      (fuel : ℕ) (cid : ℕ) (num_vertex_decls : ℕ) (num_ranges : ℕ) → Wait H (Option Pointer)
  begin_draw_primitives fuel cid num_vertex_decls num_ranges d =
      with_header (cid ∷ num_vertex_decls % u32 ∷ num_ranges % u32 ∷ [])
        (reserve fuel 1063 (12 + 36 * num_vertex_decls + 28 * num_ranges) d)

  pub begin_surface_copy :
      (fuel : ℕ) (src : Mem) (dest : Mem) (num_boxes : ℕ) → Wait H (Option Pointer)
  begin_surface_copy fuel src dest num_boxes d =
      zero_at (9 * num_boxes) (
        with_header (dwords 3 0 src ++ dwords 3 0 dest) (reserve fuel 1042 (24 + 36 * num_boxes) d))

  pub begin_set_texture_state : (fuel : ℕ) (cid : ℕ) (num_states : ℕ) → Wait H (Option Pointer)
  begin_set_texture_state fuel cid num_states d =
      with_header (cid ∷ []) (reserve fuel 1051 (4 + 12 * num_states) d)

  pub begin_set_render_state : (fuel : ℕ) (cid : ℕ) (num_states : ℕ) → Wait H (Option Pointer)
  begin_set_render_state fuel cid num_states d =
      with_header (cid ∷ []) (reserve fuel 1049 (4 + 8 * num_states) d)

  pub begin_present_readback : (fuel : ℕ) (num_rects : ℕ) → Wait H (Option Pointer)
  begin_present_readback fuel num_rects d = with_header ([]) (reserve fuel 1068 (16 * num_rects) d)

  pub begin_blit_surface_to_screen :
      (fuel : ℕ) (src_image : Mem) (src_rect : Mem) (dest_screen_id : ℕ) (dest_rect : Mem)
      (num_clip_rects : ℕ)
      → Wait H (Option Pointer)
  begin_blit_surface_to_screen fuel src_image src_rect dest_screen_id dest_rect num_clip_rects d =
      with_header
        (dwords 3 0 src_image ++ (dwords 4 0 src_rect ++ (dest_screen_id ∷ dwords 4 0 dest_rect)))
        (reserve fuel 1069 (48 + 16 * num_clip_rects) d)

  pub begin_surface_dma_with_suffix :
      (fuel : ℕ) (guest_image host_image : Mem) (transfer num_boxes maximum_offset flags : ℕ)
      → Wait H (Option Pointer)
  begin_surface_dma_with_suffix fuel guest_image host_image transfer num_boxes maximum_offset flags
        d =
      with_suffix num_boxes maximum_offset flags (
        with_header (dwords 3 0 guest_image ++ (dwords 3 0 host_image ++ (transfer ∷ [])))
          (reserve fuel 1044 (28 + 36 * num_boxes + 12) d))
