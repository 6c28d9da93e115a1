-- ===== src/Accel/Surfaces.antt =====
-- kexts/VMsvga2/AC/VMsvga2Accel.cpp: surfaces, contexts and drawing, over the commands of SVGA3D.
pub mod Wire
use docker_macos.Base.{
  ℕ, ◌*◌, ◌≡◌, Bool, true, not, Option, none, some, List, [], ◌∷◌, ◌++◌, length, ◌==◌,
  if◌then◌else◌,
}
use docker_macos.Base.Mem.{Mem}
use docker_macos.Base.Word.{add32}
use docker_macos.Svga.{Host, Device}
use docker_macos.Svga.Fifo.{Wait, fill_and_commit}
use docker_macos.Svga.Commands.{Rect}
use docker_macos.Svga3d.{
  dwords, begin_define_surface, begin_surface_copy, begin_clear, begin_present_readback,
  begin_draw_primitives, begin_set_texture_state, begin_set_render_state, define_context,
}
use docker_macos.Svga3d
use docker_macos.Accel.{Status, success, bad_argument, no_device, Region}

-- The distances of the structure ExtraInfo, as uint32_t.
pub record Extra : Type 0 where
  pub src_delta_x : ℕ
  pub src_delta_y : ℕ
  pub dst_delta_x : ℕ
  pub dst_delta_y : ℕ

-- SVGA3dSurfaceImageId with its face and mipmap at zero.
abbrev pub image : (sid : ℕ) → Mem
image sid i = if i == 0 then sid else 0

-- `rgn ? rgn->num_rects : 0` rectangles.
abbrev pub rects_of : Option Region → List Rect
rects_of none = []
rects_of (some region) = region.rects

-- SVGA3dCopyBox: x, y, z, w, h, d, srcx, srcy and srcz. z and srcz keep the zeros that the begin
-- method stored.
unfoldable pub copy_boxes : Extra → List Rect → List ℕ
copy_boxes extra [] = []
copy_boxes extra (r ∷ rs) =
    add32 r.x extra.dst_delta_x
    ∷ add32 r.y extra.dst_delta_y
    ∷ 0
    ∷ r.w
    ∷ r.h
    ∷ 1
    ∷ add32 r.x extra.src_delta_x
    ∷ add32 r.y extra.src_delta_y
    ∷ 0
    ∷ copy_boxes extra rs

unfoldable pub clear_rects : List Rect → List ℕ
clear_rects [] = []
clear_rects (r ∷ rs) = r.x ∷ r.y ∷ r.w ∷ r.h ∷ clear_rects rs

-- `return kIOReturnSuccess`, whatever the method of SVGA3D answered.
abbrev pub regardless : {H : Type 0} → Option (Bool × Device H) → Option (Status × Device H)
regardless none = none
regardless (some (rc, d)) = some (success, d)

module _ {H : Type 0} (host : Host H) (fuel : ℕ) (have_svga3d : Bool) where
  -- The faces behind the first keep the zeros that the begin method stored.
  unfoldable pub create_surface :
      (sid surface_flags surface_format width height : ℕ) → Wait H Status
  create_surface sid surface_flags surface_format width height d =
      if not have_svga3d
      then some (no_device, d)
      else regardless (
          fill_and_commit (1 ∷ 0 ∷ 0 ∷ 0 ∷ 0 ∷ 0 ∷ width ∷ height ∷ 1 ∷ [])
            (begin_define_surface host fuel sid surface_flags surface_format 1 d))

  unfoldable pub create_context : (cid : ℕ) → Wait H Status
  create_context cid d =
      if not have_svga3d then some (no_device, d) else regardless (define_context host fuel cid d)

  -- `none` is a null pointer.
  unfoldable pub copy_surface : (src_sid dst_sid : ℕ) → Option Region → Option Extra → Wait H Status
  copy_surface src_sid dst_sid region none d = some (bad_argument, d)
  copy_surface src_sid dst_sid region (some extra) d =
      if not have_svga3d
      then some (no_device, d)
      else regardless (
          fill_and_commit (copy_boxes extra (rects_of region)) (
            begin_surface_copy host fuel (image src_sid) (image dst_sid) (length (rects_of region))
              d))

  unfoldable pub clear_surface :
      (cid flags : ℕ) → Option Region → (color depth stencil : ℕ) → Wait H Status
  clear_surface cid flags region color depth stencil d =
      if not have_svga3d
      then some (no_device, d)
      else regardless (
          fill_and_commit (clear_rects (rects_of region))
            (begin_clear host fuel cid flags color depth stencil (length (rects_of region)) d))

  unfoldable pub destroy_surface : (sid : ℕ) → Wait H Status
  destroy_surface sid d =
      if not have_svga3d
      then some (no_device, d)
      else regardless (Svga3d.destroy_surface host fuel sid d)

  unfoldable pub destroy_context : (cid : ℕ) → Wait H Status
  destroy_context cid d =
      if not have_svga3d
      then some (no_device, d)
      else regardless (Svga3d.destroy_context host fuel cid d)

  unfoldable pub set_render_target : (cid rtype sid : ℕ) → Wait H Status
  set_render_target cid rtype sid d =
      if not have_svga3d
      then some (no_device, d)
      else regardless (Svga3d.set_render_target host fuel cid rtype (image sid) d)

  unfoldable pub surface_present_readback : Option Region → Wait H Status
  surface_present_readback region d =
      if not have_svga3d
      then some (no_device, d)
      else regardless (
          fill_and_commit (clear_rects (rects_of region))
            (begin_present_readback host fuel (length (rects_of region)) d))

  -- Declarations of 9 dwords, and behind them ranges of 7.
  unfoldable pub draw_primitives :
      (cid num_vertex_decls num_ranges : ℕ) (decls ranges : Mem) → Wait H Status
  draw_primitives cid num_vertex_decls num_ranges decls ranges d =
      if not have_svga3d
      then some (no_device, d)
      else regardless (
          fill_and_commit
            (dwords (9 * num_vertex_decls) 0 decls ++ dwords (7 * num_ranges) 0 ranges)
            (begin_draw_primitives host fuel cid num_vertex_decls num_ranges d))

  unfoldable pub set_texture_state : (cid num_states : ℕ) (states : Mem) → Wait H Status
  set_texture_state cid num_states states d =
      if not have_svga3d
      then some (no_device, d)
      else regardless (
          fill_and_commit (dwords (3 * num_states) 0 states)
            (begin_set_texture_state host fuel cid num_states d))

  unfoldable pub set_render_state : (cid num_states : ℕ) (states : Mem) → Wait H Status
  set_render_state cid num_states states d =
      if not have_svga3d
      then some (no_device, d)
      else regardless (
          fill_and_commit (dwords (2 * num_states) 0 states)
            (begin_set_render_state host fuel cid num_states d))
