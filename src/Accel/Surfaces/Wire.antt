-- ===== src/Accel/Surfaces/Wire.antt =====
-- What the methods of the accelerator over SVGA3D send.
use docker_macos.Base.{ℕ, ◌+◌, ◌%◌, ◌^◌, ◌*◌, Bool, Option, some, List, [], ◌∷◌, ◌++◌, length}
use docker_macos.Base.Mem.{Mem}
use docker_macos.Svga.{Host}
use docker_macos.Svga.Fifo.{Wait}
use docker_macos.Svga.Fifo.Send.{Sent}
use docker_macos.Svga.Fifo.Stream.{wire}
use docker_macos.Svga.Commands.{Rect}
use docker_macos.Svga3d.{dwords}
use docker_macos.Svga3d.Begin
use docker_macos.Svga3d.Sent.{encode}
use docker_macos.Accel.{Status, Region}
use docker_macos.Accel.Surfaces.{
  Extra, image, rects_of, create_surface, create_context, copy_surface, clear_surface,
  destroy_surface, destroy_context, set_render_target, surface_present_readback, draw_primitives,
  set_texture_state, set_render_state,
}

-- SVGA3dCopyBox of a rectangle: its place at the destination, its extent and its place at the source.
abbrev pub box_code : Extra → Rect → List ℕ
box_code extra r =
    ((r.x + extra.dst_delta_x) % 2 ^ 32)
    ∷ ((r.y + extra.dst_delta_y) % 2 ^ 32)
    ∷ 0
    ∷ r.w
    ∷ r.h
    ∷ 1
    ∷ ((r.x + extra.src_delta_x) % 2 ^ 32)
    ∷ ((r.y + extra.src_delta_y) % 2 ^ 32)
    ∷ 0
    ∷ []

abbrev pub rect_code : Rect → List ℕ
rect_code r = r.x ∷ r.y ∷ r.w ∷ r.h ∷ []

pub data Call : Type 0 where
  new_surface : (sid surface_flags surface_format width height : ℕ) → Call
  new_context : (cid : ℕ) → Call
  copied_surface : (src_sid dst_sid : ℕ) (region : Option Region) (extra : Extra) → Call
  cleared_surface : (cid flags : ℕ) (region : Option Region) (color depth stencil : ℕ) → Call
  lost_surface : (sid : ℕ) → Call
  lost_context : (cid : ℕ) → Call
  render_target : (cid rtype sid : ℕ) → Call
  readback : (region : Option Region) → Call
  drawn : (cid num_vertex_decls num_ranges : ℕ) (decls ranges : Mem) → Call
  texture_state : (cid num_states : ℕ) (states : Mem) → Call
  render_state : (cid num_states : ℕ) (states : Mem) → Call

-- The method of the accelerator.
abbrev pub call : {H : Type 0} → Host H → ℕ → Bool → Call → Wait H Status
call host fuel b (new_surface sid flags format width height) =
    create_surface host fuel b sid flags format width height
call host fuel b (new_context cid) = create_context host fuel b cid
call host fuel b (copied_surface src_sid dst_sid region extra) =
    copy_surface host fuel b src_sid dst_sid region (some extra)
call host fuel b (cleared_surface cid flags region color depth stencil) =
    clear_surface host fuel b cid flags region color depth stencil
call host fuel b (lost_surface sid) = destroy_surface host fuel b sid
call host fuel b (lost_context cid) = destroy_context host fuel b cid
call host fuel b (render_target cid rtype sid) = set_render_target host fuel b cid rtype sid
call host fuel b (readback region) = surface_present_readback host fuel b region
call host fuel b (drawn cid nd nr decls ranges) = draw_primitives host fuel b cid nd nr decls ranges
call host fuel b (texture_state cid n states) = set_texture_state host fuel b cid n states
call host fuel b (render_state cid n states) = set_render_state host fuel b cid n states

-- On the wire: the number, the number of bytes that follow, and the fields.
abbrev pub wire_of : Call → List ℕ
wire_of (new_surface sid flags format width height) =
    1040 ∷ 48 ∷ sid ∷ flags ∷ format ∷ 1 ∷ 0 ∷ 0 ∷ 0 ∷ 0 ∷ 0 ∷ width ∷ height ∷ 1 ∷ []
wire_of (new_context cid) = 1045 ∷ 4 ∷ cid ∷ []
wire_of (copied_surface src_sid dst_sid region extra) =
    Begin.encode (Begin.surface_copy (image src_sid) (image dst_sid) (length (rects_of region)))
      (wire (box_code extra) (rects_of region))
wire_of (cleared_surface cid flags region color depth stencil) =
    Begin.encode (Begin.clear cid flags color depth stencil (length (rects_of region)))
      (wire rect_code (rects_of region))
wire_of (lost_surface sid) = 1041 ∷ 4 ∷ sid ∷ []
wire_of (lost_context cid) = 1046 ∷ 4 ∷ cid ∷ []
wire_of (render_target cid rtype sid) = 1050 ∷ 20 ∷ cid ∷ rtype ∷ sid ∷ 0 ∷ 0 ∷ []
wire_of (readback region) =
    Begin.encode (Begin.present_readback (length (rects_of region)))
      (wire rect_code (rects_of region))
wire_of (drawn cid nd nr decls ranges) =
    Begin.encode (Begin.draw_primitives cid nd nr)
      (dwords (9 * nd) 0 decls ++ dwords (7 * nr) 0 ranges)
wire_of (texture_state cid n states) =
    Begin.encode (Begin.set_texture_state cid n) (dwords (3 * n) 0 states)
wire_of (render_state cid n states) =
    Begin.encode (Begin.set_render_state cid n) (dwords (2 * n) 0 states)
