-- ===== src/Svga3d/Sent.antt =====
-- Every command that SVGA3D.cpp sends by itself, against its format on the wire.
use docker_macos.Base.{
  ℕ, ◌+◌, ◌*◌, ◌≡◌, refl, Bool, true, some, List, [], ◌∷◌, ◌++◌, length, arith, if◌then◌else◌,
}
use docker_macos.Base.Mem.{Mem}
use docker_macos.Svga.{Host, Device}
use docker_macos.Svga.Fifo.{Wait}
use docker_macos.Svga.Fifo.Send.{Sent, CanSend, send_lem}
use docker_macos.Svga3d.{
  dwords, reserve, destroy_surface, define_context, destroy_context, set_render_target,
  set_transform, set_material, set_light_enabled, set_light_data, destroy_shader, set_shader,
  surface_stretch_blt, set_viewport, set_scissor_rect, set_zrange, set_clip_plane, begin_query,
  end_query, wait_for_query,
}

pub data Command : Type 0 where
  destroy_surface_cmd : (sid : ℕ) → Command
  define_context_cmd : (cid : ℕ) → Command
  destroy_context_cmd : (cid : ℕ) → Command
  set_render_target_cmd : (cid : ℕ) (type : ℕ) (target : Mem) → Command
  set_transform_cmd : (cid : ℕ) (type : ℕ) (matrix : Mem) → Command
  set_material_cmd : (cid : ℕ) (face : ℕ) (material : Mem) → Command
  set_light_enabled_cmd : (cid : ℕ) (index : ℕ) (enabled : Bool) → Command
  set_light_data_cmd : (cid : ℕ) (index : ℕ) (light : Mem) → Command
  destroy_shader_cmd : (cid : ℕ) (shid : ℕ) (type : ℕ) → Command
  set_shader_cmd : (cid : ℕ) (type : ℕ) (shid : ℕ) → Command
  surface_stretch_blt_cmd :
      (src : Mem) (dest : Mem) (box_src : Mem) (box_dest : Mem) (mode : ℕ) → Command
  set_viewport_cmd : (cid : ℕ) (rect : Mem) → Command
  set_scissor_rect_cmd : (cid : ℕ) (rect : Mem) → Command
  set_zrange_cmd : (cid : ℕ) (zmin : ℕ) (zmax : ℕ) → Command
  set_clip_plane_cmd : (cid : ℕ) (index : ℕ) (plane : Mem) → Command
  begin_query_cmd : (cid : ℕ) (qtype : ℕ) → Command
  end_query_cmd : (cid : ℕ) (qtype : ℕ) (gmr_id : ℕ) (offset_in_gmr : ℕ) → Command
  wait_for_query_cmd : (cid : ℕ) (qtype : ℕ) (gmr_id : ℕ) (offset_in_gmr : ℕ) → Command

-- The method that sends each.
unfoldable pub perform : {H : Type 0} → Host H → ℕ → Command → Wait H Bool
perform host fuel (destroy_surface_cmd sid) = destroy_surface host fuel sid
perform host fuel (define_context_cmd cid) = define_context host fuel cid
perform host fuel (destroy_context_cmd cid) = destroy_context host fuel cid
perform host fuel (set_render_target_cmd cid type target) =
    set_render_target host fuel cid type target
perform host fuel (set_transform_cmd cid type matrix) = set_transform host fuel cid type matrix
perform host fuel (set_material_cmd cid face material) = set_material host fuel cid face material
perform host fuel (set_light_enabled_cmd cid index enabled) =
    set_light_enabled host fuel cid index enabled
perform host fuel (set_light_data_cmd cid index light) = set_light_data host fuel cid index light
perform host fuel (destroy_shader_cmd cid shid type) = destroy_shader host fuel cid shid type
perform host fuel (set_shader_cmd cid type shid) = set_shader host fuel cid type shid
perform host fuel (surface_stretch_blt_cmd src dest box_src box_dest mode) =
    surface_stretch_blt host fuel src dest box_src box_dest mode
perform host fuel (set_viewport_cmd cid rect) = set_viewport host fuel cid rect
perform host fuel (set_scissor_rect_cmd cid rect) = set_scissor_rect host fuel cid rect
perform host fuel (set_zrange_cmd cid zmin zmax) = set_zrange host fuel cid zmin zmax
perform host fuel (set_clip_plane_cmd cid index plane) = set_clip_plane host fuel cid index plane
perform host fuel (begin_query_cmd cid qtype) = begin_query host fuel cid qtype
perform host fuel (end_query_cmd cid qtype gmr_id offset_in_gmr) =
    end_query host fuel cid qtype gmr_id offset_in_gmr
perform host fuel (wait_for_query_cmd cid qtype gmr_id offset_in_gmr) =
    wait_for_query host fuel cid qtype gmr_id offset_in_gmr

-- The command number, from SVGA_3D_CMD_BASE.
abbrev pub number : Command → ℕ
number (destroy_surface_cmd sid) = 1040 + 1
number (define_context_cmd cid) = 1040 + 5
number (destroy_context_cmd cid) = 1040 + 6
number (set_render_target_cmd cid type target) = 1040 + 10
number (set_transform_cmd cid type matrix) = 1040 + 7
number (set_material_cmd cid face material) = 1040 + 12
number (set_light_enabled_cmd cid index enabled) = 1040 + 14
number (set_light_data_cmd cid index light) = 1040 + 13
number (destroy_shader_cmd cid shid type) = 1040 + 20
number (set_shader_cmd cid type shid) = 1040 + 21
number (surface_stretch_blt_cmd src dest box_src box_dest mode) = 1040 + 3
number (set_viewport_cmd cid rect) = 1040 + 15
number (set_scissor_rect_cmd cid rect) = 1040 + 24
number (set_zrange_cmd cid zmin zmax) = 1040 + 8
number (set_clip_plane_cmd cid index plane) = 1040 + 16
number (begin_query_cmd cid qtype) = 1040 + 25
number (end_query_cmd cid qtype gmr_id offset_in_gmr) = 1040 + 26
number (wait_for_query_cmd cid qtype gmr_id offset_in_gmr) = 1040 + 27

-- The structure that follows the header, field by field.
abbrev pub body : Command → List ℕ
body (destroy_surface_cmd sid) = sid ∷ []
body (define_context_cmd cid) = cid ∷ []
body (destroy_context_cmd cid) = cid ∷ []
body (set_render_target_cmd cid type target) = cid ∷ type ∷ dwords 3 0 target
body (set_transform_cmd cid type matrix) = cid ∷ type ∷ dwords 16 0 matrix
body (set_material_cmd cid face material) = cid ∷ face ∷ dwords 17 0 material
body (set_light_enabled_cmd cid index enabled) = cid ∷ index ∷ (if enabled then 1 else 0) ∷ []
body (set_light_data_cmd cid index light) = cid ∷ index ∷ dwords 29 0 light
body (destroy_shader_cmd cid shid type) = cid ∷ shid ∷ type ∷ []
body (set_shader_cmd cid type shid) = cid ∷ type ∷ shid ∷ []
body (surface_stretch_blt_cmd src dest box_src box_dest mode) =
    dwords 3 0 src
    ++ (dwords 3 0 dest ++ (dwords 6 0 box_src ++ (dwords 6 0 box_dest ++ (mode ∷ []))))
body (set_viewport_cmd cid rect) = cid ∷ dwords 4 0 rect
body (set_scissor_rect_cmd cid rect) = cid ∷ dwords 4 0 rect
body (set_zrange_cmd cid zmin zmax) = cid ∷ zmin ∷ zmax ∷ []
body (set_clip_plane_cmd cid index plane) = cid ∷ index ∷ dwords 4 0 plane
body (begin_query_cmd cid qtype) = cid ∷ qtype ∷ []
body (end_query_cmd cid qtype gmr_id offset_in_gmr) = cid ∷ qtype ∷ gmr_id ∷ offset_in_gmr ∷ []
body (wait_for_query_cmd cid qtype gmr_id offset_in_gmr) = cid ∷ qtype ∷ gmr_id ∷ offset_in_gmr ∷ []

-- A command on the wire: its number, the number of bytes that follow, and its fields.
abbrev pub encode : Command → List ℕ
encode c = number c ∷ 4 * length (body c) ∷ body c

-- If the command fits, each of the eighteen methods that send a command by themselves sends it as its
-- number, the number of bytes that follow, and its fields, behind what is left of those pending.
pub perform_lem :
    {H : Type 0} (host : Host H) (fuel : ℕ) (c : Command) (d : Device H)
    → CanSend host fuel d (length (encode c))
    → (e : Device H) × (perform host fuel c d ≡ some (true, e)) × Sent d (encode c) e
unfolding perform reserve destroy_surface define_context destroy_context set_render_target
    set_transform set_material set_light_enabled set_light_data destroy_shader set_shader
    surface_stretch_blt set_viewport set_scissor_rect set_zrange set_clip_plane begin_query
    end_query wait_for_query
perform_lem host fuel (destroy_surface_cmd sid) d h =
    send_lem host fuel 12 (1041 ∷ 4 ∷ []) (sid ∷ []) d h (omega arith) refl
perform_lem host fuel (define_context_cmd cid) d h =
    send_lem host fuel 12 (1045 ∷ 4 ∷ []) (cid ∷ []) d h (omega arith) refl
perform_lem host fuel (destroy_context_cmd cid) d h =
    send_lem host fuel 12 (1046 ∷ 4 ∷ []) (cid ∷ []) d h (omega arith) refl
perform_lem host fuel (set_render_target_cmd cid type target) d h =
    send_lem host fuel 28 (1050 ∷ 20 ∷ []) (cid ∷ type ∷ dwords 3 0 target) d h (omega arith) refl
perform_lem host fuel (set_transform_cmd cid type matrix) d h =
    send_lem host fuel 80 (1047 ∷ 72 ∷ []) (cid ∷ type ∷ dwords 16 0 matrix) d h (omega arith) refl
perform_lem host fuel (set_material_cmd cid face material) d h =
    send_lem host fuel 84 (1052 ∷ 76 ∷ []) (cid ∷ face ∷ dwords 17 0 material) d h (omega arith)
      refl
perform_lem host fuel (set_light_enabled_cmd cid index enabled) d h =
    send_lem host fuel 20 (1054 ∷ 12 ∷ []) (cid ∷ index ∷ (if enabled then 1 else 0) ∷ []) d h
      (omega arith) refl
perform_lem host fuel (set_light_data_cmd cid index light) d h =
    send_lem host fuel 132 (1053 ∷ 124 ∷ []) (cid ∷ index ∷ dwords 29 0 light) d h (omega arith)
      refl
perform_lem host fuel (destroy_shader_cmd cid shid type) d h =
    send_lem host fuel 20 (1060 ∷ 12 ∷ []) (cid ∷ shid ∷ type ∷ []) d h (omega arith) refl
perform_lem host fuel (set_shader_cmd cid type shid) d h =
    send_lem host fuel 20 (1061 ∷ 12 ∷ []) (cid ∷ type ∷ shid ∷ []) d h (omega arith) refl
perform_lem host fuel (surface_stretch_blt_cmd src dest box_src box_dest mode) d h =
    send_lem host fuel 84 (1043 ∷ 76 ∷ [])
      (dwords 3 0 src
        ++ (dwords 3 0 dest ++ (dwords 6 0 box_src ++ (dwords 6 0 box_dest ++ (mode ∷ [])))))
      d h (omega arith) refl
perform_lem host fuel (set_viewport_cmd cid rect) d h =
    send_lem host fuel 28 (1055 ∷ 20 ∷ []) (cid ∷ dwords 4 0 rect) d h (omega arith) refl
perform_lem host fuel (set_scissor_rect_cmd cid rect) d h =
    send_lem host fuel 28 (1064 ∷ 20 ∷ []) (cid ∷ dwords 4 0 rect) d h (omega arith) refl
perform_lem host fuel (set_zrange_cmd cid zmin zmax) d h =
    send_lem host fuel 20 (1048 ∷ 12 ∷ []) (cid ∷ zmin ∷ zmax ∷ []) d h (omega arith) refl
perform_lem host fuel (set_clip_plane_cmd cid index plane) d h =
    send_lem host fuel 32 (1056 ∷ 24 ∷ []) (cid ∷ index ∷ dwords 4 0 plane) d h (omega arith) refl
perform_lem host fuel (begin_query_cmd cid qtype) d h =
    send_lem host fuel 16 (1065 ∷ 8 ∷ []) (cid ∷ qtype ∷ []) d h (omega arith) refl
perform_lem host fuel (end_query_cmd cid qtype gmr_id offset_in_gmr) d h =
    send_lem host fuel 24 (1066 ∷ 16 ∷ []) (cid ∷ qtype ∷ gmr_id ∷ offset_in_gmr ∷ []) d h
      (omega arith) refl
perform_lem host fuel (wait_for_query_cmd cid qtype gmr_id offset_in_gmr) d h =
    send_lem host fuel 24 (1067 ∷ 16 ∷ []) (cid ∷ qtype ∷ gmr_id ∷ offset_in_gmr ∷ []) d h
      (omega arith) refl
