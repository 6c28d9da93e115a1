-- ===== src/Svga/Commands/Sent.antt =====
-- Every 2D command of SVGADevice.cpp against its format on the wire.
use docker_macos.Svga.Regs.{cap_gmr}
use docker_macos.Base.{
  ℕ, ◌+◌, ◌*◌, ◌≡◌, refl, Bool, true, some, List, [], ◌∷◌, length, arith, Bool-cases, inl, inr,
  false,
}
use docker_macos.Svga.{Host, Device, has_capability}
use docker_macos.Svga.Fifo.{Wait, fifo_reserve_cmd}
use docker_macos.Svga.Fifo.Send.{Sent, CanSend, send_lem}
use docker_macos.Svga.Commands.{
  Rect, CopyRect, rect_dwords, copy_rect_dwords, update_framebuffer, update_fullscreen,
  update_framebuffer2, rect_copy, rect_fill, define_gmr2, remap_gmr2, define_gmr,
}

pub data Command : Type 0 where
  update_cmd : (x y width height : ℕ) → Command
  fullscreen_cmd : Command
  update2_cmd : (rect : Rect) → Command
  copy_cmd : (rect : CopyRect) → Command
  fill_cmd : (color : ℕ) (rect : Rect) → Command
  define_gmr2_cmd : (gmr_id num_pages : ℕ) → Command
  remap_gmr2_cmd : (gmr_id flags offset_pages num_pages : ℕ) (suffix : List ℕ) → Command

module _ {H : Type 0} where
  -- The method that sends each.
  unfoldable pub perform : Host H → ℕ → Command → Wait H Bool
  perform host fuel (update_cmd x y width height) = update_framebuffer host fuel x y width height
  perform host fuel fullscreen_cmd = update_fullscreen host fuel
  perform host fuel (update2_cmd rect) = update_framebuffer2 host fuel rect
  perform host fuel (copy_cmd rect) = rect_copy host fuel rect
  perform host fuel (fill_cmd color rect) = rect_fill host fuel color rect
  perform host fuel (define_gmr2_cmd gmr_id num_pages) = define_gmr2 host fuel gmr_id num_pages
  perform host fuel (remap_gmr2_cmd gmr_id flags offset_pages num_pages suffix) =
      remap_gmr2 host fuel gmr_id flags offset_pages num_pages (some suffix) (4 * length suffix)

  -- A command on the wire: its number, then its fields. A fill is SVGA_CMD_FRONT_ROP_FILL with the
  -- raster operation SVGA_ROP_COPY; a full update is of the current mode.
  abbrev pub encode : Device H → Command → List ℕ
  encode d (update_cmd x y width height) = 1 ∷ x ∷ y ∷ width ∷ height ∷ []
  encode d fullscreen_cmd = 1 ∷ 0 ∷ 0 ∷ d.width ∷ d.height ∷ []
  encode d (update2_cmd rect) = 1 ∷ rect.x ∷ rect.y ∷ rect.w ∷ rect.h ∷ []
  encode d (copy_cmd rect) =
      3 ∷ rect.src_x ∷ rect.src_y ∷ rect.dest_x ∷ rect.dest_y ∷ rect.w ∷ rect.h ∷ []
  encode d (fill_cmd color rect) = 29 ∷ color ∷ rect.x ∷ rect.y ∷ rect.w ∷ rect.h ∷ 3 ∷ []
  encode d (define_gmr2_cmd gmr_id num_pages) = 41 ∷ gmr_id ∷ num_pages ∷ []
  encode d (remap_gmr2_cmd gmr_id flags offset_pages num_pages suffix) =
      42 ∷ gmr_id ∷ flags ∷ offset_pages ∷ num_pages ∷ suffix

  -- Every 2D command for which there is room is sent as it is written on the wire, behind those
  -- that were pending.
  pub perform2d_lem :
      (host : Host H) (fuel : ℕ) (c : Command) (d : Device H)
      → CanSend host fuel d (length (encode d c))
      → (e : Device H) × (perform host fuel c d ≡ some (true, e)) × Sent d (encode d c) e
  unfolding perform fifo_reserve_cmd update_framebuffer update_fullscreen update_framebuffer2
      rect_copy rect_fill define_gmr2 remap_gmr2
  perform2d_lem host fuel (update_cmd x y width height) d h =
      send_lem host fuel 20 (1 ∷ []) (x ∷ y ∷ width ∷ height ∷ []) d h (λ e. omega arith) refl
  perform2d_lem host fuel fullscreen_cmd d h =
      send_lem host fuel 20 (1 ∷ []) (0 ∷ 0 ∷ d.width ∷ d.height ∷ []) d h (λ e. omega arith) refl
  perform2d_lem host fuel (update2_cmd rect) d h =
      send_lem host fuel 20 (1 ∷ []) (rect_dwords rect) d h (λ e. omega arith) refl
  perform2d_lem host fuel (copy_cmd rect) d h =
      send_lem host fuel 28 (3 ∷ []) (copy_rect_dwords rect) d h (λ e. omega arith) refl
  perform2d_lem host fuel (fill_cmd color rect) d h =
      send_lem host fuel 28 (29 ∷ []) (color ∷ rect.x ∷ rect.y ∷ rect.w ∷ rect.h ∷ 3 ∷ []) d h
        (λ e. omega arith) refl
  perform2d_lem host fuel (define_gmr2_cmd gmr_id num_pages) d h =
      send_lem host fuel 12 (41 ∷ []) (gmr_id ∷ num_pages ∷ []) d h (λ e. omega arith) refl
  perform2d_lem host fuel (remap_gmr2_cmd gmr_id flags offset_pages num_pages suffix) d h =
      send_lem host fuel (16 + 4 * length suffix + 4) (42 ∷ [])
        (gmr_id ∷ flags ∷ offset_pages ∷ num_pages ∷ suffix) d h (λ e. omega arith) (omega arith)

  -- DefineGMR answers whether the adapter has guest memory regions, and without them changes nothing.
  pub define_gmr_lem :
      (host : Host H) (gmr_id ppn : ℕ) (d : Device H)
      → let (b, d') = define_gmr host gmr_id ppn d in
        (b ≡ has_capability d cap_gmr) × (b ≡ false → d' ≡ d)
  unfolding define_gmr
  define_gmr_lem host gmr_id ppn d = elim (Bool-cases (has_capability d cap_gmr)) [
    | inl able ↦ rw (able, define_gmr) (refl, λ e. ground arith)
    | inr unable ↦ rw (unable, define_gmr) (refl, λ e. refl)
  ]
