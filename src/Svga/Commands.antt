-- ===== src/Svga/Commands.antt =====
-- The 2D and memory region commands of SVGADevice.cpp. Each method takes the fuel of the loop in
-- FIFOReserve, and returns what the C++ method returns.
pub mod Sent
use docker_macos.Base.{
  ℕ, ◌+◌, ◌*◌, ◌%◌, ◌/◌, Bool, true, false, ◌&&◌, not, Option, none, some, List, [], ◌∷◌, length,
  ◌==◌, if◌then◌else◌,
}
use docker_macos.Svga.{Host, Device, Pointer, write_reg, has_capability}
use docker_macos.Svga.Fifo.{
  Wait, put, fifo_reserve, fifo_reserve_cmd, fifo_commit_all, ◌+ptr◌, fill_and_commit,
}
use docker_macos.Svga.Regs.{
  cmd_update, cmd_rect_copy, cmd_front_rop_fill, cmd_define_gmr2, cmd_remap_gmr2, rop_copy, cap_gmr,
  reg_gmr_id, reg_gmr_descriptor,
}

-- Four and six consecutive dwords, as `memcpy` takes them from the caller's array.
pub record Rect : Type 0 where
  pub x : ℕ
  pub y : ℕ
  pub w : ℕ
  pub h : ℕ

pub record CopyRect : Type 0 where
  pub src_x : ℕ
  pub src_y : ℕ
  pub dest_x : ℕ
  pub dest_y : ℕ
  pub w : ℕ
  pub h : ℕ

abbrev pub rect_dwords : Rect → List ℕ
rect_dwords r = r.x ∷ r.y ∷ r.w ∷ r.h ∷ []

abbrev pub copy_rect_dwords : CopyRect → List ℕ
copy_rect_dwords r = r.src_x ∷ r.src_y ∷ r.dest_x ∷ r.dest_y ∷ r.w ∷ r.h ∷ []

module _ {H : Type 0} (host : Host H) where
  pub update_framebuffer : (fuel x y width height : ℕ) → Wait H Bool
  update_framebuffer fuel x y width height d =
      fill_and_commit (x ∷ y ∷ width ∷ height ∷ []) (fifo_reserve_cmd host fuel cmd_update 16 d)

  pub update_fullscreen : ℕ → Wait H Bool
  update_fullscreen fuel d = update_framebuffer fuel 0 0 d.width d.height d

  pub update_framebuffer2 : ℕ → Rect → Wait H Bool
  update_framebuffer2 fuel rect d =
      fill_and_commit (rect_dwords rect) (fifo_reserve_cmd host fuel cmd_update 16 d)

  pub rect_copy : ℕ → CopyRect → Wait H Bool
  rect_copy fuel rect d =
      fill_and_commit (copy_rect_dwords rect) (fifo_reserve_cmd host fuel cmd_rect_copy 24 d)

  pub rect_fill : ℕ → ℕ → Rect → Wait H Bool
  rect_fill fuel color rect d =
      fill_and_commit (color ∷ rect.x ∷ rect.y ∷ rect.w ∷ rect.h ∷ rop_copy ∷ [])
        (fifo_reserve_cmd host fuel cmd_front_rop_fill 24 d)

  pub define_gmr : (gmr_id ppn : ℕ) → Device H → Bool × Device H
  define_gmr gmr_id ppn d =
      if not (has_capability d cap_gmr)
      then (false, d)
      else (true, write_reg host (write_reg host d reg_gmr_id gmr_id) reg_gmr_descriptor ppn)

  pub define_gmr2 : (fuel gmr_id num_pages : ℕ) → Wait H Bool
  define_gmr2 fuel gmr_id num_pages d =
      fill_and_commit (gmr_id ∷ num_pages ∷ []) (fifo_reserve_cmd host fuel cmd_define_gmr2 8 d)

  -- The suffix is `none` for a null pointer, else an array of dwords; `suffix_size` counts bytes
  -- and is its size where it is given. A null suffix with a size is refused.
  pub remap_gmr2 :
      (fuel gmr_id flags offset_pages num_pages : ℕ) → Option (List ℕ) → ℕ → Wait H Bool
  remap_gmr2 fuel gmr_id flags offset_pages num_pages none suffix_size d =
      if not (suffix_size == 0)
      then some (false, d)
      else fill_and_commit (gmr_id ∷ flags ∷ offset_pages ∷ num_pages ∷ [])
          (fifo_reserve_cmd host fuel cmd_remap_gmr2 16 d)
  remap_gmr2 fuel gmr_id flags offset_pages num_pages (some suffix) suffix_size d =
      fill_and_commit (gmr_id ∷ flags ∷ offset_pages ∷ num_pages ∷ suffix)
        (fifo_reserve_cmd host fuel cmd_remap_gmr2 (16 + suffix_size) d)
