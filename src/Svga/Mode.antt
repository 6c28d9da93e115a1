-- ===== src/Svga/Mode.antt =====
-- The position of the cursor, SetMode and the block of 3D capabilities of SVGADevice.cpp.
use docker_macos.Base.{
  ℕ, ◌*◌, ◌≤◌, ◌≡◌, refl, inl, inr, Bool, Option, none, some, leb, if◌then◌else◌, arith, bit_or,
  Bool-cases,
}
use docker_macos.Base.Word.{add32}
use docker_macos.Svga.{Host, Device, write_reg, read_reg, has_fifo_cap}
use docker_macos.Svga.Regs.{
  reg_width, reg_height, reg_bits_per_pixel, reg_enable, reg_bytes_per_line, reg_fb_size, fifo_min,
  fifo_cap_screen_object, fifo_cap_screen_object_2,
}
use docker_macos.Svga.Fifo.Inv.{IsValid, queue, queue-SameRing}
use docker_macos.Svga.Fence.{sync_fifo}
use docker_macos.Svga.Cursor.{set_screen_cursor_state}

-- A cursor that is set through the FIFO, whose ring starts behind the registers that are written,
-- leaves the commands in the ring alone and the FIFO well formed, sets the three registers of the
-- cursor, and counts the change.
pub set_screen_cursor_lem :
    {H : Type 0} (screen_id x y : ℕ) (visible : Bool) (d : Device H)
    → IsValid d.fifo
    → 64 ≤ d.fifo 0
    → let e = set_screen_cursor_state screen_id x y visible d in
      (queue d.fifo ≡ queue e.fifo)
      × IsValid e.fifo
      × (e.fifo 9 ≡ (if visible then 1 else 0))
      × (e.fifo 10 ≡ x)
      × (e.fifo 11 ≡ y)
      × (e.fifo 12 ≡ add32 (d.fifo 12) 1)
unfolding set_screen_cursor_state
set_screen_cursor_lem screen_id x y visible d v min =
    elim (Bool-cases (has_fifo_cap d (bit_or fifo_cap_screen_object fifo_cap_screen_object_2))) [
      | inl screens ↦ rw screens (
        queue-SameRing v record { min = refl; max = refl; next = refl; cells = λ i h. ground arith }
            refl,
        v,
        refl,
        refl,
        refl,
        refl,
      )
      | inr other ↦ rw other (
        queue-SameRing v record { min = refl; max = refl; next = refl; cells = λ i h. ground arith }
            refl,
        v,
        refl,
        refl,
        refl,
        refl,
      )
    ]

module _ {H : Type 0} (host : Host H) where
  -- The writes and reads of SetMode behind SyncFIFO.
  unfoldable pub write_mode : (width height bpp : ℕ) → Device H → Device H
  write_mode width height bpp d =
      let d1 = write_reg host (write_reg host d reg_width width) reg_height height in
      let d2 = write_reg host (write_reg host d1 reg_bits_per_pixel bpp) reg_enable 1 in
      let (pitch, d3) = read_reg host d2 reg_bytes_per_line in
      let (size, d4) = read_reg host (record d3 { pitch = pitch }) reg_fb_size in
      record d4 { fb_size = size; width = width; height = height }

  unfoldable pub set_mode : (fuel width height bpp : ℕ) → Device H → Option (Device H)
  set_mode fuel width height bpp d = elim (sync_fifo host fuel d) [
    | none ↦ none
    | some d' ↦ some (write_mode width height bpp d')
  ]

-- `none` is the null pointer, else the index of the first dword of the block.
unfoldable pub get_3d_caps_block : {H : Type 0} → Device H → Option ℕ
get_3d_caps_block d = if leb (d.fifo fifo_min) (4 * 287) then none else some 32
