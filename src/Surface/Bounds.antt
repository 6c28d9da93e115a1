-- ===== src/Surface/Bounds.antt =====
-- The sizes that a surface computes, without overflow: every pixel of its buffer lies in its memory.
use docker_macos.Base.{ℕ, ◌+◌, ◌*◌, ◌%◌, ◌≤◌, ◌<◌, ◌≡◌, refl, true, false, ◌==◌, arith}
use native.Mathlib.Nat.{mod-eq_of_lt}
use docker_macos.Base.Word.{u32}
use docker_macos.Surface.{Surface}
use docker_macos.Surface.Shape.{round_up_to_page, source_size, calculate_scale_parameters}

mul_le : (a b c d : ℕ) → a ≤ c → b ≤ d → a * b ≤ c * d
mul_le a b c d h k = grind arith

round_up :
    (s : ℕ)
    → s + 4095 < u32
    → (s ≤ round_up_to_page s) × (round_up_to_page s < s + 4096) × (round_up_to_page s % 4096 ≡ 0)
unfolding round_up_to_page
round_up s h = ground arith

-- The last byte of a pixel, in a rectangle at (bx, by) of rows of w pixels.
inside :
    (bx by x y b w h : ℕ)
    → bx + x < w
    → by + y < h
    → by * (w * b) + bx * b + y * (w * b) + x * b + b ≤ h * (w * b)
inside bx by x y b w h p q =
    let m = mul_le (bx + x + 1) b w b (omega arith) (omega arith) in
    let n = mul_le (by + y + 1) (w * b) h (w * b) (omega arith) (omega arith) in
    let e : (bx + x + 1) * b ≡ bx * b + x * b + b = grind arith in
    let f : (by + y + 1) * (w * b) ≡ by * (w * b) + y * (w * b) + w * b = grind arith in
    omega (arith, m, n, e, f)

-- A surface without memory of the client, whose source has coordinates of int16_t and pixels of at
-- most four bytes.
pub record IsPlain {W : Type 0} (s : Surface W) : Type 0 where
  pub own : s.client.addr ≡ 0
  pub width : s.scale.source_w < 0x8000
  pub height : s.scale.source_h < 0x8000
  pub bytes : s.format.bytes_per_pixel ≤ 4

module _ {W : Type 0} (s : Surface W) (p : IsPlain s) where
  pitch_lem :
      (s.scale.source_w * s.format.bytes_per_pixel) % u32
      ≡ s.scale.source_w * s.format.bytes_per_pixel
  pitch_lem =
      let m =
        mul_le s.scale.source_w s.format.bytes_per_pixel 0x7fff 4 (omega (arith, p.width))
          p.bytes in
      mod-eq_of_lt (omega (arith, m))

  size_bound : s.scale.source_h * (s.scale.source_w * s.format.bytes_per_pixel) + 4095 < u32
  size_bound =
      let m =
        mul_le s.scale.source_w s.format.bytes_per_pixel 0x7fff 4 (omega (arith, p.width))
          p.bytes in
      let n =
        mul_le s.scale.source_h (s.scale.source_w * s.format.bytes_per_pixel) 0x7fff 0x1fffc
          (omega (arith, p.height)) (omega (arith, m)) in
      omega (arith, n)

  size_lem :
      (s.scale.source_h * (s.scale.source_w * s.format.bytes_per_pixel)) % u32
      ≡ s.scale.source_h * (s.scale.source_w * s.format.bytes_per_pixel)
  size_lem = mod-eq_of_lt (omega (arith, size_bound))

  -- Such a surface has rows of its width, whole pages of memory, enough for its rows and less than a
  -- page more; and each pixel of a buffer that lies within the source, from the offset of the buffer
  -- on, lies within that memory.
  pub calculate_scale_lem :
      (x y : ℕ)
      → x < s.scale.buffer.w
      → y < s.scale.buffer.h
      → s.scale.buffer.x + s.scale.buffer.w ≤ s.scale.source_w
      → s.scale.buffer.y + s.scale.buffer.h ≤ s.scale.source_h
      → let t = (calculate_scale_parameters false s).scale in
        let bytes = s.format.bytes_per_pixel in
        (t.pitch ≡ s.scale.source_w * bytes)
        × (t.byte_size % 4096 ≡ 0)
        × (s.scale.source_h * t.pitch ≤ t.byte_size)
        × (t.byte_size < s.scale.source_h * t.pitch + 4096)
        × (t.buffer_offset ≡ s.scale.buffer.y * t.pitch + s.scale.buffer.x * bytes)
        × (t.buffer_offset + y * t.pitch + x * bytes + bytes ≤ t.byte_size)
  unfolding calculate_scale_parameters source_size
  calculate_scale_lem x y hx hy fx fy =
      let b = s.format.bytes_per_pixel in
      let pitch = s.scale.source_w * b in
      let own : (s.client.addr == 0) ≡ true = ground (arith, p.own) in
      let r = round_up (s.scale.source_h * pitch) size_bound in
      let total =
        inside s.scale.buffer.x s.scale.buffer.y x y b s.scale.source_w s.scale.source_h
          (omega arith) (omega arith) in
      rw (own, pitch_lem, size_lem)
        (
          refl,
          r.2,
          r.0,
          r.1,
          omega (arith, total, size_bound),
          omega (arith, total, size_bound, r.0),
        )
