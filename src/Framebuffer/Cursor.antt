-- ===== src/Framebuffer/Cursor.antt =====
-- ConvertAlphaCursor: every pixel keeps its alpha, and its colours are scaled by it.
use docker_macos.Base.{
  ℕ, ◌+◌, ◌*◌, ◌/◌, ◌%◌, ◌≤◌, ◌<◌, ◌≡◌, refl, ◌⊎◌, inl, inr, ◌||◌, ◌==◌, arith, Bool-cases,
}
use docker_macos.Framebuffer.{channel, convert_pixel}

-- A colour that is scaled by an alpha of 8 bits does not exceed the alpha.
scaled : (c alpha : ℕ) → c < 256 → alpha < 256 → c * alpha / 255 ≤ alpha
scaled c alpha h k =
    let product : c * alpha ≤ 255 * alpha = grind arith in
    let rest : 255 * alpha / 255 ≡ alpha = omega arith in omega (arith, product)

-- Four bytes of a word.
joined :
    (a r g b : ℕ)
    → a < 256
    → r < 256
    → g < 256
    → b < 256
    → let q = a * 0x100_0000 + r * 0x1_0000 + g * 0x100 + b in
      (q / 0x100_0000 ≡ a) × (q / 0x1_0000 % 256 ≡ r) × (q / 0x100 % 256 ≡ g) × (q % 256 ≡ b)
joined a r g b ha hr hg hb = (omega arith, omega arith, omega arith, omega arith)

-- A pixel of 32 bits that is neither transparent nor opaque keeps its alpha, and each of its three
-- colours becomes the product with the alpha divided by 255, at most the alpha; other pixels stay.
pub convert_pixel_lem :
    (pixel : ℕ)
    → pixel < 0x1_0000_0000
    → let alpha = pixel / 0x100_0000 in
      let q = convert_pixel pixel in
      ((q ≡ pixel) × ((alpha ≡ 0) ⊎ (alpha ≡ 255)))
      ⊎ ((q / 0x100_0000 ≡ alpha)
          × (q / 0x1_0000 % 256 ≡ channel pixel 0x1_0000 alpha)
          × (q / 0x100 % 256 ≡ channel pixel 0x100 alpha)
          × (q % 256 ≡ channel pixel 1 alpha)
          × (channel pixel 0x1_0000 alpha ≤ alpha)
          × (channel pixel 0x100 alpha ≤ alpha)
          × (channel pixel 1 alpha ≤ alpha))
unfolding convert_pixel
convert_pixel_lem pixel h =
    let alpha = pixel / 0x100_0000 in
    elim (Bool-cases ((alpha == 0) || (alpha % 256 == 255))) [
      | inl plain ↦ inl (rw (plain, convert_pixel) refl, ground (arith, plain))
      | inr mixed ↦
          let byte : alpha < 256 = omega arith in
          let r = scaled (pixel / 0x1_0000 % 256) alpha (omega arith) byte in
          let g = scaled (pixel / 0x100 % 256) alpha (omega arith) byte in
          let b = scaled (pixel / 1 % 256) alpha (omega arith) byte in
          let (ea, er, eg, eb) =
            joined alpha (channel pixel 0x1_0000 alpha) (channel pixel 0x100 alpha)
              (channel pixel 1 alpha) byte (omega (arith, r)) (omega (arith, g))
              (omega (arith, b)) in
          inr (rw (mixed, convert_pixel) (ea, er, eg, eb, r, g, b))
    ]
