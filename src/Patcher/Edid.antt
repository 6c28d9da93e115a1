-- ===== src/Patcher/Edid.antt =====
-- The two blocks of the EDID of patcher.cpp.
use docker_macos.Base.{
  ℕ, ◌≡◌, refl, ◌⊎◌, inl, inr, true, some, List, [], ◌∷◌, arith, Bool-cases, ◌≢◌, ◌==◌,
}
use docker_macos.QemuDisplay.Edid.{Given, block-take}
use docker_macos.Patcher.{Globals, good, bad, bad_argument, patched_get_ddc_block}

abbrev pub imac20_edid_block0 : List ℕ
imac20_edid_block0 =
    0x00 ∷ 0xff ∷ 0xff ∷ 0xff ∷ 0xff ∷ 0xff ∷ 0xff ∷ 0x00 ∷ 0x06 ∷ 0x10 ∷ 0x31 ∷ 0xae ∷ 0x20 ∷ 0x33
    ∷ 0x6a ∷ 0x63 ∷ 0x16 ∷ 0x1d ∷ 0x01 ∷ 0x04 ∷ 0xb5 ∷ 0x3c ∷ 0x22 ∷ 0x78 ∷ 0x20 ∷ 0x0e ∷ 0x21
    ∷ 0xae ∷ 0x52 ∷ 0x41 ∷ 0xb2 ∷ 0x26 ∷ 0x0e ∷ 0x50 ∷ 0x54 ∷ 0x00 ∷ 0x00 ∷ 0x00 ∷ 0x01 ∷ 0x01
    ∷ 0x01 ∷ 0x01 ∷ 0x01 ∷ 0x01 ∷ 0x01 ∷ 0x01 ∷ 0x01 ∷ 0x01 ∷ 0x01 ∷ 0x01 ∷ 0x01 ∷ 0x01 ∷ 0x01
    ∷ 0x01 ∷ 0x4d ∷ 0xd0 ∷ 0x00 ∷ 0xa0 ∷ 0xf0 ∷ 0x70 ∷ 0x3e ∷ 0x80 ∷ 0x30 ∷ 0x20 ∷ 0x35 ∷ 0x00
    ∷ 0x55 ∷ 0x50 ∷ 0x21 ∷ 0x00 ∷ 0x00 ∷ 0x1a ∷ 0x56 ∷ 0x5e ∷ 0x00 ∷ 0xa0 ∷ 0xa0 ∷ 0xa0 ∷ 0x29
    ∷ 0x50 ∷ 0x30 ∷ 0x20 ∷ 0x35 ∷ 0x00 ∷ 0x55 ∷ 0x50 ∷ 0x21 ∷ 0x00 ∷ 0x00 ∷ 0x1a ∷ 0x00 ∷ 0x00
    ∷ 0x00 ∷ 0xfc ∷ 0x00 ∷ 0x69 ∷ 0x4d ∷ 0x61 ∷ 0x63 ∷ 0x0a ∷ 0x20 ∷ 0x20 ∷ 0x20 ∷ 0x20 ∷ 0x20
    ∷ 0x20 ∷ 0x20 ∷ 0x20 ∷ 0x00 ∷ 0x00 ∷ 0x00 ∷ 0xff ∷ 0x00 ∷ 0x39 ∷ 0x38 ∷ 0x34 ∷ 0x44 ∷ 0x38
    ∷ 0x43 ∷ 0x42 ∷ 0x32 ∷ 0x30 ∷ 0x33 ∷ 0x33 ∷ 0x32 ∷ 0x41 ∷ 0x01 ∷ 0xf1 ∷ []

abbrev pub imac20_edid_block1 : List ℕ
imac20_edid_block1 =
    0x02 ∷ 0x03 ∷ 0x1f ∷ 0x80 ∷ 0x70 ∷ 0xfa ∷ 0x10 ∷ 0x00 ∷ 0x00 ∷ 0x12 ∷ 0x76 ∷ 0x31 ∷ 0xfc ∷ 0x78
    ∷ 0xfb ∷ 0xff ∷ 0x02 ∷ 0x10 ∷ 0x88 ∷ 0x62 ∷ 0xd3 ∷ 0x69 ∷ 0xfa ∷ 0x10 ∷ 0x00 ∷ 0xfa ∷ 0xf8
    ∷ 0xf8 ∷ 0xfe ∷ 0xff ∷ 0xff ∷ 0xcd ∷ 0x91 ∷ 0x80 ∷ 0xa0 ∷ 0xc0 ∷ 0x08 ∷ 0x34 ∷ 0x70 ∷ 0x30
    ∷ 0x20 ∷ 0x35 ∷ 0x00 ∷ 0x55 ∷ 0x50 ∷ 0x21 ∷ 0x00 ∷ 0x00 ∷ 0x1a ∷ 0x00 ∷ 0x00 ∷ 0x00 ∷ 0x00
    ∷ 0x00 ∷ 0x00 ∷ 0x00 ∷ 0x00 ∷ 0x00 ∷ 0x00 ∷ 0x00 ∷ 0x00 ∷ 0x00 ∷ 0x00 ∷ 0x00 ∷ 0x00 ∷ 0x00
    ∷ 0x00 ∷ 0x00 ∷ 0x00 ∷ 0x00 ∷ 0x00 ∷ 0x00 ∷ 0x00 ∷ 0x00 ∷ 0x00 ∷ 0x00 ∷ 0x00 ∷ 0x00 ∷ 0x00
    ∷ 0x00 ∷ 0x00 ∷ 0x00 ∷ 0x00 ∷ 0x00 ∷ 0x00 ∷ 0x00 ∷ 0x00 ∷ 0x00 ∷ 0x00 ∷ 0x00 ∷ 0x00 ∷ 0x00
    ∷ 0x00 ∷ 0x00 ∷ 0x00 ∷ 0x00 ∷ 0x00 ∷ 0x00 ∷ 0x00 ∷ 0x00 ∷ 0x00 ∷ 0x00 ∷ 0x00 ∷ 0x00 ∷ 0x00
    ∷ 0x00 ∷ 0x00 ∷ 0x00 ∷ 0x00 ∷ 0x00 ∷ 0x00 ∷ 0x00 ∷ 0x00 ∷ 0x00 ∷ 0x00 ∷ 0x00 ∷ 0x00 ∷ 0x00
    ∷ 0x00 ∷ 0x00 ∷ 0x00 ∷ 0x00 ∷ 0x00 ∷ 0x00 ∷ 0x00 ∷ 0x00 ∷ 0x00 ∷ 0x44 ∷ []

-- If there are buffers, patchedGetDDCBlock refuses every block but 1 and 2, and for these gives at
-- most the bytes that the caller has room for and 128 at most; with room for 128 it gives 128 bytes,
-- which sum to a multiple of 256.
pub patched_ddc_block_lem :
    (bn room : ℕ) (g : Globals)
    → ((bn ≢ 1)
        × (bn ≢ 2)
        × ((patched_get_ddc_block imac20_edid_block0 imac20_edid_block1 bn true (some room) g).0
            ≡ bad bad_argument))
      ⊎ ((bs : List ℕ) × ((patched_get_ddc_block imac20_edid_block0 imac20_edid_block1 bn true
              (some room)
              g).0
            ≡ good bs)
          × Given room bs)
unfolding patched_get_ddc_block
patched_ddc_block_lem bn room g = elim (Bool-cases (bn == 1)) [
  | inl one ↦ inr (_, rw (one, patched_get_ddc_block), block-take imac20_edid_block0 room refl refl)
  | inr other ↦ elim (Bool-cases (bn == 2)) [
    | inl two ↦
        inr
          (_, rw (other, two, patched_get_ddc_block), block-take imac20_edid_block1 room refl refl)
    | inr none_such ↦ inl (ground arith, ground arith, rw (other, none_such, patched_get_ddc_block))
  ]
]
