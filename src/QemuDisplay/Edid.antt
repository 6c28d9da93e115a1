-- ===== src/QemuDisplay/Edid.antt =====
-- The EDID of QEMUDisplay.cpp, and what getDDCBlock gives of it.
use docker_macos.Base.{
  ℕ, zero, suc, ◌+◌, ◌%◌, ◌≤◌, ◌≡◌, refl, sym, ap, true, some, List, [], ◌∷◌, arith, Bool-cases,
  ltb_false→le, inl, inr, length, ltb, if◌then◌else◌,
}
use docker_macos.QemuDisplay.{take, get_ddc_block}

abbrev pub mos15_edid : List ℕ
mos15_edid =
    0x00 ∷ 0xff ∷ 0xff ∷ 0xff ∷ 0xff ∷ 0xff ∷ 0xff ∷ 0x00 ∷ 0x06 ∷ 0x10 ∷ 0xc3 ∷ 0x9c ∷ 0x00 ∷ 0x00
    ∷ 0x00 ∷ 0x00 ∷ 0x01 ∷ 0x22 ∷ 0x01 ∷ 0x03 ∷ 0x80 ∷ 0x3c ∷ 0x22 ∷ 0x78 ∷ 0x0a ∷ 0xee ∷ 0x91
    ∷ 0xa3 ∷ 0x54 ∷ 0x4c ∷ 0x99 ∷ 0x26 ∷ 0x0f ∷ 0x50 ∷ 0x54 ∷ 0x21 ∷ 0x08 ∷ 0x00 ∷ 0xd1 ∷ 0xc0
    ∷ 0x81 ∷ 0xc0 ∷ 0x01 ∷ 0x01 ∷ 0x01 ∷ 0x01 ∷ 0x01 ∷ 0x01 ∷ 0x01 ∷ 0x01 ∷ 0x01 ∷ 0x01 ∷ 0x01
    ∷ 0x01 ∷ 0x02 ∷ 0x3a ∷ 0x80 ∷ 0x18 ∷ 0x71 ∷ 0x38 ∷ 0x2d ∷ 0x40 ∷ 0x58 ∷ 0x2c ∷ 0x45 ∷ 0x00
    ∷ 0x06 ∷ 0x44 ∷ 0x21 ∷ 0x00 ∷ 0x00 ∷ 0x1e ∷ 0x00 ∷ 0x00 ∷ 0x00 ∷ 0xfc ∷ 0x00 ∷ 0x69 ∷ 0x4d
    ∷ 0x61 ∷ 0x63 ∷ 0x0a ∷ 0x20 ∷ 0x20 ∷ 0x20 ∷ 0x20 ∷ 0x20 ∷ 0x20 ∷ 0x20 ∷ 0x20 ∷ 0x00 ∷ 0x00
    ∷ 0x00 ∷ 0xfd ∷ 0x00 ∷ 0x38 ∷ 0x4c ∷ 0x1e ∷ 0x51 ∷ 0x11 ∷ 0x00 ∷ 0x00 ∷ 0x00 ∷ 0x00 ∷ 0x00
    ∷ 0x00 ∷ 0x00 ∷ 0x00 ∷ 0x00 ∷ 0x00 ∷ 0x00 ∷ 0xff ∷ 0x00 ∷ 0x4d ∷ 0x4f ∷ 0x53 ∷ 0x31 ∷ 0x35
    ∷ 0x56 ∷ 0x4d ∷ 0x0a ∷ 0x20 ∷ 0x20 ∷ 0x20 ∷ 0x20 ∷ 0x20 ∷ 0x00 ∷ 0x71 ∷ []

-- The sum of bytes.
abbrev pub sum : List ℕ → ℕ
sum [] = 0
sum (b ∷ bs) = b + sum bs

pub take-length : (bs : List ℕ) → take (length bs) bs ≡ bs
take-length [] = refl
take-length (b ∷ bs) = ap (λ cs. b ∷ cs) (take-length bs)

pub length-take : (n : ℕ) (bs : List ℕ) → n ≤ length bs → length (take n bs) ≡ n
length-take zero bs h = refl
length-take (suc n) [] h = absurd (omega arith)
length-take (suc n) (b ∷ bs) h = ap suc (length-take n bs (omega arith))

-- As many bytes as there is room for, and 128 at most; then they sum to a multiple of 256.
abbrev pub Given : ℕ → List ℕ → Type 0
Given room bs =
    (length bs ≤ room) × (length bs ≤ 128) × (128 ≤ room → (length bs ≡ 128) × (sum bs % 256 ≡ 0))

-- What is given of a block of 128 bytes that sum to a multiple of 256, with room for `room`.
pub block-take :
    (block : List ℕ) (room : ℕ)
    → length block ≡ 128
    → sum block % 256 ≡ 0
    → Given room (take (if ltb room 128 then room else 128) block)
block-take block room n s = elim (Bool-cases (ltb room 128)) [
  | inl little ↦
      let k : length (take room block) ≡ room = length-take room block (ground arith) in
      rw little (omega (arith, k), ground (arith, k), λ h. absurd (ground arith))
  | inr enough ↦
      let e : take 128 block ≡ block = rw (sym n) (take-length block) in
      let k : 128 ≤ room = ltb_false→le room 128 enough in
      rw (enough, e) (omega arith, omega arith, λ h. (n, s))
]

-- For block 1, getDDCBlock gives at most the bytes that the caller has room for, and 128 at most;
-- with room for 128 it gives 128 bytes, which sum to a multiple of 256.
pub ddc_block_lem :
    (room : ℕ)
    → (bs : List ℕ) × (get_ddc_block mos15_edid 1 true (some room) ≡ some bs) × Given room bs
unfolding get_ddc_block
ddc_block_lem room = (_, refl, block-take mos15_edid room refl refl)
