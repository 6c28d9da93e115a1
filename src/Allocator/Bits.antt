-- ===== src/Allocator/Bits.antt =====
-- What the methods that set and clear bits do to each bit.
use docker_macos.Base.{
  ℕ, zero, suc, ◌+◌, ◌-◌, ◌*◌, ◌/◌, ◌≡◌, ◌∙◌, inl, inr, true, false, ◌&&◌, ltb, leb, ◌==◌,
  if◌then◌else◌, arith, Bool-cases,
}
use docker_macos.Allocator.Ranges.{
  Bitmap, bit_test, bit_set, bit_clear, fill, clear_each, first_full, past_full, head_past,
  tail_first, full_bytes, clear_all,
}

pub test-bit_set :
    (m : Bitmap) (n j : ℕ) → bit_test (bit_set m n) j ≡ (if j == n then true else bit_test m j)
test-bit_set m n j = ground arith

pub test-bit_clear :
    (m : Bitmap) (n j : ℕ) → bit_test (bit_clear m n) j ≡ (if j == n then false else bit_test m j)
test-bit_clear m n j = ground arith

test-clear_each :
    (m : Bitmap) (i n j : ℕ)
    → bit_test (clear_each m i n) j ≡ (if leb i j && ltb j (i + n) then false else bit_test m j)
unfolding clear_each
test-clear_each m i zero j = ground arith
test-clear_each m i (suc n) j =
    test-clear_each (bit_clear m i) (i + 1) n j ∙ ground (arith, test-bit_clear m i j)

test-fill :
    (m : Bitmap) (p n j : ℕ)
    → bit_test (fill false m p n) j
      ≡ (if leb (p * 8) j && ltb j ((p + n) * 8) then false else bit_test m j)
test-fill m p n j = ground arith

-- clearAll clears the bits from the first up to the last, which is not among them, and leaves every
-- other bit as it was.
pub clear_all_lem :
    (m : Bitmap) (a b j : ℕ)
    → bit_test (clear_all m a b) j ≡ (if leb a j && ltb j b then false else bit_test m j)
unfolding clear_all
clear_all_lem m a b j =
    let head = clear_each m a (head_past a b - a) in
    let tail = tail_first a b in
    let h : bit_test head j
        ≡ (if leb a j && ltb j (a + (head_past a b - a)) then false else bit_test m j) =
      test-clear_each m a (head_past a b - a) j in
    elim (Bool-cases (ltb (first_full a) (past_full b))) [
      | inl full ↦
          let f = test-fill head (first_full a / 8) (full_bytes a b) j in
          rw full (
            test-clear_each (fill false head (first_full a / 8) (full_bytes a b)) tail (b - tail) j
            ∙ rw (f, h) (ground arith))
      | inr none ↦ rw none (test-clear_each head tail (b - tail) j ∙ rw h (ground arith))
    ]
