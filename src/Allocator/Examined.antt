-- ===== src/Allocator/Examined.antt =====
-- Which bits testAll and testAny look at.
use docker_macos.Base.{
  ℕ, ◌+◌, ◌-◌, ◌*◌, ◌/◌, ◌%◌, ◌≤◌, ◌<◌, ◌≡◌, sym, ap, ◌∙◌, ◌↔◌, inl, inr, Bool, true, false, ltb,
  arith, Bool-cases, lt→ltb, ltb→lt, ltb_false→le,
}
use docker_macos.Allocator.Ranges.{
  Bitmap, bit_test, all_same, scan, mem_all, mem_any, test_each, find_each, first_full, past_full,
  head_past, tail_first, full_bytes, test_all, test_any,
}
use docker_macos.Allocator.Loops.{
  Seen, test_each-true, true-test_each, find_each-false, false-find_each, all_same-bit,
  bit-all_same, scan-zero, zero-scan, mem_all_lem, mem_any_lem, three_tests, three_finds, in_head,
  in_body, in_tail, place,
}

head_Seen : (a b j : ℕ) → a ≤ j → j < a + (head_past a b - a) → Seen a b j
head_Seen a b j lo hi = elim (Bool-cases (ltb (first_full a) (past_full b))) [
  | inl w ↦ elim (Bool-cases (ltb (j + 8) (past_full b))) [
    | inl l ↦ inr (inl (ltb→lt (j + 8) (past_full b) l))
    | inr l ↦ absurd (ground arith)
  ]
  | inr w ↦ inl (ltb_false→le (first_full a) (past_full b) w)
]

tail_Seen : (a b j : ℕ) → tail_first a b ≤ j → Seen a b j
tail_Seen a b j lo = inr (inr (ground arith))

-- The whole bytes of a range: all their bits but those of the last byte.
module _ (m : Bitmap) (a b : ℕ) where
  module _ (v : Bool) where
    scan-bits :
        scan v m (first_full a / 8) (full_bytes a b) ≡ 0
        → (j : ℕ) → first_full a ≤ j
        → j + 8 < past_full b
        → bit_test m j ≡ v
    scan-bits e j lo hi =
        let k : ℕ = j / 8 - first_full a / 8 in
        let here : first_full a / 8 + k ≡ j / 8 = omega arith in
        let same = scan-zero v m (first_full a / 8) (full_bytes a b) e k (omega arith) in
        all_same-bit v (m (j / 8)) (j % 8) (omega arith)
          (ap (λ i. all_same v (m i)) (sym here) ∙ same)

    bits-scan :
        ((j : ℕ) → first_full a ≤ j → j + 8 < past_full b → bit_test m j ≡ v)
        → scan v m (first_full a / 8) (full_bytes a b) ≡ 0
    bits-scan h = zero-scan v m (first_full a / 8) (full_bytes a b) λ k less.
        bit-all_same v (m (first_full a / 8 + k)) λ r low.
          let j : ℕ = (first_full a / 8 + k) * 8 + r in
          let byte : j / 8 ≡ first_full a / 8 + k = omega arith in
          let place : j % 8 ≡ r = omega arith in
          rw (byte, place) at (h j (omega arith) (omega arith))

  all_parts : (test_all m a b ≡ true) ↔ (
      (test_each m a (head_past a b - a) ≡ true)
      × (ltb (first_full a) (past_full b) ≡ true
          → mem_all m (first_full a / 8) (full_bytes a b) ≡ true)
      × (test_each m (tail_first a b) (b - tail_first a b) ≡ true))
  unfolding test_all
  all_parts =
      three_tests (test_each m a (head_past a b - a)) (ltb (first_full a) (past_full b))
        (mem_all m (first_full a / 8) (full_bytes a b))
        (test_each m (tail_first a b) (b - tail_first a b))

  any_parts : (test_any m a b ≡ false) ↔ (
      (find_each m a (head_past a b - a) ≡ false)
      × (ltb (first_full a) (past_full b) ≡ true
          → mem_any m (first_full a / 8) (full_bytes a b) ≡ false)
      × (find_each m (tail_first a b) (b - tail_first a b) ≡ false))
  unfolding test_any
  any_parts =
      three_finds (find_each m a (head_past a b - a)) (ltb (first_full a) (past_full b))
        (mem_any m (first_full a / 8) (full_bytes a b))
        (find_each m (tail_first a b) (b - tail_first a b))

  -- testAll is true exactly when every bit of the range is set, but for the bits of the last whole
  -- byte, which it does not look at.
  pub test_all_lem :
      (test_all m a b ≡ true) ↔ ((j : ℕ) → a ≤ j → j < b → Seen a b j → bit_test m j ≡ true)
  test_all_lem = (there, back)
    where
      there : test_all m a b ≡ true → (j : ℕ) → a ≤ j → j < b → Seen a b j → bit_test m j ≡ true
      there e j lo hi seen =
          let (head, body, tail) = all_parts.0 e in
          elim (place a b j lo hi seen) [
            | in_head l ↦ test_each-true m a (head_past a b - a) head j lo l
            | in_body w l h ↦
                scan-bits true
                  ((mem_all_lem m (first_full a / 8) (full_bytes a b)).0
                    (body (lt→ltb (first_full a) (past_full b) w)))
                  j l h
            | in_tail l ↦
                test_each-true m (tail_first a b) (b - tail_first a b) tail j l (omega arith)
          ]

      back : ((j : ℕ) → a ≤ j → j < b → Seen a b j → bit_test m j ≡ true) → test_all m a b ≡ true
      back h = all_parts.1 (
        true-test_each m a (head_past a b - a)
            (λ j lo hi. h j lo (ground arith) (head_Seen a b j lo hi)),
        (λ w.
            (mem_all_lem m (first_full a / 8) (full_bytes a b)).1
              (bits-scan true λ j lo hi. h j (omega arith) (omega arith) (inr (inl hi)))),
        true-test_each m (tail_first a b) (b - tail_first a b)
            (λ j lo hi. h j (ground arith) (omega arith) (tail_Seen a b j lo)),
      )

  -- testAny is false exactly when every bit of the range is clear, but for the bits of the last
  -- whole byte, which it does not look at.
  pub test_any_lem :
      (test_any m a b ≡ false) ↔ ((j : ℕ) → a ≤ j → j < b → Seen a b j → bit_test m j ≡ false)
  test_any_lem = (there, back)
    where
      there : test_any m a b ≡ false → (j : ℕ) → a ≤ j → j < b → Seen a b j → bit_test m j ≡ false
      there e j lo hi seen =
          let (head, body, tail) = any_parts.0 e in
          elim (place a b j lo hi seen) [
            | in_head l ↦ find_each-false m a (head_past a b - a) head j lo l
            | in_body w l h ↦
                scan-bits false
                  ((mem_any_lem m (first_full a / 8) (full_bytes a b)).0
                    (body (lt→ltb (first_full a) (past_full b) w)))
                  j l h
            | in_tail l ↦
                find_each-false m (tail_first a b) (b - tail_first a b) tail j l (omega arith)
          ]

      back : ((j : ℕ) → a ≤ j → j < b → Seen a b j → bit_test m j ≡ false) → test_any m a b ≡ false
      back h = any_parts.1 (
        false-find_each m a (head_past a b - a)
            (λ j lo hi. h j lo (ground arith) (head_Seen a b j lo hi)),
        (λ w.
            (mem_any_lem m (first_full a / 8) (full_bytes a b)).1
              (bits-scan false λ j lo hi. h j (omega arith) (omega arith) (inr (inl hi)))),
        false-find_each m (tail_first a b) (b - tail_first a b)
            (λ j lo hi. h j (ground arith) (omega arith) (tail_Seen a b j lo)),
      )
