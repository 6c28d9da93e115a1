-- ===== src/Allocator/Loops.antt =====
-- The loops and the string instructions that test bits.
use docker_macos.Base.{
  ℕ, zero, suc, ◌+◌, ◌-◌, ◌≤◌, ◌<◌, ◌≡◌, refl, ap, ◌∙◌, ◌↔◌, ◌⊎◌, inl, inr, Bool, true, false, ◌&&◌,
  not, ltb, ◌==◌, if◌then◌else◌, arith, Bool-cases, ==_iff,
}
use docker_macos.Allocator.Ranges.{
  Bitmap, bit_test, all_same, scan, mem_all, mem_any, test_each, find_each, first_full, past_full,
  head_past, tail_first,
}

-- The bits of a range that testAll and testAny look at: all but those of the last whole byte.
abbrev pub Seen : (first_bit past_bit j : ℕ) → Type 0
Seen a b j = (past_full b ≤ first_full a) ⊎ ((j + 8 < past_full b) ⊎ (past_full b ≤ j))

pub test_each-true :
    (m : Bitmap) (i n : ℕ)
    → test_each m i n ≡ true
    → (j : ℕ) → i ≤ j
    → j < i + n
    → bit_test m j ≡ true
unfolding test_each
test_each-true m i zero e j lo hi = absurd (omega arith)
test_each-true m i (suc n) e j lo hi = elim (Bool-cases (j == i)) [
  | inl same ↦ ground arith
  | inr other ↦ test_each-true m (i + 1) n (ground arith) j (ground arith) (omega arith)
]

pub true-test_each :
    (m : Bitmap) (i n : ℕ)
    → ((j : ℕ) → i ≤ j → j < i + n → bit_test m j ≡ true)
    → test_each m i n ≡ true
unfolding test_each
true-test_each m i zero h = refl
true-test_each m i (suc n) h =
    let here = h i (omega arith) (omega arith) in
    rw here (true-test_each m (i + 1) n (λ j lo hi. h j (omega arith) (omega arith)))

pub find_each-false :
    (m : Bitmap) (i n : ℕ)
    → find_each m i n ≡ false
    → (j : ℕ) → i ≤ j
    → j < i + n
    → bit_test m j ≡ false
unfolding find_each
find_each-false m i zero e j lo hi = absurd (omega arith)
find_each-false m i (suc n) e j lo hi = elim (Bool-cases (j == i)) [
  | inl same ↦ ground arith
  | inr other ↦ find_each-false m (i + 1) n (ground arith) j (ground arith) (omega arith)
]

pub false-find_each :
    (m : Bitmap) (i n : ℕ)
    → ((j : ℕ) → i ≤ j → j < i + n → bit_test m j ≡ false)
    → find_each m i n ≡ false
unfolding find_each
false-find_each m i zero h = refl
false-find_each m i (suc n) h =
    let here = h i (omega arith) (omega arith) in
    rw here (false-find_each m (i + 1) n (λ j lo hi. h j (omega arith) (omega arith)))

-- A byte by its bits.
pub all_same-bit : (b : Bool) (c : ℕ → Bool) (k : ℕ) → k < 8 → all_same b c ≡ true → c k ≡ b
all_same-bit true c zero h e = ground arith
all_same-bit true c (suc zero) h e = ground arith
all_same-bit true c (suc (suc zero)) h e = ground arith
all_same-bit true c (suc (suc (suc zero))) h e = ground arith
all_same-bit true c (suc (suc (suc (suc zero)))) h e = ground arith
all_same-bit true c (suc (suc (suc (suc (suc zero))))) h e = ground arith
all_same-bit true c (suc (suc (suc (suc (suc (suc zero)))))) h e = ground arith
all_same-bit true c (suc (suc (suc (suc (suc (suc (suc zero))))))) h e = ground arith
all_same-bit true c (suc (suc (suc (suc (suc (suc (suc (suc k)))))))) h e = ground arith
all_same-bit false c zero h e = ground arith
all_same-bit false c (suc zero) h e = ground arith
all_same-bit false c (suc (suc zero)) h e = ground arith
all_same-bit false c (suc (suc (suc zero))) h e = ground arith
all_same-bit false c (suc (suc (suc (suc zero)))) h e = ground arith
all_same-bit false c (suc (suc (suc (suc (suc zero))))) h e = ground arith
all_same-bit false c (suc (suc (suc (suc (suc (suc zero)))))) h e = ground arith
all_same-bit false c (suc (suc (suc (suc (suc (suc (suc zero))))))) h e = ground arith
all_same-bit false c (suc (suc (suc (suc (suc (suc (suc (suc k)))))))) h e = ground arith

pub bit-all_same : (b : Bool) (c : ℕ → Bool) → ((k : ℕ) → k < 8 → c k ≡ b) → all_same b c ≡ true
bit-all_same true c h =
    rw
      (
        h 0 (omega arith),
        h 1 (omega arith),
        h 2 (omega arith),
        h 3 (omega arith),
        h 4 (omega arith),
        h 5 (omega arith),
        h 6 (omega arith),
        h 7 (omega arith),
      )
      refl
bit-all_same false c h =
    rw
      (
        h 0 (omega arith),
        h 1 (omega arith),
        h 2 (omega arith),
        h 3 (omega arith),
        h 4 (omega arith),
        h 5 (omega arith),
        h 6 (omega arith),
        h 7 (omega arith),
      )
      refl

-- The count register is 0 where all the bytes before the last are the wanted one.
pub scan-zero :
    (b : Bool) (m : Bitmap) (p n : ℕ)
    → scan b m p n ≡ 0
    → (k : ℕ) → suc k < n
    → all_same b (m (p + k)) ≡ true
unfolding scan
scan-zero b m p zero e k h = absurd (omega arith)
scan-zero b m p (suc n) e zero h = elim (Bool-cases (all_same b (m p))) [
  | inl same ↦ ap (λ i. all_same b (m i)) (omega arith) ∙ same
  | inr differs ↦ absurd (let z : n ≡ 0 = rw differs at e in omega arith)
]
scan-zero b m p (suc n) e (suc k) h = elim (Bool-cases (all_same b (m p))) [
  | inl same ↦
      ap (λ i. all_same b (m i)) (omega arith)
      ∙ scan-zero b m (p + 1) n (rw same at e) k (omega arith)
  | inr differs ↦ absurd (let z : n ≡ 0 = rw differs at e in omega arith)
]

pub zero-scan :
    (b : Bool) (m : Bitmap) (p n : ℕ)
    → ((k : ℕ) → suc k < n → all_same b (m (p + k)) ≡ true)
    → scan b m p n ≡ 0
unfolding scan
zero-scan b m p zero h = refl
zero-scan b m p (suc zero) h = elim (Bool-cases (all_same b (m p))) [
  | inl same ↦ rw same refl
  | inr differs ↦ rw differs refl
]
zero-scan b m p (suc (suc n)) h =
    let same : all_same b (m p) ≡ true =
      ap (λ i. all_same b (m i)) (omega arith) ∙ h 0 (omega arith) in
    rw same (
      zero-scan b m (p + 1) (suc n)
        (λ k less. ap (λ i. all_same b (m i)) (omega arith) ∙ h (suc k) (omega arith)))

pub mem_all_lem : (m : Bitmap) (p n : ℕ) → (mem_all m p n ≡ true) ↔ (scan true m p n ≡ 0)
unfolding mem_all
mem_all_lem m p n = elim (Bool-cases (n == 0)) [
  | inl empty ↦ let z : n ≡ 0 = ground arith in rw z (unfold scan in (λ e. refl, λ e. refl))
  | inr some ↦ rw some (==_iff (scan true m p n) 0)
]

pub mem_any_lem : (m : Bitmap) (p n : ℕ) → (mem_any m p n ≡ false) ↔ (scan false m p n ≡ 0)
unfolding mem_any
mem_any_lem m p n = elim (Bool-cases (n == 0)) [
  | inl empty ↦ let z : n ≡ 0 = ground arith in rw z (unfold scan in (λ e. refl, λ e. refl))
  | inr some ↦ rw some (λ e. ground arith, λ e. ground arith)
]

pub three_tests :
    (head whole body tail : Bool)
    → ((if not head then false else if whole && not body then false else tail) ≡ true)
      ↔ ((head ≡ true) × (whole ≡ true → body ≡ true) × (tail ≡ true))
three_tests head whole body tail = (
  λ e. (ground arith, λ w. ground arith, ground arith),
  λ (h, w, t). elim (Bool-cases whole) [
    | inl full ↦ let f = w full in ground arith
    | inr other ↦ ground arith
  ],
)

pub three_finds :
    (head whole body tail : Bool)
    → ((if head then true else if whole && body then true else tail) ≡ false)
      ↔ ((head ≡ false) × (whole ≡ true → body ≡ false) × (tail ≡ false))
three_finds head whole body tail = (
  λ e. (ground arith, λ w. ground arith, ground arith),
  λ (h, w, t). elim (Bool-cases whole) [
    | inl full ↦ let f = w full in ground arith
    | inr other ↦ ground arith
  ],
)

-- Where a bit of the range stands.
pub data Place (a b j : ℕ) : Type 0 where
  in_head : j < a + (head_past a b - a) → Place a b j
  in_body : first_full a < past_full b → first_full a ≤ j → j + 8 < past_full b → Place a b j
  in_tail : tail_first a b ≤ j → Place a b j

pub place : (a b j : ℕ) → a ≤ j → j < b → Seen a b j → Place a b j
place a b j lo hi seen = elim (Bool-cases (ltb j (head_past a b))) [
  | inl head ↦ in_head (ground arith)
  | inr past ↦ elim (Bool-cases (ltb j (tail_first a b))) [
    | inr tail ↦ in_tail (ground arith)
    | inl body ↦ in_body (ground arith) (ground arith) (ground arith)
  ]
]
