-- ===== src/Ids/Alloc.antt =====
-- Allocation and release of an identifier in a mask with the index of its first word that may have
-- a clear bit.
use docker_macos.Base.{
  ℕ, zero, suc, ◌+◌, ◌-◌, ◌*◌, ◌/◌, ◌≤◌, ◌<◌, ◌≡◌, refl, sym, ap, ◌∙◌, ◌⊎◌, inl, inr, true, false,
  Option, none, some, List, [], ◌∷◌, ◌++◌, length, length-append, ◌==◌, ltb, if◌then◌else◌, arith,
  Bool-cases,
}
use docker_macos.Ids.{Word, find_bit_in_array64, first_words, from_word, alloc_from}
use docker_macos.Ids.Masks.{AllWords, bit, Found, full, at, find_bit-Found}

-- The mask has `n` words of 64 bits, and no clear bit below the word of the index.
pub record IsMask (n : ℕ) (mask : List Word) (idx : ℕ) : Type 0 where
  pub size : length mask ≡ n
  pub words : AllWords mask
  pub bound : idx ≤ n
  pub low : (j : ℕ) → j < 64 * idx → bit mask j ≡ true

bit-from_word :
    (i : ℕ) (mask : List Word) (j : ℕ) → bit (from_word i mask) j ≡ bit mask (64 * i + j)
bit-from_word zero mask j = ap (bit mask) (omega arith)
bit-from_word (suc i) [] j = refl
bit-from_word (suc i) (x ∷ xs) j =
    let high : ltb (64 * suc i + j) 64 ≡ false = ground arith in
    let back : 64 * suc i + j - 64 ≡ 64 * i + j = omega arith in
    rw (high, back) (bit-from_word i xs j)

bit-replace :
    (i : ℕ) (mask ys : List Word) (j : ℕ)
    → i ≤ length mask
    → bit (first_words i mask ++ ys) j
      ≡ (if ltb j (64 * i) then bit mask j else bit ys (j - 64 * i))
bit-replace zero mask ys j h =
    let high : ltb j (64 * 0) ≡ false = ground arith in
    let same : j - 64 * 0 ≡ j = omega arith in rw (high, same) refl
bit-replace (suc i) [] ys j h = absurd (omega arith)
bit-replace (suc i) (x ∷ xs) ys j h = elim (Bool-cases (ltb j 64)) [
  | inl low ↦ let within : ltb j (64 * suc i) ≡ true = ground arith in rw (low, within) refl
  | inr high ↦
      let same : ltb j (64 * suc i) ≡ ltb (j - 64) (64 * i) = ground arith in
      let back : j - 64 * suc i ≡ j - 64 - 64 * i = omega arith in
      rw (high, same, back) (bit-replace i xs ys (j - 64) (omega arith))
]

first_words-from_word : (i : ℕ) (mask : List Word) → first_words i mask ++ from_word i mask ≡ mask
first_words-from_word zero mask = refl
first_words-from_word (suc i) [] = refl
first_words-from_word (suc i) (x ∷ xs) = ap (λ ys. x ∷ ys) (first_words-from_word i xs)

length-from_word : (i : ℕ) (mask : List Word) → length (from_word i mask) ≡ length mask - i
length-from_word zero mask = omega arith
length-from_word (suc i) [] = omega arith
length-from_word (suc i) (x ∷ xs) = omega (arith, length-from_word i xs)

length-first_words : (i : ℕ) (mask : List Word) → i ≤ length mask → length (first_words i mask) ≡ i
length-first_words zero mask h = refl
length-first_words (suc i) [] h = absurd (omega arith)
length-first_words (suc i) (x ∷ xs) h = ap suc (length-first_words i xs (omega arith))

AllWords-from_word : (i : ℕ) (mask : List Word) → AllWords mask → AllWords (from_word i mask)
AllWords-from_word zero mask a = a
AllWords-from_word (suc i) [] a = refl
AllWords-from_word (suc i) (x ∷ xs) (n, a) = AllWords-from_word i xs a

AllWords-replace :
    (i : ℕ) (mask ys : List Word)
    → AllWords mask
    → AllWords ys
    → AllWords (first_words i mask ++ ys)
AllWords-replace zero mask ys a b = b
AllWords-replace (suc i) [] ys a b = b
AllWords-replace (suc i) (x ∷ xs) ys (n, a) b = (n, AllWords-replace i xs ys a b)

-- An allocation from a mask gives the least identifier that is not in use, which is then in use,
-- while no other changes; or all are in use, and the mask stays.
pub data Allocated (n : ℕ) (mask : List Word) (r : Option ℕ) (mask' : List Word) (idx' : ℕ)
    : Type 0 where
  exhausted :
      r ≡ none
      → mask' ≡ mask
      → ((j : ℕ) → bit mask j ≡ true)
      → IsMask n mask' idx'
      → Allocated n mask r mask' idx'
  given :
      (id : ℕ)
      → r ≡ some id
      → id < 64 * n
      → bit mask id ≡ false
      → ((j : ℕ) → j < id → bit mask j ≡ true)
      → ((j : ℕ) → bit mask' j ≡ (if j == id then true else bit mask j))
      → IsMask n mask' idx'
      → Allocated n mask r mask' idx'

below_index :
    (mask : List Word) (idx : ℕ)
    → ((j : ℕ) → j < 64 * idx → bit mask j ≡ true)
    → (k : ℕ) → ((j : ℕ) → j < k → bit (from_word idx mask) j ≡ true)
    → (j : ℕ) → j < 64 * idx + k
    → bit mask j ≡ true
below_index mask idx low k c j h = elim (Bool-cases (ltb j (64 * idx))) [
  | inl l ↦ low j (ground arith)
  | inr u ↦
      let e : 64 * idx + (j - 64 * idx) ≡ j = ground arith in
      ap (bit mask) (sym e)
      ∙ sym (bit-from_word idx mask (j - 64 * idx))
      ∙ c (j - 64 * idx) (ground arith)
]

-- What a search in the words from the index on says of the whole mask.
alloc-Found :
    (n : ℕ) (mask : List Word) (idx : ℕ) (r : Option ℕ) (ys : List Word)
    → IsMask n mask idx
    → Found 0 (from_word idx mask) r ys
    → let mask' = first_words idx mask ++ ys in
      ((r ≡ none) × Allocated n mask none mask' n)
      ⊎ ((k : ℕ) × (r ≡ some k) × Allocated n mask (some (k + idx * 64)) mask' (idx + k / 64))
alloc-Found n mask idx r ys m (full e same all) =
    let whole : first_words idx mask ++ ys ≡ mask =
      ap (λ zs. first_words idx mask ++ zs) same ∙ first_words-from_word idx mask in
    let every : (j : ℕ) → bit mask j ≡ true =
      λ j. below_index mask idx m.low (suc j) (λ i h. all i) j (omega arith) in
    inl (
      e,
      rw whole (
          exhausted refl refl every
            (record { size = m.size; words = m.words; bound = omega arith; low = λ j h. every j })),
    )
alloc-Found n mask idx r ys m (at k e l b c u a q) =
    let fits : idx ≤ length mask = omega (arith, m.size, m.bound) in
    let count : length ys ≡ n - idx = q ∙ length-from_word idx mask ∙ ap (λ z. z - idx) m.size in
    let changed : (j : ℕ)
        → bit (first_words idx mask ++ ys) j ≡ (if j == k + idx * 64 then true else bit mask j) =
      λ j. change j fits in
    let lower = below_index mask idx m.low k c in
    inr (
      k,
      e ∙ ap some (omega arith),
      given (k + idx * 64) refl (omega (arith, l, length-from_word idx mask, m.size, m.bound))
          (ap (bit mask) (omega arith) ∙ sym (bit-from_word idx mask k) ∙ b)
          (λ j h. lower j (omega arith)) changed
          (record {
            size =
                length-append (first_words idx mask) ys
                ∙ omega (arith, length-first_words idx mask fits, count, m.bound);
            words = AllWords-replace idx mask ys m.words a;
            bound = omega (arith, l, length-from_word idx mask, m.size, m.bound);
            low = λ j h.
                changed j
                ∙ (let other : (j == k + idx * 64) ≡ false = ground arith in
                    rw other (lower j (omega arith)));
          }),
    )
  where
    change :
        (j : ℕ)
        → idx ≤ length mask
        → bit (first_words idx mask ++ ys) j ≡ (if j == k + idx * 64 then true else bit mask j)
    change j fits = bit-replace idx mask ys j fits ∙ elim (Bool-cases (ltb j (64 * idx))) [
      | inl low ↦ let other : (j == k + idx * 64) ≡ false = ground arith in rw (low, other) refl
      | inr high ↦
          let back : 64 * idx + (j - 64 * idx) ≡ j = ground arith in
          let same : (j - 64 * idx == k) ≡ (j == k + idx * 64) = ground arith in
          rw high (u (j - 64 * idx) ∙ rw (same, bit-from_word idx mask (j - 64 * idx), back) refl)
    ]

-- From a well formed mask, an allocation gives the least identifier that is not in use, marks it and
-- no other and leaves a well formed mask; or all are in use and the mask stays.
pub alloc_from_lem :
    (n : ℕ) (mask : List Word) (idx : ℕ)
    → IsMask n mask idx
    → let (r, mask', idx') = alloc_from n mask idx in Allocated n mask r mask' idx'
unfolding alloc_from find_bit_in_array64
alloc_from_lem n mask idx m =
    elim (alloc-Found n mask idx _ _ m
      (find_bit-Found 0 (from_word idx mask) (AllWords-from_word idx mask m.words))) [
        | inl (e, f) ↦ rw (e, alloc_from) f
        | inr (k, e, f) ↦ rw (e, alloc_from) f
      ]
