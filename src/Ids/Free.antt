-- ===== src/Ids/Free.antt =====
-- Release of an identifier.
use docker_macos.Base.{
  ℕ, zero, suc, ◌+◌, ◌-◌, ◌*◌, ◌/◌, ◌%◌, ◌<◌, ◌≡◌, refl, ◌∙◌, inl, inr, true, false, ◌&&◌, List, [],
  ◌∷◌, length, length-set, get_or-set_self, get_or-set_ne, set, get_or, ◌==◌, ltb, leb,
  if◌then◌else◌, arith, Bool-cases,
}
use docker_macos.Ids.{Word, free_into}
use docker_macos.Ids.Masks.{AllWords, bit}
use docker_macos.Ids.Alloc.{IsMask}

-- Clearing bit `k` of word `r`.
abbrev cleared : ℕ → ℕ → List Word → List Word
cleared r k mask = set mask r (set (get_or mask r []) k false)

bit-cleared :
    (r k : ℕ) (mask : List Word) (j : ℕ)
    → r < length mask
    → AllWords mask
    → k < 64
    → bit (cleared r k mask) j ≡ (if j == 64 * r + k then false else bit mask j)
bit-cleared r k [] j h a l = absurd (omega arith)
bit-cleared zero k (x ∷ xs) j h (n, a) l = elim (Bool-cases (ltb j 64)) [
  | inr high ↦ let other : (j == 64 * 0 + k) ≡ false = ground arith in rw (high, other) refl
  | inl low ↦ elim (Bool-cases (j == k)) [
    | inl same ↦
        let e : j ≡ k = ground arith in
        let low' : ltb k 64 ≡ true = ground arith in
        let self : (k == 64 * 0 + k) ≡ true = ground arith in
        rw (e, low', self) (get_or-set_self x k false true (omega arith))
    | inr differ ↦
        let other : (j == 64 * 0 + k) ≡ false = ground arith in
        rw (low, other) (get_or-set_ne x k j false true (λ e. ground arith))
  ]
]
bit-cleared (suc r) k (x ∷ xs) j h (n, a) l = elim (Bool-cases (ltb j 64)) [
  | inl low ↦ let other : (j == 64 * suc r + k) ≡ false = ground arith in rw (low, other) refl
  | inr high ↦
      let same : (j == 64 * suc r + k) ≡ (j - 64 == 64 * r + k) = ground arith in
      rw (high, same) (bit-cleared r k xs (j - 64) (omega arith) a l)
]

AllWords-cleared : (r k : ℕ) (mask : List Word) → AllWords mask → AllWords (cleared r k mask)
AllWords-cleared r k [] a = a
AllWords-cleared zero k (x ∷ xs) (n, a) = (length-set x k false ∙ n, a)
AllWords-cleared (suc r) k (x ∷ xs) (n, a) = (n, AllWords-cleared r k xs a)

-- Freeing an identifier of a well formed mask leaves a well formed mask in which it is free and no
-- other identifier changes; freeing one beyond the mask changes nothing.
pub free_into_lem :
    (n id : ℕ) (mask : List Word) (idx : ℕ)
    → IsMask n mask idx
    → let (mask', idx') = free_into n id mask idx in
      IsMask n mask' idx'
      × ((j : ℕ) → bit mask' j ≡ (if (j == id) && ltb id (64 * n) then false else bit mask j))
unfolding free_into
free_into_lem n id mask idx m = elim (Bool-cases (leb n (id / 64))) [
  | inl beyond ↦
      let out : ltb id (64 * n) ≡ false = ground arith in rw (beyond, out) (m, λ j. outside j)
  | inr within ↦
      let inside : ltb id (64 * n) ≡ true = ground arith in
      let r : id / 64 < length mask = ground (arith, m.size) in
      let changed : (j : ℕ)
          → bit (cleared (id / 64) (id % 64) mask) j ≡ (if j == id then false else bit mask j) =
        λ j.
          let whole : 64 * (id / 64) + id % 64 ≡ id = omega arith in
          bit-cleared (id / 64) (id % 64) mask j r m.words (omega arith) ∙ rw whole refl in
      rw (within, inside)
        (
          record {
            size =
                length-set mask (id / 64) (set (get_or mask (id / 64) []) (id % 64) false) ∙ m.size;
            words = AllWords-cleared (id / 64) (id % 64) mask m.words;
            bound = ground (arith, m.bound);
            low = λ j h.
                let other : (j == id) ≡ false = ground arith in
                changed j ∙ rw other (m.low j (ground arith));
          },
          λ j. changed j ∙ both j,
        )
]
  where
    outside : (j : ℕ) → bit mask j ≡ (if (j == id) && false then false else bit mask j)
    outside j = elim (Bool-cases (j == id)) [ inl e ↦ rw e refl | inr e ↦ rw e refl ]

    both :
        (j : ℕ)
        → (if j == id then false else bit mask j)
          ≡ (if (j == id) && true then false else bit mask j)
    both j = elim (Bool-cases (j == id)) [ inl e ↦ rw e refl | inr e ↦ rw e refl ]
