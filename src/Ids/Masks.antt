-- ===== src/Ids/Masks.antt =====
-- What an allocation and a release do to the bits of a mask of words of 64 bits.
use docker_macos.Base.{
  ℕ, zero, suc, ◌+◌, ◌-◌, ◌*◌, ◌<◌, ◌≡◌, refl, sym, ap, ◌∙◌, inl, inr, Bool, true, false, Option,
  none, some, List, [], ◌∷◌, length, length-set, get_or-set_self, get_or-set_ne, set, get_or, ◌==◌,
  ltb, if◌then◌else◌, arith, Bool-cases, Option-cases,
}
use docker_macos.Ids.{Word, any, bor, lowest_clear, log_2_64, find_bit}
use docker_macos.Ids.Words.{
  first_clear, one_hot, hot, lowest_clear-hot, any-clear, any-one_hot, bor-one_hot,
  log_2_64-one_hot,
}

-- Every word has 64 bits.
abbrev pub AllWords : List Word → Type 0
AllWords [] = 0 ≡ zero
AllWords (x ∷ xs) = (length x ≡ 64) × AllWords xs

-- Whether an identifier is in use; those beyond the mask are.
abbrev pub bit : List Word → ℕ → Bool
bit [] j = true
bit (x ∷ xs) j = if ltb j 64 then get_or x j true else bit xs (j - 64)

first_clear-none : (x : Word) (j : ℕ) → first_clear x ≡ none → get_or x j true ≡ true
first_clear-none [] j e = refl
first_clear-none (false ∷ bs) j e = ground arith
first_clear-none (true ∷ bs) zero e = refl
first_clear-none (true ∷ bs) (suc j) e = elim (Option-cases (first_clear bs)) [
  | inl n ↦ first_clear-none bs j n
  | inr (k, h) ↦ absurd (ground (arith, h))
]

-- The first clear bit is clear, and the bits below it are set.
first_clear-some :
    (x : Word) (k : ℕ)
    → first_clear x ≡ some k
    → (k < length x) × (get_or x k true ≡ false) × ((j : ℕ) → j < k → get_or x j true ≡ true)
first_clear-some [] k e = ground arith
first_clear-some (false ∷ bs) zero e = (omega arith, refl, λ j h. absurd (omega arith))
first_clear-some (false ∷ bs) (suc k) e = ground arith
first_clear-some (true ∷ bs) zero e = elim (Option-cases (first_clear bs)) [
  | inl n ↦ absurd (ground (arith, n))
  | inr (k, h) ↦ absurd (ground (arith, h))
]
first_clear-some (true ∷ bs) (suc k) e = elim (Option-cases (first_clear bs)) [
  | inl n ↦ absurd (ground (arith, n))
  | inr (i, h) ↦
      let same : i ≡ k = ground (arith, h) in
      let (a, b, c) = first_clear-some bs k (h ∙ ap some same) in (omega arith, b, below c)
]
  where
    below :
        ((j : ℕ) → j < k → get_or bs j true ≡ true)
        → (j : ℕ) → j < suc k
        → get_or (true ∷ bs) j true ≡ true
    below c zero h = refl
    below c (suc j) h = c j (omega arith)

-- The result of a search from bit `i` on.
pub data Found (i : ℕ) (xs : List Word) (r : Option ℕ) (ys : List Word) : Type 0 where
  full : r ≡ none → ys ≡ xs → ((j : ℕ) → bit xs j ≡ true) → Found i xs r ys
  at :
      (k : ℕ)
      → r ≡ some (i + k)
      → k < 64 * length xs
      → bit xs k ≡ false
      → ((j : ℕ) → j < k → bit xs j ≡ true)
      → ((j : ℕ) → bit ys j ≡ (if j == k then true else bit xs j))
      → AllWords ys
      → length ys ≡ length xs
      → Found i xs r ys

-- The first word has no clear bit.
later-Found :
    (i : ℕ) (x : Word) (xs ys : List Word) (r : Option ℕ)
    → length x ≡ 64
    → ((j : ℕ) → get_or x j true ≡ true)
    → Found (i + 64) xs r ys
    → Found i (x ∷ xs) r (x ∷ ys)
later-Found i x xs ys r n f (full e same all) = full e (ap (λ zs. x ∷ zs) same) (λ j.
    elim (Bool-cases (ltb j 64)) [ inl low ↦ rw low (f j) | inr high ↦ rw high (all (j - 64)) ])
later-Found i x xs ys r n f (at k e l b c u a m) =
    at (64 + k) (e ∙ ap some (omega arith)) (omega arith)
      (let high : ltb (64 + k) 64 ≡ false = ground arith in
        let back : 64 + k - 64 ≡ k = omega arith in rw (high, back) b)
      (λ j h. elim (Bool-cases (ltb j 64)) [
        | inl low ↦ rw low (f j)
        | inr high ↦ rw high (c (j - 64) (ground arith))
      ])
      (λ j. elim (Bool-cases (ltb j 64)) [
        | inl low ↦ let other : (j == 64 + k) ≡ false = ground arith in rw (low, other) refl
        | inr high ↦
            let same : (j - 64 == k) ≡ (j == 64 + k) = ground arith in
            rw high (u (j - 64) ∙ rw same refl)
      ])
      (n, a) (ap suc m)

-- The first word has its first clear bit at `k`.
here-Found :
    (i : ℕ) (x : Word) (xs : List Word) (k : ℕ)
    → length x ≡ 64
    → AllWords xs
    → k < length x
    → get_or x k true ≡ false
    → ((j : ℕ) → j < k → get_or x j true ≡ true)
    → Found i (x ∷ xs) (some (i + k)) (set x k true ∷ xs)
here-Found i x xs k n a l b c =
    at k refl (omega arith) (let low : ltb k 64 ≡ true = ground arith in rw low b)
      (λ j h. let low : ltb j 64 ≡ true = ground arith in rw low (c j h))
      (λ j. elim (Bool-cases (j == k)) [
        | inl same ↦
            let e : j ≡ k = ground arith in
            let low : ltb k 64 ≡ true = ground arith in
            let self : (k == k) ≡ true = ground arith in
            rw (e, low, self) (get_or-set_self x k true true l)
        | inr other ↦ elim (Bool-cases (ltb j 64)) [
          | inl low ↦ rw (low, other) (get_or-set_ne x k j true true (λ e. ground arith))
          | inr high ↦ rw (high, other) refl
        ]
      ])
      (length-set x k true ∙ n, a) refl

pub find_bit-Found :
    (i : ℕ) (xs : List Word)
    → AllWords xs
    → Found i xs (find_bit 64 log_2_64 i xs).0 (find_bit 64 log_2_64 i xs).1
unfolding find_bit
find_bit-Found i [] a = full refl refl (λ j. refl)
find_bit-Found i (x ∷ xs) (n, a) = elim (Option-cases (first_clear x)) [
  | inl e ↦
      let none_clear : any (lowest_clear x) ≡ false =
        ap any (lowest_clear-hot x ∙ ap (hot (length x)) e) ∙ any-clear (length x) in
      rw none_clear
        (later-Found i x xs _ _ n (λ j. first_clear-none x j e) (find_bit-Found (i + 64) xs a))
  | inr (k, e) ↦
      let (l, b, c) = first_clear-some x k e in
      let hit : lowest_clear x ≡ one_hot 64 k =
        lowest_clear-hot x ∙ ap (hot (length x)) e ∙ ap (λ w. one_hot w k) n in
      let some_clear : any (one_hot 64 k) ≡ true = any-one_hot 64 k (omega arith) in
      let log : log_2_64 (one_hot 64 k) ≡ some k = log_2_64-one_hot k (omega arith) in
      let set_it : bor x (one_hot 64 k) ≡ set x k true =
        ap (λ w. bor x (one_hot w k)) (sym n) ∙ bor-one_hot x k in
      rw hit (rw (some_clear, log) (rw set_it (here-Found i x xs k n a l b c)))
]
