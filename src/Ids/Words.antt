-- ===== src/Ids/Words.antt =====
-- The lowest clear bit of a word, and its logarithm.
use docker_macos.Base.{
  ℕ, zero, suc, ◌<◌, ◌≡◌, refl, ap, ◌∙◌, Bool, true, false, not, ◌&&◌, Option, none, some, [], ◌∷◌,
  map, length, set, ◌==◌, arith, ==_iff, Bool-cases, inl, inr,
}
use docker_macos.Ids.{Word, any, band, bor, lowest_clear, log_2_32, log_2_64}

-- The index of the first bit that is clear.
abbrev pub first_clear : Word → Option ℕ
first_clear [] = none
first_clear (false ∷ bs) = some 0
first_clear (true ∷ bs) = elim (first_clear bs) [ none ↦ none | some k ↦ some (suc k) ]

abbrev pub clear : ℕ → Word
clear zero = []
clear (suc n) = false ∷ clear n

-- A word of `n` bits of which bit `k` is set.
abbrev pub one_hot : ℕ → ℕ → Word
one_hot zero k = []
one_hot (suc n) zero = true ∷ clear n
one_hot (suc n) (suc k) = false ∷ one_hot n k

abbrev pub hot : ℕ → Option ℕ → Word
hot n none = clear n
hot n (some k) = one_hot n k

band-not : (x : Word) → band (map not x) x ≡ clear (length x)
band-not [] = refl
band-not (true ∷ bs) = ap (λ cs. false ∷ cs) (band-not bs)
band-not (false ∷ bs) = ap (λ cs. false ∷ cs) (band-not bs)

hot-suc :
    (n : ℕ) (o : Option ℕ)
    → false ∷ hot n o ≡ hot (suc n) (elim o [ none ↦ none | some k ↦ some (suc k) ])
hot-suc n none = refl
hot-suc n (some k) = refl

-- `~x & (x + 1)` has the lowest clear bit of x, and no other.
pub lowest_clear-hot : (x : Word) → lowest_clear x ≡ hot (length x) (first_clear x)
lowest_clear-hot [] = refl
lowest_clear-hot (false ∷ bs) = ap (λ cs. true ∷ cs) (band-not bs)
lowest_clear-hot (true ∷ bs) =
    ap (λ cs. false ∷ cs) (lowest_clear-hot bs) ∙ hot-suc (length bs) (first_clear bs)

pub any-clear : (n : ℕ) → any (clear n) ≡ false
any-clear zero = refl
any-clear (suc n) = any-clear n

pub any-one_hot : (n k : ℕ) → k < n → any (one_hot n k) ≡ true
any-one_hot zero k h = absurd (omega arith)
any-one_hot (suc n) zero h = refl
any-one_hot (suc n) (suc k) h = any-one_hot n k (omega arith)

bor-clear : (x : Word) → bor x (clear (length x)) ≡ x
bor-clear [] = refl
bor-clear (true ∷ bs) = ap (λ cs. true ∷ cs) (bor-clear bs)
bor-clear (false ∷ bs) = ap (λ cs. false ∷ cs) (bor-clear bs)

pub bor-one_hot : (x : Word) (k : ℕ) → bor x (one_hot (length x) k) ≡ set x k true
bor-one_hot [] k = refl
bor-one_hot (true ∷ bs) zero = ap (λ cs. true ∷ cs) (bor-clear bs)
bor-one_hot (false ∷ bs) zero = ap (λ cs. true ∷ cs) (bor-clear bs)
bor-one_hot (true ∷ bs) (suc k) = ap (λ cs. true ∷ cs) (bor-one_hot bs k)
bor-one_hot (false ∷ bs) (suc k) = ap (λ cs. false ∷ cs) (bor-one_hot bs k)

abbrev is_some : Option ℕ → ℕ → Bool
is_some none k = false
is_some (some n) k = n == k

is_some-true : (o : Option ℕ) (k : ℕ) → is_some o k ≡ true → o ≡ some k
is_some-true none k h = ground arith
is_some-true (some n) k h = ap some ((==_iff n k).0 h)

-- Whether `log` is right for the lowest `count` bits of a word.
right_up_to : (width : ℕ) (log : Word → Option ℕ) (count : ℕ) → Bool
right_up_to width log zero = true
right_up_to width log (suc k) = is_some (log (one_hot width k)) k && right_up_to width log k

right_up_to_lem :
    (width : ℕ) (log : Word → Option ℕ) (count k : ℕ)
    → right_up_to width log count ≡ true
    → k < count
    → log (one_hot width k) ≡ some k
unfolding right_up_to
right_up_to_lem width log zero k all less = absurd (omega arith)
right_up_to_lem width log (suc c) k all less =
    elim (Bool-cases (is_some (log (one_hot width c)) c)) [
      | inr wrong ↦ absurd (ground (arith, wrong, all))
      | inl fine ↦ elim (Bool-cases (k == c)) [
        | inl last ↦
            let e : k ≡ c = (==_iff k c).0 last in
            rw e (is_some-true (log (one_hot width c)) c fine)
        | inr other ↦ right_up_to_lem width log c k (rw fine at all) (ground (arith, other, less))
      ]
    ]

-- The logarithm of a word of 64 bits with one bit set is the index of this bit.
pub log_2_64-one_hot : (k : ℕ) → k < 64 → log_2_64 (one_hot 64 k) ≡ some k
unfolding log_2_64 log_2_32 right_up_to
log_2_64-one_hot k h = right_up_to_lem 64 log_2_64 64 k refl h

pub log_2_32-one_hot : (k : ℕ) → k < 32 → log_2_32 (one_hot 32 k) ≡ some k
unfolding log_2_32 right_up_to
log_2_32-one_hot k h = right_up_to_lem 32 log_2_32 32 k refl h
