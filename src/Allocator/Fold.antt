-- ===== src/Allocator/Fold.antt =====
-- Freeing the blocks of a range one after the other.
use docker_macos.Base.{
  ℕ, ◌+◌, ◌^◌, ◌≤◌, ◌<◌, ◌≡◌, refl, sym, ◌∙◌, ◌≢◌, ◌⊎◌, inl, inr, true, false, ◌&&◌, Option, none,
  some, List, [], ◌∷◌, arith, ltb, leb, Bool-cases, ltb→lt,
}
use docker_macos.Allocator.Ranges.{bit_test}
use docker_macos.Allocator.{Pool, make_free}
use docker_macos.Allocator.Tiles.{Tiles, tile, end, free_tiles, pow_pos}
use docker_macos.Allocator.Valid.{Owners, IsValid}
use docker_macos.Allocator.Link.{push, claim, make_free-IsValid}

-- The lists and the owners after the blocks of a range are freed.
abbrev pub push_all : List (ℕ × ℕ) → (ℕ → List ℕ) → ℕ → List ℕ
push_all [] lists = lists
push_all ((x, bits) ∷ ts) lists = push_all ts (push x bits lists)

abbrev pub claim_all : List (ℕ × ℕ) → Owners → Owners
claim_all [] own = own
claim_all ((x, bits) ∷ ts) own = claim_all ts (claim x bits own)

pub Tiles-le : {i past : ℕ} {ts : List (ℕ × ℕ)} → Tiles i past ts → i ≤ past
Tiles-le (end e) = omega arith
Tiles-le (tile bits low aligned rest) = let h = Tiles-le rest in omega arith

-- Only the blocks of the range get an owner.
pub claim_all-outside :
    {i past : ℕ} {ts : List (ℕ × ℕ)} (own : Owners) (j : ℕ)
    → Tiles i past ts
    → (j < i) ⊎ (past ≤ j)
    → claim_all ts own j ≡ own j
claim_all-outside own j (end e) h = refl
claim_all-outside {i} own j (tile bits low aligned rest) h =
    let up = Tiles-le rest in
    let pos = pow_pos bits in
    let out : (leb i j && ltb j (i + 2 ^ bits)) ≡ false = elim h [
      | inl l ↦ ground arith
      | inr r ↦ ground arith
    ] in
    claim_all-outside (claim i bits own) j rest
      (elim h [ inl l ↦ inl (omega arith) | inr r ↦ inr r ])
    ∙ rw out refl

pub claim_all-inside :
    {i past : ℕ} {ts : List (ℕ × ℕ)} (own : Owners) (j : ℕ)
    → Tiles i past ts
    → i ≤ j
    → j < past
    → claim_all ts own j ≢ none
claim_all-inside own j (end e) lo hi x = absurd (omega arith)
claim_all-inside {i} own j (tile bits low aligned rest) lo hi x =
    elim (Bool-cases (ltb j (i + 2 ^ bits))) [
      | inr past ↦ claim_all-inside (claim i bits own) j rest (ground arith) hi x
      | inl here ↦
          let within : (leb i j && ltb j (i + 2 ^ bits)) ≡ true = ground arith in
          let e =
            claim_all-outside (claim i bits own) j rest (inl (ltb→lt j (i + 2 ^ bits) here)) in
          let claimed : claim i bits own j ≡ some (bits, i) = rw within refl in
          let f : ◌≡◌ {A = Option (ℕ × ℕ)} none (some (bits, i)) = sym x ∙ e ∙ claimed in cc
    ]

-- The lists stay sound when an idle range is freed.
pub free_tiles-IsValid :
    {i past : ℕ} {ts : List (ℕ × ℕ)} (pool : Pool) (lists : ℕ → List ℕ) (own : Owners)
    → Tiles i past ts
    → past ≤ pool.pool_blocks
    → ((j : ℕ) → i ≤ j → j < past → bit_test pool.bitmap j ≡ false)
    → ((j : ℕ) → i ≤ j → j < past → own j ≡ none)
    → IsValid pool lists own
    → IsValid (free_tiles ts false pool) (push_all ts lists) (claim_all ts own)
free_tiles-IsValid pool lists own (end e) fits clear idle valid = valid
free_tiles-IsValid {i} {past} pool lists own (tile bits low aligned rest) fits clear idle valid =
    let up = Tiles-le rest in
    let pos = pow_pos bits in
    let next =
      make_free-IsValid pool own i bits (omega arith) (λ j lo hi. idle j lo (omega arith)) lists low
        aligned (λ j lo hi. clear j lo (omega arith)) valid in
    free_tiles-IsValid (make_free i bits false pool) (push i bits lists) (claim i bits own) rest
      (unfold make_free in fits) (unfold make_free in (λ j lo hi. clear j (omega arith) hi))
      (λ j lo hi.
        let out : (leb i j && ltb j (i + 2 ^ bits)) ≡ false = ground arith in
        rw out (idle j (omega arith) hi))
      next

-- Freeing a range changes neither the bit map nor the pool's place.
pub free_tiles-kept :
    (ts : List (ℕ × ℕ)) (pool : Pool)
    → ((free_tiles ts false pool).bitmap ≡ pool.bitmap)
      × ((free_tiles ts false pool).pool_start ≡ pool.pool_start)
      × ((free_tiles ts false pool).pool_blocks ≡ pool.pool_blocks)
unfolding make_free
free_tiles-kept [] pool = (refl, refl, refl)
free_tiles-kept ((i, bits) ∷ ts) pool = free_tiles-kept ts (make_free i bits false pool)
