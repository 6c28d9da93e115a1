-- ===== src/Allocator/Tiles.antt =====
-- toFree divides a range of blocks into aligned blocks of the legal sizes.
use native.Mathlib.Nat.{pow-suc}
use native.Mathlib.Numerals.{towards_suc}
use docker_macos.Base.{
  ℕ, zero, suc, ◌+◌, ◌-◌, ◌*◌, ◌/◌, ◌%◌, ◌^◌, ◌≤◌, ◌<◌, ◌≡◌, refl, sym, ap, ◌∙◌, inl, inr, Bool,
  true, false, not, ◌||◌, some, List, [], ◌∷◌, arith, ltb, ◌==◌, ltb→lt, Bool-cases,
}
use docker_macos.Allocator.{Pool, num_sizes, make_free, grow, shrink, to_free_from, to_free}

-- The blocks of a range, each by its first block and the logarithm of its size.
pub data Tiles : (first past : ℕ) → List (ℕ × ℕ) → Type 0 where
  end : {i past : ℕ} → i ≡ past → Tiles i past []
  tile :
      {i past : ℕ} {ts : List (ℕ × ℕ)} (bits : ℕ)
      → bits < num_sizes
      → i % 2 ^ bits ≡ 0
      → Tiles (i + 2 ^ bits) past ts
      → Tiles i past ((i, bits) ∷ ts)

-- The blocks are linked in the order of their addresses.
abbrev pub free_tiles : List (ℕ × ℕ) → Bool → Pool → Pool
free_tiles [] zap pool = pool
free_tiles ((i, bits) ∷ ts) zap pool = free_tiles ts zap (make_free i bits zap pool)

pub pow_pos : (b : ℕ) → 0 < 2 ^ b
pow_pos zero = omega arith
pow_pos (suc b) = let e = pow-suc 2 b in let p = pow_pos b in omega arith

pub pow_half : (b : ℕ) → 2 ^ suc b / 2 ≡ 2 ^ b
pow_half b = let e = pow-suc 2 b in omega arith

pub pow_double : (b l : ℕ) → l ≡ 2 ^ b → l * 2 ≡ 2 ^ (b + 1)
pow_double b l e = simp towards_suc (let p = pow-suc 2 b in omega arith)

grow_lem :
    (fuel i past b l : ℕ)
    → l ≡ 2 ^ b
    → ((grow fuel i past b l).1 ≡ 2 ^ (grow fuel i past b l).0)
      × ((grow fuel i past b l).0 ≤ b + fuel)
unfolding grow
grow_lem zero i past b l e = (e, omega arith)
grow_lem (suc fuel) i past b l e =
    let (p, q) = grow_lem fuel i past (b + 1) (l * 2) (pow_double b l e) in
    elim (Bool-cases (ltb past (i + l * 2))) [
      | inl over ↦ rw over (e, omega arith)
      | inr fits ↦ elim (Bool-cases (i % (l * 2) == 0)) [
        | inl aligned ↦ rw (fits, aligned) (p, omega arith)
        | inr other ↦ rw (fits, other) (e, omega arith)
      ]
    ]

-- The size that the second loop stops at fits the range and is aligned.
shrink_lem :
    (i past b l : ℕ)
    → i < past
    → l ≡ 2 ^ b
    → (c : ℕ) × (shrink i past b l ≡ some (c, 2 ^ c))
      × (c ≤ b)
      × (i % 2 ^ c ≡ 0)
      × (i + 2 ^ c ≤ past)
unfolding shrink
shrink_lem i past zero l h e =
    let one : l ≡ 1 = e in
    let fits : ltb past (i + l) ≡ false = ground arith in
    let aligned : (i % l == 0) ≡ true = rw one (ground arith) in
    (0, rw (fits, aligned) (ap (λ k. some (zero, k)) one), omega arith, omega arith, omega arith)
shrink_lem i past (suc b) l h e =
    let half : l / 2 ≡ 2 ^ b = ap (λ k. k / 2) e ∙ pow_half b in
    let (c, r, low, aligned, fits) = shrink_lem i past b (l / 2) h half in
    elim (Bool-cases (ltb past (i + l) || not (i % l == 0))) [
      | inl wrong ↦ rw wrong (c, r, omega arith, aligned, fits)
      | inr fine ↦ rw fine (
        suc b,
        ap (λ k. some (suc b, k)) e,
        omega arith,
        ap (λ k. i % k) (sym e) ∙ ground arith,
        ground arith,
      )
    ]

to_free_from_lem :
    (fuel i past b l : ℕ) (zap : Bool) (pool : Pool)
    → past ≤ i + fuel
    → i ≤ past
    → b < num_sizes
    → l ≡ 2 ^ b
    → (ts : List (ℕ × ℕ)) × Tiles i past ts
      × (to_free_from fuel i past b l zap pool ≡ some (free_tiles ts zap pool))
unfolding to_free_from
to_free_from_lem zero i past b l zap pool enough h low e =
    let done : ltb i past ≡ false = ground arith in ([], end (omega arith), rw done refl)
to_free_from_lem (suc fuel) i past b l zap pool enough h low e = elim (Bool-cases (ltb i past)) [
  | inr done ↦ ([], end (ground arith), rw (done, to_free_from) refl)
  | inl more ↦
      let g = grow (num_sizes - 1 - b) i past b l in
      let (p, q) = grow_lem (num_sizes - 1 - b) i past b l e in
      let (c, r, down, aligned, fits) = shrink_lem i past g.0 g.1 (ltb→lt i past more) p in
      let pos = pow_pos c in
      let (ts, tiles, same) =
        to_free_from_lem fuel (i + 2 ^ c) past c (2 ^ c) zap (make_free i c zap pool) (omega arith)
          fits (omega arith) refl in
      ((i, c) ∷ ts, tile c (omega arith) aligned tiles, rw (more, r, to_free_from) same)
]

-- toFree ends, and frees a division of the range, first to last, into blocks of the legal sizes,
-- each of which starts at a multiple of its size.
pub to_free_lem :
    (first past : ℕ) (zap : Bool) (pool : Pool)
    → first ≤ past
    → (ts : List (ℕ × ℕ)) × Tiles first past ts
      × (to_free first past zap pool ≡ some (free_tiles ts zap pool))
unfolding to_free
to_free_lem first past zap pool h =
    to_free_from_lem (past - first) first past 0 1 zap pool (omega arith) h (omega arith) refl
