-- ===== src/Allocator/Size.antt =====
-- The bit map tells the size of an allocated block.
use native.Mathlib.Nat.{pow-suc}
use docker_macos.Base.{
  ℕ, zero, suc, ◌+◌, ◌-◌, ◌*◌, ◌/◌, ◌%◌, ◌^◌, ◌≤◌, ◌<◌, ◌≡◌, refl, sym, ap, ◌∙◌, inl, inr, true,
  false, not, ◌||◌, Option, some, List, arith, ltb, leb, ◌==◌, Bool-cases, ==_refl,
}
use docker_macos.Allocator.Ranges.{bit_test}
use docker_macos.Allocator.{
  Pool, Outcome, stored, failed, no_memory, no_resources, num_sizes, busy_bits, buddy_alloc_size,
  address, malloc,
}
use docker_macos.Allocator.Tiles.{pow_pos, pow_double}
use docker_macos.Allocator.Valid.{Owners, IsValid}
use docker_macos.Allocator.Sizes.{pow_le, mod_lower, Fits}
use docker_macos.Allocator.Malloc.{too_big, no_block, granted, malloc_lem}

-- An allocated block: only the bit of its end is set.
module _ (pool : Pool) (block bits : ℕ) (low : bits < num_sizes)
    (inside : block + 2 ^ bits ≤ pool.pool_blocks) (aligned : block % 2 ^ bits ≡ 0)
    (clear : (j : ℕ) → block ≤ j → j < block + 2 ^ bits - 1 → bit_test pool.bitmap j ≡ false)
    (busy : bit_test pool.bitmap (block + 2 ^ bits - 1) ≡ true) where
  busy_bits_lem :
      (fuel b blocks : ℕ)
      → blocks ≡ 2 ^ b
      → b ≤ bits
      → bits < b + fuel
      → busy_bits fuel block blocks b pool ≡ some bits
  unfolding busy_bits
  busy_bits_lem zero b blocks e le f = absurd (omega arith)
  busy_bits_lem (suc fuel) b blocks e le f =
      let sum : b + (bits - b) ≡ bits = omega arith in
      let short : 2 ^ b ≤ 2 ^ bits = rw sum at (pow_le b (bits - b)) in
      let even : block % 2 ^ b ≡ 0 =
        mod_lower block b (bits - b) (ap (λ k. block % 2 ^ k) sum ∙ aligned) in
      let even' : block % blocks ≡ 0 = ap (λ k. block % k) e ∙ even in
      let fine : (ltb pool.pool_blocks (block + blocks)
            || (leb num_sizes b || not (block % blocks == 0)))
          ≡ false =
        ground arith in
      elim (Bool-cases (b == bits)) [
        | inl same ↦
            let q : b ≡ bits = ground arith in
            let last : bit_test pool.bitmap (block + blocks - 1) ≡ true =
              ap (λ k. bit_test pool.bitmap (block + k - 1)) (e ∙ ap (λ k. 2 ^ k) q) ∙ busy in
            rw (fine, last) (ap some q)
        | inr other ↦
            let less : b < bits = ground arith in
            let more : suc b + (bits - suc b) ≡ bits = omega arith in
            let twice : 2 ^ suc b ≤ 2 ^ bits = rw more at (pow_le (suc b) (bits - suc b)) in
            let p = pow-suc 2 b in
            let pos = pow_pos b in
            let inner : bit_test pool.bitmap (block + blocks - 1) ≡ false =
              clear (block + blocks - 1) (omega arith) (omega arith) in
            rw (fine, inner)
              (busy_bits_lem fuel (b + 1) (blocks * 2) (pow_double b blocks e) (omega arith)
                (omega arith))
      ]

  buddy_alloc_size_lem : buddy_alloc_size (address pool block) pool ≡ some bits
  unfolding buddy_alloc_size
  buddy_alloc_size_lem =
      let pos = pow_pos bits in
      let a : ltb (address pool block) pool.pool_start ≡ false = ground arith in
      let b : address pool block - pool.pool_start ≡ block * 4096 = omega arith in
      let c : block * 4096 / 4096 ≡ block = omega arith in
      let d : leb pool.pool_blocks block ≡ false = ground arith in
      let e : (block * 4096 == block * 4096) ≡ true = ==_refl (block * 4096) in
      rw (a, b, c, e, d) (busy_bits_lem (num_sizes + 1) 0 1 refl (omega arith) (omega arith))

-- After Malloc has stored an address, BuddyAllocSize finds there the size that was allocated: the
-- smallest that holds the bytes.
pub alloc_size-malloc :
    (pool after : Pool) (lists : ℕ → List ℕ) (own : Owners) (bytes a : ℕ)
    → IsValid pool lists own
    → malloc bytes true pool ≡ some (after, stored a)
    → (bits : ℕ) × (buddy_alloc_size a after ≡ some bits) × Fits bytes bits
alloc_size-malloc pool after lists own bytes a valid e =
    elim (malloc_lem pool lists own bytes valid) [
      | too_big f big ↦ absurd (
          let g : ◌≡◌ {A = Option (Pool × Outcome)} (some (after, stored a))
              (some (pool, failed no_resources)) =
            sym e ∙ f in
          cc)
      | no_block bits f fits why ↦ absurd (
          let g : ◌≡◌ {A = Option (Pool × Outcome)} (some (after, stored a))
              (some (pool, failed no_memory)) =
            sym e ∙ f in
          cc)
      | granted bits block p lists' own' f fits low inside aligned was others bit start blocks
            valid' ↦
          let g : ◌≡◌ {A = Option (Pool × Outcome)} (some (p, stored (address pool block)))
              (some (after, stored a)) =
            sym f ∙ e in
          let pos = pow_pos bits in
          let size : buddy_alloc_size (address p block) p ≡ some bits =
            buddy_alloc_size_lem p block bits low (rw blocks inside) aligned
              (λ j lo hi.
                bit j
                ∙ (let n : (j == block + 2 ^ bits - 1) ≡ false = ground arith in
                    rw n ((was j lo (omega arith)).1)))
              (bit (block + 2 ^ bits - 1) ∙ rw (==_refl (block + 2 ^ bits - 1)) refl) in
          let here : address p block ≡ a = ap (λ s. s + block * 4096) start ∙ cc in
          let pool_same : p ≡ after = cc in (bits, rw (sym here, sym pool_same) size, fits)
    ]
