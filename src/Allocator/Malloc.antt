-- ===== src/Allocator/Malloc.antt =====
-- Malloc hands out a block that was free, and keeps the free lists sound.
use docker_macos.Base.{
  ℕ, ◌+◌, ◌-◌, ◌*◌, ◌%◌, ◌^◌, ◌≤◌, ◌<◌, ◌≡◌, refl, sym, ap, ◌∙◌, ◌≢◌, ◌⊎◌, ◌↔◌, inl, inr, true,
  false, not, ◌&&◌, Option, none, some, List, [], ◌∷◌, arith, ltb, leb, ◌==◌, if◌then◌else◌,
  Bool-cases, Option-cases, ltb→lt, ltb_false→le,
}
use docker_macos.Allocator.Bits.{test-bit_set}
use docker_macos.Allocator.Ranges.{bit_test}
use docker_macos.Allocator.{
  Pool, num_sizes, our_null, off_next, Outcome, stored, failed, first_size, head_valid, next_valid,
  take_block, buddy_malloc_from, buddy_malloc, malloc, address, no_memory, no_resources, to_free,
}
use docker_macos.Allocator.Tiles.{Tiles, free_tiles, to_free_lem, pow_pos}
use docker_macos.Allocator.Valid.{All, Linked, last, node, Owners, IsFree, IsValid}
use docker_macos.Allocator.Take.{pop, disown, taken, taken-IsValid}
use docker_macos.Allocator.Fold.{
  push_all, claim_all, claim_all-outside, claim_all-inside, free_tiles-IsValid, free_tiles-kept,
}
use docker_macos.Allocator.Sizes.{
  first_size-none, first_size-some, pow_le, Fits, size_bits_lem, mod_lower,
}

-- What Malloc gives. `refused` says why there is no block, and that nothing is changed; `granted`,
-- that the block was free, is nobody's now, and that nothing else was taken.
pub data Malloced (pool : Pool) (lists : ℕ → List ℕ) (own : Owners) (bytes : ℕ)
    (r : Option (Pool × Outcome)) : Type 0 where
  too_big :
      r ≡ some (pool, failed no_resources)
      → 2 ^ num_sizes * 4096 < bytes
      → Malloced pool lists own bytes r
  no_block :
      (bits : ℕ)
      → r ≡ some (pool, failed no_memory)
      → Fits bytes bits
      → (pool.free_bytes < 2 ^ bits * 4096)
        ⊎ ((s : ℕ) → bits ≤ s → s < num_sizes → pool.free_list s ≡ our_null)
      → Malloced pool lists own bytes r
  granted :
      (bits block : ℕ) (after : Pool) (lists' : ℕ → List ℕ) (own' : Owners)
      → r ≡ some (after, stored (address pool block))
      → Fits bytes bits
      → bits < num_sizes
      → block + 2 ^ bits ≤ pool.pool_blocks
      → block % 2 ^ bits ≡ 0
      → ((j : ℕ)
          → block ≤ j
          → j < block + 2 ^ bits
          → (own j ≢ none) × (bit_test pool.bitmap j ≡ false) × (own' j ≡ none))
      → ((j : ℕ) → (j < block) ⊎ (block + 2 ^ bits ≤ j) → (own' j ≡ none) ↔ (own j ≡ none))
      → ((j : ℕ)
          → bit_test after.bitmap j
            ≡ (if j == block + 2 ^ bits - 1 then true else bit_test pool.bitmap j))
      → (after.pool_start ≡ pool.pool_start)
      → (after.pool_blocks ≡ pool.pool_blocks)
      → IsValid after lists' own'
      → Malloced pool lists own bytes r

-- The block that a list starts with is handed out.
module _ (pool : Pool) (lists : ℕ → List ℕ) (own : Owners) (bytes bits ret : ℕ)
    (valid : IsValid pool lists own) (fits : Fits bytes bits) (low : ret < num_sizes)
    (le : bits ≤ ret) where
  abbrev head : ℕ
  head = pool.free_list ret

  abbrev following : ℕ
  following = pool.memory (off_next head)

  short : 2 ^ bits ≤ 2 ^ ret
  short = let e : bits + (ret - bits) ≡ ret = omega arith in rw e at (pow_le bits (ret - bits))

  next_fine :
      (l : List ℕ)
      → Linked pool.memory ret head following l
      → All (IsFree pool own ret) l
      → (not (following == our_null) && not (next_valid pool head following)) ≡ false
  next_fine [] (last e) free = ground arith
  next_fine (o ∷ l) (node n a b c d rest) (f, fs) =
      let pos = pow_pos ret in let i = f.inside in ground arith

  abbrev rest_pool : Pool
  rest_pool = taken pool own bits ret following

  -- The block at the head, and the rest of its list.
  module _ (l : List ℕ) (f : IsFree pool own ret head) (fs : All (IsFree pool own ret) l)
      (differ : All (λ o. o ≢ head) l) (list : Linked pool.memory ret head following l) where
    rest_IsValid : IsValid rest_pool (pop ret l lists) (disown head ret own)
    rest_IsValid =
        taken-IsValid pool own bits ret following lists l low le short f fs differ list valid

    disowned : (j : ℕ) → head ≤ j → j < head + 2 ^ ret → disown head ret own j ≡ none
    disowned j lo hi =
        let t : (leb head j && ltb j (head + 2 ^ ret)) ≡ true = ground arith in rw t refl

    kept_owner : (j : ℕ) → (j < head) ⊎ (head + 2 ^ ret ≤ j) → disown head ret own j ≡ own j
    kept_owner j h =
        let t : (leb head j && ltb j (head + 2 ^ ret)) ≡ false = elim h [
          | inl a ↦ ground arith
          | inr b ↦ ground arith
        ] in
        rw t refl

    owned : (j : ℕ) → head ≤ j → j < head + 2 ^ ret → own j ≢ none
    owned j lo hi e =
        let c : ◌≡◌ {A = Option (ℕ × ℕ)} none (some (ret, head)) = sym e ∙ f.owns j lo hi in cc

    block_aligned : head % 2 ^ bits ≡ 0
    block_aligned =
        let e : bits + (ret - bits) ≡ ret = omega arith in
        mod_lower head bits (ret - bits) (ap (λ k. head % 2 ^ k) e ∙ f.aligned)

    rest_clear :
        (j : ℕ) → head + 2 ^ bits ≤ j → j < head + 2 ^ ret → bit_test rest_pool.bitmap j ≡ false
    rest_clear j lo hi =
        let pos = pow_pos bits in
        let other : (j == head + 2 ^ bits - 1) ≡ false = ground arith in
        test-bit_set pool.bitmap (head + 2 ^ bits - 1) j ∙ rw other (f.clear j (omega arith) hi)

    outside_same :
        (ts : List (ℕ × ℕ)) (j : ℕ)
        → Tiles (head + 2 ^ bits) (head + 2 ^ ret) ts
        → (j < head) ⊎ (head + 2 ^ bits ≤ j)
        → (claim_all ts (disown head ret own) j ≡ none) ↔ (own j ≡ none)
    outside_same ts j tiles (inl before) =
        let same =
          claim_all-outside (disown head ret own) j tiles (inl (omega arith))
          ∙ kept_owner j (inl before) in
        (λ e. sym same ∙ e, λ e. same ∙ e)
    outside_same ts j tiles (inr past) = elim (Bool-cases (ltb j (head + 2 ^ ret))) [
      | inl rest ↦ (
        λ e. absurd (
            claim_all-inside (disown head ret own) j tiles past (ltb→lt j (head + 2 ^ ret) rest) e),
        λ e. absurd (owned j (omega arith) (ltb→lt j (head + 2 ^ ret) rest) e),
      )
      | inr out ↦
          let le = ltb_false→le j (head + 2 ^ ret) out in
          let same =
            claim_all-outside (disown head ret own) j tiles (inr le) ∙ kept_owner j (inr le) in
          (λ e. sym same ∙ e, λ e. same ∙ e)
    ]

    granted-Malloced :
        (ts : List (ℕ × ℕ))
        → Tiles (head + 2 ^ bits) (head + 2 ^ ret) ts
        → to_free (head + 2 ^ bits) (head + 2 ^ ret) false rest_pool
          ≡ some (free_tiles ts false rest_pool)
        → Malloced pool lists own bytes (take_block bits ret head following pool)
    unfolding take_block
    granted-Malloced ts tiles same =
        let s = short in
        let pos = pow_pos bits in
        let inside = f.inside in
        let (b1, b2, b3) = free_tiles-kept ts rest_pool in
        granted bits head (free_tiles ts false rest_pool) (push_all ts (pop ret l lists))
          (claim_all ts (disown head ret own)) (rw same refl) fits (omega arith) (omega arith)
          block_aligned
          (λ j lo hi. (
            owned j lo (omega arith),
            f.clear j lo (omega arith),
            claim_all-outside (disown head ret own) j tiles (inl hi) ∙ disowned j lo (omega arith),
          ))
          (λ j h. outside_same ts j tiles h)
          (λ j. ap (λ m. bit_test m j) b1 ∙ test-bit_set pool.bitmap (head + 2 ^ bits - 1) j) b2 b3
          (free_tiles-IsValid rest_pool (pop ret l lists) (disown head ret own) tiles inside
            rest_clear (λ j lo hi. disowned j (omega arith) hi) rest_IsValid)

  first-Malloced :
      (l : List ℕ)
      → head ≢ our_null
      → Linked pool.memory ret our_null head l
      → All (IsFree pool own ret) l
      → Malloced pool lists own bytes (buddy_malloc_from bits ret pool)
  unfolding buddy_malloc_from
  first-Malloced [] there (last e) free = absurd (there e)
  first-Malloced (o ∷ l) there (node n a b c d list) (f, fs) =
      let pos = pow_pos ret in
      let inside = f.inside in
      let s = short in
      let valid_head : head_valid pool head ret ≡ true = ground arith in
      let (ts, tiles, same) =
        to_free_lem (head + 2 ^ bits) (head + 2 ^ ret) false rest_pool (omega arith) in
      rw (valid_head, next_fine l list fs) (granted-Malloced l f fs d list ts tiles same)

buddy_malloc-Malloced :
    (pool : Pool) (lists : ℕ → List ℕ) (own : Owners) (bytes bits : ℕ)
    → IsValid pool lists own
    → Fits bytes bits
    → bits ≤ num_sizes
    → Malloced pool lists own bytes (buddy_malloc bits pool)
unfolding buddy_malloc
buddy_malloc-Malloced pool lists own bytes bits valid fits le =
    elim (Bool-cases (ltb pool.free_bytes (2 ^ bits * 4096))) [
      | inl few ↦
          rw few (no_block bits refl fits (inl (ltb→lt pool.free_bytes (2 ^ bits * 4096) few)))
      | inr enough ↦ elim (Option-cases (first_size (num_sizes - bits) bits pool.free_list)) [
        | inl e ↦
            rw (enough, e)
              (no_block bits refl fits (
                inr λ s lo hi.
                  first_size-none (num_sizes - bits) bits pool.free_list e s lo (omega arith)))
        | inr (r, e) ↦
            let (a, b, c) = first_size-some (num_sizes - bits) bits pool.free_list r e in
            rw (enough, e)
              (first-Malloced pool lists own bytes bits r valid fits (omega arith) a (lists r) c
                (valid.linked r (omega arith)) (valid.blocks r (omega arith)))
      ]
    ]

-- On a pool with sound free lists, Malloc with a place for its result either refuses for want of a
-- block and changes nothing, or returns a block of the smallest size that holds the bytes: it is in
-- the pool, at a multiple of its size, was free before, belongs to no free list after, every other
-- block is as free as before, only the bit of its end is set, and the free lists are sound again.
pub malloc_lem :
    (pool : Pool) (lists : ℕ → List ℕ) (own : Owners) (bytes : ℕ)
    → IsValid pool lists own
    → Malloced pool lists own bytes (malloc bytes true pool)
unfolding malloc
malloc_lem pool lists own bytes valid =
    elim (size_bits_lem (num_sizes + 1) 4096 0 bytes refl refl (inl refl) (omega arith)) [
      | inl (b, e, le, fits) ↦ rw e (buddy_malloc-Malloced pool lists own bytes b valid fits le)
      | inr (e, big) ↦ rw e (too_big refl big)
    ]
