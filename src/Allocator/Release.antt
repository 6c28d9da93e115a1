-- ===== src/Allocator/Release.antt =====
-- Init and Release set up a pool with sound free lists.
use docker_macos.Base.{
  ℕ, ◌+◌, ◌-◌, ◌*◌, ◌/◌, ◌%◌, ◌≤◌, ◌<◌, ◌≡◌, refl, ap, ◌∙◌, ◌≢◌, ◌⊎◌, true, false, ◌&&◌, ◌||◌, none,
  some, List, [], arith, ltb, leb, ◌==◌, if◌then◌else◌,
}
use docker_macos.Base.Word.{u32}
use docker_macos.Allocator.Ranges.{bit_test, test_all, clear_all}
use docker_macos.Allocator.Bits.{clear_all_lem}
use docker_macos.Allocator.Examined.{test_all_lem}
use docker_macos.Allocator.{
  Pool, success, num_sizes, make_free, init_pool, release_map, placed, emptied, release,
  clear_check,
}
use docker_macos.Allocator.Tiles.{Tiles, tile, end, free_tiles, to_free_lem}
use docker_macos.Allocator.Valid.{All-map, last, Owners, IsValid}
use docker_macos.Allocator.Fold.{
  Tiles-le, push_all, claim_all, claim_all-outside, claim_all-inside, free_tiles-IsValid,
  free_tiles-kept,
}

-- Init with an aligned address and a size below 4 GB, where the map is allocated, succeeds: the
-- pool has the whole blocks of the size, all of them marked as not available, and no free block.
pub init_pool_lem :
    (start bytes : ℕ) (old : Pool)
    → start % 4096 ≡ 0
    → bytes < u32
    → (after : Pool) × (init_pool start bytes true old ≡ (after, success))
      × IsValid after (λ s. []) (λ j. none)
      × (after.pool_start ≡ start)
      × (after.pool_blocks ≡ bytes / 4096)
      × (after.free_bytes ≡ 0)
      × ((j : ℕ) → j < bytes / 4096 → bit_test after.bitmap j ≡ true)
unfolding init_pool release_map
init_pool_lem start bytes old aligned small =
    let a : (start % 4096 == 0) ≡ true = ground arith in
    let b : (bytes == bytes % u32) ≡ true = ground arith in
    (
      emptied (placed start bytes true old),
      rw (a, b) refl,
      record {
        small = omega arith;
        linked = λ t lt. last (let l : ltb t num_sizes ≡ true = ground arith in rw l refl);
        blocks = λ t lt. refl;
      },
      refl,
      refl,
      refl,
      λ j h. ground arith,
    )

-- The bytes of the blocks that are freed.
free_tiles-free_bytes :
    {i past : ℕ} {ts : List (ℕ × ℕ)} (pool : Pool)
    → Tiles i past ts
    → pool.free_bytes < u32
    → (free_tiles ts false pool).free_bytes ≡ (pool.free_bytes + (past - i) * 4096) % u32
unfolding make_free
free_tiles-free_bytes pool (end e) small = omega arith
free_tiles-free_bytes {i} pool (tile bits low aligned rest) small =
    let up = Tiles-le rest in
    free_tiles-free_bytes (make_free i bits false pool) rest (omega arith) ∙ omega arith

-- Bits that are cleared do not disturb the free lists.
cleared-IsValid :
    (pool : Pool) (lists : ℕ → List ℕ) (own : Owners) (first past : ℕ)
    → IsValid pool lists own
    → IsValid (record pool { bitmap = clear_all pool.bitmap first past }) lists own
cleared-IsValid pool lists own first past valid = record {
  small = valid.small;
  linked = valid.linked;
  blocks = λ t lt.
      All-map (lists t)
        (λ o f. record {
          inside = f.inside;
          aligned = f.aligned;
          clear = λ j lo hi.
              let e = f.clear j lo hi in clear_all_lem pool.bitmap first past j ∙ ground arith;
          owns = f.owns;
        })
        (valid.blocks t lt);
}

-- A pool after the blocks from `first` up to `past` were released: exactly their bits are cleared,
-- each of them belongs to a free block, and the free bytes grow by their size.
abbrev pub Released : Pool → Owners → (first past : ℕ) → Type 0
Released pool own first past =
    (after : Pool) × (lists' : ℕ → List ℕ) × (own' : Owners) × (release (first * 4096) (past * 4096)
        pool
      ≡ some (after, success))
    × IsValid after lists' own'
    × ((j : ℕ) → first ≤ j → j < past → own' j ≢ none)
    × ((j : ℕ) → (j < first) ⊎ (past ≤ j) → own' j ≡ own j)
    × ((j : ℕ)
        → bit_test after.bitmap j
          ≡ (if leb first j && ltb j past then false else bit_test pool.bitmap j))
    × (after.free_bytes ≡ (pool.free_bytes + (past - first) * 4096) % u32)

-- Release of whole blocks of the pool whose bits are all set, and that no free block has a part in,
-- ends with success: exactly their bits are cleared, each of them belongs to a free block, the free
-- bytes grow by their size, and the free lists stay sound.
pub release_lem :
    (pool : Pool) (lists : ℕ → List ℕ) (own : Owners) (first past : ℕ)
    → IsValid pool lists own
    → first < pool.pool_blocks
    → first ≤ past
    → past ≤ pool.pool_blocks
    → ((j : ℕ) → first ≤ j → j < past → (bit_test pool.bitmap j ≡ true) × (own j ≡ none))
    → pool.free_bytes < u32
    → Released pool own first past
unfolding release clear_check
release_lem pool lists own first past valid inside le fits idle small =
    let cleared = record pool { bitmap = clear_all pool.bitmap first past } in
    let (ts, tiles, same) = to_free_lem first past false cleared le in
    let a : (first * 4096 % 4096 == 0) ≡ true = ground arith in
    let b : (past * 4096 % 4096 == 0) ≡ true = ground arith in
    let c : first * 4096 / 4096 ≡ first = omega arith in
    let d : past * 4096 / 4096 ≡ past = omega arith in
    let e : (leb pool.pool_blocks first || ltb pool.pool_blocks past) ≡ false = ground arith in
    let all : test_all pool.bitmap first past ≡ true =
      (test_all_lem pool.bitmap first past).1 (λ j lo hi seen. (idle j lo hi).0) in
    let (k1, k2, k3) = free_tiles-kept ts cleared in
    (
      free_tiles ts false cleared,
      push_all ts lists,
      claim_all ts own,
      rw (a, b, c, d, e, all, c, d, same) refl,
      free_tiles-IsValid cleared lists own tiles fits
          (λ j lo hi. clear_all_lem pool.bitmap first past j ∙ ground arith)
          (λ j lo hi. (idle j lo hi).1) (cleared-IsValid pool lists own first past valid),
      (λ j lo hi. claim_all-inside own j tiles lo hi),
      (λ j h. claim_all-outside own j tiles h),
      (λ j. ap (λ m. bit_test m j) k1 ∙ clear_all_lem pool.bitmap first past j),
      free_tiles-free_bytes cleared tiles small,
    )
