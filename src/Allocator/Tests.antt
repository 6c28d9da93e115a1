-- ===== src/Allocator/Tests.antt =====
-- The allocator on a pool of twenty blocks, of which eighteen are released to it.
use docker_macos.Base.{
  ℕ, ◌≤◌, ◌<◌, ◌≡◌, ◌↔◌, refl, ap, ◌∙◌, true, false, not, Option, none, some, List, [], ◌∷◌, ltb,
  ◌==◌, if◌then◌else◌, arith,
}
use docker_macos.Allocator.Ranges.{
  clear_each, find_each, mem_any, scan, Bitmap, bit_test, test_all, clear_all, test_any,
}
use docker_macos.Allocator.Bits.{clear_all_lem}
use docker_macos.Allocator.Loops.{Seen}
use docker_macos.Allocator.Examined.{test_all_lem}
use docker_macos.Allocator.{
  Pool, num_sizes, Outcome, stored, malloc, release_map, placed, emptied, buddy_alloc_size, to_free,
  our_null, available, rebase, shrink, grow, size_bits, buddy_malloc, make_free, first_size,
  buddy_malloc_from, take_block, to_free_from, busy_bits,
}
use docker_macos.Allocator.Tiles.{Tiles, tile, end, free_tiles, to_free_lem}
use docker_macos.Allocator.Valid.{last, IsValid}
use docker_macos.Allocator.Fold.{push_all, claim_all, free_tiles-IsValid}
use docker_macos.Allocator.Sizes.{Fits}
use docker_macos.Allocator.Malloc.{Malloced, malloc_lem}
use docker_macos.Allocator.Release.{Released, release_lem}
use docker_macos.Allocator.Size.{alloc_size-malloc}
use docker_macos.Accel.Vram.{vram_malloc, vram_realloc, vram_free}
use docker_macos.Allocator.Merge.{
  free, check, realloc, check_sizes, check_list, free_block, merge, buddy_state, unlink, put_free,
  shorten, least_bits,
}

abbrev raw : Pool
raw = record {
  pool_start = 0;
  pool_blocks = 0;
  free_list = λ i. 0;
  has_map = false;
  bitmap = λ i k. false;
  free_bytes = 0;
  memory = λ i. 77;
}

-- After Init.
abbrev empty : Pool
empty = emptied (placed 65536 81920 true raw)

empty-IsValid : IsValid empty (λ s. []) (λ j. none)
unfolding release_map
empty-IsValid = record {
  small = omega arith;
  linked = λ t lt.
      last (let l : ltb t num_sizes ≡ true = ground arith in ap (λ b. if b then our_null else 0) l);
  blocks = λ t lt. refl;
}

abbrev tiles : List (ℕ × ℕ)
tiles = (1, 0) ∷ (2, 1) ∷ (4, 2) ∷ (8, 3) ∷ (16, 1) ∷ (18, 0) ∷ []

tiles-Tiles : Tiles 1 19 tiles
tiles-Tiles = tile 0 (omega arith) refl (
    tile 1 (omega arith) refl (
      tile 2 (omega arith) refl (
        tile 3 (omega arith) refl
          (tile 1 (omega arith) refl (tile 0 (omega arith) refl (end refl))))))

abbrev cleared : Pool
cleared = record empty { bitmap = clear_all empty.bitmap 1 19 }

-- After Release.
abbrev ready : Pool
ready = free_tiles tiles false cleared

cleared-IsValid : IsValid cleared (λ s. []) (λ j. none)
cleared-IsValid = record {
  small = omega arith;
  linked = empty-IsValid.linked;
  blocks = λ t lt. refl;
}

ready-IsValid : IsValid ready (push_all tiles (λ s. [])) (claim_all tiles (λ j. none))
ready-IsValid =
    free_tiles-IsValid cleared (λ s. []) (λ j. none) tiles-Tiles (omega arith)
      (λ j lo hi. clear_all_lem empty.bitmap 1 19 j ∙ ground arith) (λ j lo hi. refl)
      cleared-IsValid

release_lem_example : Released empty (λ j. none) 1 19
release_lem_example =
    release_lem empty (λ s. []) (λ j. none) 1 19 empty-IsValid (omega arith) (omega arith)
      (omega arith) (λ j lo hi. (ground arith, refl)) (omega arith)

malloc_lem_example :
    Malloced ready
      (push_all tiles (λ s. []))
      (claim_all tiles (λ j. none))
      5000
      (malloc 5000 true ready)
malloc_lem_example =
    malloc_lem ready (push_all tiles (λ s. [])) (claim_all tiles (λ j. none)) 5000 ready-IsValid

to_free_lem_example :
    (ts : List (ℕ × ℕ)) × Tiles 1 19 ts × (to_free 1 19 false raw ≡ some (free_tiles ts false raw))
to_free_lem_example = to_free_lem 1 19 false raw (omega arith)

-- The third byte is clear; it is the last whole byte of the range.
abbrev holed : Bitmap
holed = λ i k. not (i == 2)

test_all_lem_example :
    (test_all holed 3 30 ≡ true)
    ↔ ((j : ℕ) → 3 ≤ j → j < 30 → Seen 3 30 j → bit_test holed j ≡ true)
test_all_lem_example = test_all_lem holed 3 30

abbrev pool_of : Option (Pool × Outcome) → Pool
pool_of none = raw
pool_of (some (p, r)) = p

abbrev stored_at : Option (Pool × Outcome) → ℕ
stored_at (some (p, stored a)) = a
stored_at r = 0

-- 5000 bytes take two blocks, at the last block of this size that was freed.
allocated : malloc 5000 true ready ≡ some (pool_of (malloc 5000 true ready), stored 131072)
unfolding malloc size_bits buddy_malloc make_free first_size buddy_malloc_from take_block to_free
    to_free_from
allocated = refl

alloc_size-malloc_example :
    (bits : ℕ) × (buddy_alloc_size 131072 (pool_of (malloc 5000 true ready)) ≡ some bits)
    × Fits 5000 bits
alloc_size-malloc_example =
    alloc_size-malloc ready (pool_of (malloc 5000 true ready)) (push_all tiles (λ s. []))
      (claim_all tiles (λ j. none)) 5000 131072 ready-IsValid allocated

-- Whether Check accepts a pool, and with how many free bytes.
abbrev checked : Pool → Option ℕ
checked p = elim (check p (λ i. 0)) [ none ↦ none | some counts ↦ some (available p) ]

abbrev after_free : ℕ → Pool → Pool
after_free a p = (free a p).0

-- A block that is freed again merges with its buddies.
freed_again : checked (after_free 131072 (pool_of (malloc 5000 true ready))) ≡ checked ready
unfolding malloc size_bits buddy_malloc make_free first_size buddy_malloc_from take_block to_free
    to_free_from check check_sizes check_list available test_any find_each mem_any scan free
    free_block merge buddy_state unlink put_free buddy_alloc_size busy_bits clear_all clear_each
freed_again = refl

-- A block that becomes shorter gives the rest back; one that grows moves.
reallocated :
    (checked (pool_of (realloc 131072 3000 (pool_of (malloc 5000 true ready)))) ≡ some 69632)
    × (stored_at (realloc 131072 9000 (pool_of (malloc 5000 true ready))) ≡ 81920)
unfolding malloc size_bits buddy_malloc make_free first_size buddy_malloc_from take_block to_free
    to_free_from check check_sizes check_list available test_any find_each mem_any scan free
    free_block merge buddy_state unlink put_free buddy_alloc_size busy_bits realloc shorten
    least_bits clear_all clear_each shrink grow
reallocated = (refl, refl)

-- Rebase moves the pool.
rebased : (rebase 131072 ready).0.pool_start ≡ 131072
unfolding rebase
rebased = refl

-- The accelerator's methods on this pool: a block is given out, cannot grow beyond the pool, and is
-- given back; a block that could not grow is still the caller's.
given_out :
    (vram_malloc 5000 none ≡ some (0, none))
    × (vram_malloc 5000 (some ready) ≡ some (131072, some (pool_of (malloc 5000 true ready))))
    × (vram_realloc 131072 400000 (some (pool_of (malloc 5000 true ready)))
        ≡ some (0, some (pool_of (malloc 5000 true ready))))
unfolding vram_malloc vram_realloc realloc malloc size_bits buddy_malloc make_free first_size
    buddy_malloc_from take_block to_free to_free_from buddy_alloc_size busy_bits least_bits
    find_each mem_any scan test_any clear_all clear_each
given_out = (refl, refl, refl)

nothing_freed : vram_free 131072 none ≡ none
unfolding vram_free
nothing_freed = refl
