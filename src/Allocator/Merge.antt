-- ===== src/Allocator/Merge.antt =====
-- kexts/VMsvga2/AC/VMsvga2Allocator.cpp: Free, Realloc and Check.
use Prim.Native.Nat.{bit_xor}
use docker_macos.Base.{
  ℕ, zero, suc, ◌+◌, ◌-◌, ◌*◌, ◌/◌, ◌%◌, ◌^◌, Bool, true, false, ◌&&◌, not, Option, none, some, ltb,
  leb, ◌==◌, if◌then◌else◌,
}
use docker_macos.Base.Mem.{Mem, update, copy}
use docker_macos.Base.Word.{u32, add32, sub32}
use docker_macos.Allocator.Ranges.{bit_test, bit_set, bit_clear, test_any}
use docker_macos.Allocator.{
  IoReturn, success, internal_error, not_aligned, Outcome, stored, failed, Pool, num_sizes,
  our_null, magic, len_offset, off_magic, off_prev, off_next, off_bits, zero_dwords,
  buddy_alloc_size, malloc, to_free,
}

-- A step of Free: it goes on, or it ends with kIOReturnInternalError and what was changed by then.
pub data Step : Type 0 where
  go_on : Pool → Step
  corrupt : Pool → Step

-- The block after the one that leaves the list is linked to `back`.
abbrev pub relink_next : (next buddy back : ℕ) → Pool → Step
relink_next next buddy back pool =
    if next == our_null
    then go_on pool
    else if leb pool.pool_blocks next
    then corrupt pool
    else if not (pool.memory (off_magic next) == magic)
    then corrupt pool
    else if not (pool.memory (off_prev next) == buddy)
    then corrupt pool
    else go_on (record pool { memory = update pool.memory (off_prev next) back })

abbrev pub and_then : Step → (Pool → Step) → Step
and_then (go_on pool) f = f pool
and_then (corrupt pool) f = corrupt pool

-- The buddy leaves its free list, and its header is cleared.
unfoldable pub unlink : (bits buddy : ℕ) → Pool → Step
unlink bits buddy old =
    let pool = record old { memory = update old.memory (off_bits (buddy + 2 ^ bits)) 0 } in
    let prev = pool.memory (off_prev buddy) in
    let next = pool.memory (off_next buddy) in
    let cleared =
      λ (p : Pool). go_on (record p { memory = zero_dwords p.memory (off_magic buddy) 3 }) in
    if not (pool.memory (off_magic buddy) == magic)
    then corrupt pool
    else if pool.free_list bits == our_null
    then corrupt pool
    else if prev == our_null
    then and_then (relink_next next buddy our_null pool)
        (λ p. cleared (record p { free_list = update p.free_list bits next }))
    else if leb pool.pool_blocks prev
    then corrupt pool
    else if not (pool.memory (off_magic prev) == magic)
    then corrupt pool
    else if not (pool.memory (off_next prev) == buddy)
    then corrupt pool
    else and_then (relink_next next buddy prev pool)
        (λ p. cleared (record p { memory = update p.memory (off_next prev) next }))

-- What the buddy is found to be.
pub data Buddy : Type 0 where
  is_busy : Buddy
  is_broken : Buddy
  is_free : Buddy

-- `trueBits` is an int, whose negative values are those from 2 ^ 31 on here.
unfoldable pub buddy_state : (bits buddy : ℕ) → Pool → Buddy
buddy_state bits buddy pool =
    let past_buddy = buddy + 2 ^ bits in
    let true_bits = sub32 (pool.memory (off_bits past_buddy)) len_offset in
    if ltb pool.pool_blocks past_buddy
    then is_busy
    else if bit_test pool.bitmap (past_buddy - 1)
    then is_busy
    else if leb num_sizes true_bits
    then is_broken
    else if not (true_bits == bits)
    then is_busy
    else is_free

-- The result of the merging loop: the block with its size, or an error.
pub data Merged : Type 0 where
  merged : (bits block_off : ℕ) → Pool → Merged
  ended : Pool → Merged

-- The loop, by the number of sizes above `bits`.
unfoldable pub merge : (fuel bits block_off : ℕ) → Pool → Merged
merge zero bits block_off pool = merged bits block_off pool
merge (suc fuel) bits block_off pool =
    let buddy = bit_xor block_off (2 ^ bits) in
    let rest =
      λ (p : Pool). merge fuel (bits + 1) (if ltb buddy block_off then buddy else block_off) p in
    elim (buddy_state bits buddy pool) [
      | is_busy ↦ merged bits block_off pool
      | is_broken ↦ ended pool
      | is_free ↦ elim (unlink bits buddy pool) [ corrupt p ↦ ended p | go_on p ↦ rest p ]
    ]

-- The block becomes the first of its free list. The next block is tested after the first two words
-- are written.
unfoldable pub put_free : (old_bits bits block_off : ℕ) → Pool → Pool × IoReturn
put_free old_bits bits block_off old =
    let next = old.free_list bits in
    let pool = record old {
      memory = update (update old.memory (off_magic block_off) magic) (off_prev block_off) our_null;
    } in
    let linked = λ (f : Mem). record pool {
      memory =
          update (update f (off_next block_off) next) (off_bits (block_off + 2 ^ bits))
            (bits + len_offset);
      free_list = update pool.free_list bits block_off;
      free_bytes = add32 pool.free_bytes (2 ^ old_bits * 4096);
    } in
    if next == our_null
    then (linked pool.memory, success)
    else if leb pool.pool_blocks next
    then (pool, internal_error)
    else if not (pool.memory (off_magic next) == magic)
    then (pool, internal_error)
    else if not (pool.memory (off_prev next) == our_null)
    then (pool, internal_error)
    else (linked (update pool.memory (off_prev next) block_off), success)

unfoldable pub free_block : (bits block_off : ℕ) → Pool → Pool × IoReturn
free_block bits block_off pool =
    let cleared = record pool { bitmap = bit_clear pool.bitmap (block_off + 2 ^ bits - 1) } in
    elim (merge (num_sizes - 1 - bits) bits block_off cleared) [
      | ended p ↦ (p, internal_error)
      | merged bits' block_off' p ↦ put_free bits bits' block_off' p
    ]

-- The null pointer is address 0.
unfoldable pub free : (storage : ℕ) → Pool → Pool × IoReturn
free storage pool = if storage == 0 then (pool, success) else elim (buddy_alloc_size storage pool) [
  | none ↦ (pool, not_aligned)
  | some bits ↦ free_block bits ((storage - pool.pool_start) / 4096) pool
]

-- The block at `ptr`, of 2 ^ bits blocks, is moved to a new one.
abbrev pub move : (bits ptr : ℕ) → Pool × Outcome → Pool × Outcome
move bits ptr (pool, failed e) = (pool, failed e)
move bits ptr (pool, stored new) =
    let f =
      copy pool.memory ((new - pool.pool_start) / 4) pool.memory ((ptr - pool.pool_start) / 4)
        (2 ^ bits * 1024) in
    let (p, r) = free ptr (record pool { memory = f }) in
    elim r [ success ↦ (p, stored new) | e ↦ ((free new p).0, failed e) ]

-- `canBits - minBits` for the smallest size that holds `size` bytes, by the number of sizes.
unfoldable pub least_bits : (fuel bits size : ℕ) → ℕ
least_bits zero bits size = bits
least_bits (suc fuel) bits size =
    let rest = least_bits fuel (bits + 1) size in if ltb (2 ^ bits * 4096) size then rest else bits

unfoldable pub shorten : (bits can_bits ptr : ℕ) → Pool → Option (Pool × Outcome)
shorten bits can_bits ptr pool =
    let block_no = (ptr - pool.pool_start) / 4096 in
    let marked =
      bit_clear (bit_set pool.bitmap (block_no + 2 ^ can_bits - 1)) (block_no + 2 ^ bits - 1) in
    elim (to_free (block_no + 2 ^ can_bits) (block_no + 2 ^ bits) false
      (record pool { bitmap = marked })) [ none ↦ none | some p ↦ some (p, stored ptr) ]

abbrev pub moved_to : (bits ptr : ℕ) → Option (Pool × Outcome) → Option (Pool × Outcome)
moved_to bits ptr none = none
moved_to bits ptr (some r) = some (move bits ptr r)

-- With a size of 0, Free's result, which stores no pointer.
unfoldable pub realloc : (ptr size : ℕ) → Pool → Option (Pool × Outcome)
realloc ptr size pool =
    if size == 0
    then (let (p, r) = free ptr pool in some (p, failed r))
    else if ptr == 0
    then malloc size true pool
    else elim (buddy_alloc_size ptr pool) [
      | none ↦ some (pool, failed not_aligned)
      | some bits ↦
          let can_bits = least_bits num_sizes 0 size in
          if ltb (2 ^ bits * 4096) size
          then moved_to bits ptr (malloc size true pool)
          else if leb bits can_bits
          then some (pool, stored ptr)
          else shorten bits can_bits ptr pool
    ]

-- The tests of Check on a block of a free list.
abbrev pub block_valid : Pool → (size offset prev : ℕ) → Bool
block_valid pool size offset prev =
    ltb offset pool.pool_blocks
    && (not (test_any pool.bitmap offset (offset + 2 ^ size))
        && ((pool.memory (off_magic offset) == magic)
            && ((pool.memory (off_prev offset) == prev)
                && (pool.memory (off_bits (offset + 2 ^ size)) == size + len_offset))))

-- The walk along a free list: the number of blocks, or `none` for kIOReturnInternalError. `left` is
-- what `maxBlocks` leaves.
unfoldable pub check_list : Pool → (size left offset prev seen : ℕ) → Option ℕ
check_list pool size zero offset prev seen = if not (offset == our_null) then none else some seen
check_list pool size (suc left) offset prev seen =
    let rest = check_list pool size left (pool.memory (off_next offset)) offset (seen + 1) in
    if offset == our_null
    then some seen
    else if not (block_valid pool size offset prev)
    then none
    else rest

-- The loop over the sizes. The result is `seenStore`; `counts` is filled with the blocks of each
-- size; on an error it is not returned.
unfoldable pub check_sizes : Pool → (fuel size seen_store : ℕ) → Mem → Option (ℕ × Mem)
check_sizes pool zero size seen_store counts = some (seen_store, counts)
check_sizes pool (suc fuel) size seen_store counts =
    let rest = λ (seen : ℕ).
      check_sizes pool fuel (size + 1) (add32 seen_store (seen * 2 ^ size))
        (update counts size seen) in
    elim (check_list pool size (pool.pool_blocks / 2 ^ size) (pool.free_list size) our_null 0) [
      | none ↦ none
      | some seen ↦ rest seen
    ]

unfoldable pub check : Pool → Mem → Option Mem
check pool counts = elim (check_sizes pool num_sizes 0 0 counts) [
  | none ↦ none
  | some (seen_store, counts') ↦
      if not (seen_store * 4096 % u32 == pool.free_bytes) then none else some counts'
]
