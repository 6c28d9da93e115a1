-- ===== src/Allocator.antt =====
-- kexts/VMsvga2/AC/VMsvga2Allocator.h and VMsvga2Allocator.cpp, built with FRAGILE: the buddy
-- allocator of video memory. The bit map and its ranges are in the child Ranges.
pub mod Ranges
pub mod Bits
pub mod Loops
pub mod Examined
pub mod Merge
pub mod Tiles
pub mod Valid
pub mod Link
pub mod Take
pub mod Fold
pub mod Sizes
pub mod Malloc
pub mod Size
pub mod Release
pub mod Tests
use docker_macos.Base.{
  ℕ, zero, suc, ◌+◌, ◌-◌, ◌*◌, ◌/◌, ◌%◌, ◌^◌, Bool, true, false, ◌&&◌, ◌||◌, not, Option, none,
  some, ltb, leb, ◌==◌, if◌then◌else◌,
}
use docker_macos.Base.Mem.{Mem, update}
use docker_macos.Base.Word.{u32, add32, sub32}
use docker_macos.Allocator.Ranges.{Bitmap, bit_test, bit_set, bit_clear, fill, test_all, clear_all}

pub data IoReturn : Type 0 where
  success : IoReturn
  bad_argument : IoReturn
  no_memory : IoReturn
  no_resources : IoReturn
  not_aligned : IoReturn
  internal_error : IoReturn
  bad_media : IoReturn

-- What a method with an output parameter leaves: its return value, and the value stored.
pub data Outcome : Type 0 where
  stored : ℕ → Outcome
  failed : IoReturn → Outcome

-- The constants that Init stores in the fields `minBits` and `numSizes`.
abbrev pub min_bits : ℕ
min_bits = 12

abbrev pub num_sizes : ℕ
num_sizes = 13

abbrev pub our_null : ℕ
our_null = u32 - 1

abbrev pub magic : ℕ
magic = 0xA713_0423

abbrev pub len_offset : ℕ
len_offset = 1234

-- `memory` is the pool by dwords, from its first byte on. The array `freeList` is a function of the
-- index. The pool has less than 2 ^ 20 blocks, so no shift of a block number loses bits.
pub record Pool : Type 0 where
  pub pool_start : ℕ
  pub pool_blocks : ℕ
  pub free_list : Mem
  pub has_map : Bool
  pub bitmap : Bitmap
  pub free_bytes : ℕ
  pub memory : Mem

-- The dword at an offset from the start of a block, and the last dword before a block.
abbrev pub off_magic : ℕ → ℕ
off_magic block = block * 1024

abbrev pub off_prev : ℕ → ℕ
off_prev block = block * 1024 + 1

abbrev pub off_next : ℕ → ℕ
off_next block = block * 1024 + 2

abbrev pub off_bits : ℕ → ℕ
off_bits past = past * 1024 - 1

-- `bzero` on `count` dwords.
abbrev pub zero_dwords : Mem → (start count : ℕ) → Mem
zero_dwords f start count = λ i. if leb start i && ltb i (start + count) then 0 else f i

-- The header and the trailer of a free block, and the back link of the block that was first.
abbrev pub link_free : Mem → (first_free bits_free next : ℕ) → Mem
link_free f first_free bits_free next =
    let a = update f (off_magic first_free) magic in
    let b = update a (off_prev first_free) our_null in
    let c = update b (off_next first_free) next in
    let d = update c (off_bits (first_free + 2 ^ bits_free)) (bits_free + len_offset) in
    if next == our_null then d else update d (off_prev next) first_free

unfoldable pub make_free : (first_free bits_free : ℕ) → (zap : Bool) → Pool → Pool
make_free first_free bits_free zap pool =
    let blocks = 2 ^ bits_free in
    let memory =
      if zap then zero_dwords pool.memory (first_free * 1024) (blocks * 1024) else pool.memory in
    let bitmap : Bitmap =
      if zap then clear_all pool.bitmap first_free (first_free + blocks) else pool.bitmap in
    record pool {
      bitmap = bitmap;
      memory = link_free memory first_free bits_free (pool.free_list bits_free);
      free_list = update pool.free_list bits_free first_free;
      free_bytes = add32 pool.free_bytes (blocks * 4096);
    }

-- The two loops of toFree that choose the size of the next block: `tryBits` and `tryLen` go up while
-- the next size fits and is aligned, then down until the size does. `i & (len - 1)` is the
-- remainder by `len`, a power of two. The first is by the number of sizes left.
unfoldable pub grow : (fuel i past try_bits try_len : ℕ) → ℕ × ℕ
grow zero i past try_bits try_len = (try_bits, try_len)
grow (suc fuel) i past try_bits try_len =
    let next_len = try_len * 2 in
    let rest = grow fuel i past (try_bits + 1) next_len in
    if ltb past (i + next_len)
    then (try_bits, try_len)
    else if not (i % next_len == 0)
    then (try_bits, try_len)
    else rest

-- `none` is `tryBits < 0`.
unfoldable pub shrink : (i past try_bits try_len : ℕ) → Option (ℕ × ℕ)
shrink i past zero try_len =
    if ltb past (i + try_len) || not (i % try_len == 0) then none else some (0, try_len)
shrink i past (suc b) try_len =
    let rest = shrink i past b (try_len / 2) in
    if ltb past (i + try_len) || not (i % try_len == 0) then rest else some (suc b, try_len)

-- The loop over the chunk, by its number of blocks. The result is `none` where the fuel does not
-- suffice.
unfoldable pub to_free_from : (fuel i past try_bits try_len : ℕ) → (zap : Bool) → Pool → Option Pool
to_free_from zero i past try_bits try_len zap pool = if ltb i past then none else some pool
to_free_from (suc fuel) i past try_bits try_len zap pool =
    let g = grow (num_sizes - 1 - try_bits) i past try_bits try_len in
    let rest = λ (c : ℕ) (k : ℕ). to_free_from fuel (i + k) past c k zap (make_free i c zap pool) in
    elim (ltb i past) [
      | false ↦ some pool
      | true ↦ elim (shrink i past g.0 g.1) [ none ↦ some pool | some (c, k) ↦ rest c k ]
    ]

unfoldable pub to_free : (first_block past_block : ℕ) → Bool → Pool → Option Pool
to_free first_block past_block zap pool =
    to_free_from (past_block - first_block) first_block past_block 0 1 zap pool

-- The smallest size from `bits` on whose free list has a block.
unfoldable pub first_size : (fuel bits : ℕ) → Mem → Option ℕ
first_size zero bits lists = none
first_size (suc fuel) bits lists =
    let rest = first_size fuel (bits + 1) lists in
    if not (lists bits == our_null) then some bits else rest

-- The tests of BuddyMalloc on the first block of a free list.
abbrev pub head_valid : Pool → (offset ret_bits : ℕ) → Bool
head_valid pool offset ret_bits =
    ltb offset pool.pool_blocks
    && ((pool.memory (off_magic offset) == magic)
        && ((pool.memory (off_prev offset) == our_null)
            && (pool.memory (off_bits (offset + 2 ^ ret_bits)) == ret_bits + len_offset)))

-- And on the second.
abbrev pub next_valid : Pool → (offset next : ℕ) → Bool
next_valid pool offset next =
    ltb next pool.pool_blocks
    && ((pool.memory (off_magic next) == magic) && (pool.memory (off_prev next) == offset))

abbrev pub with_pool : Option Pool → Outcome → Option (Pool × Outcome)
with_pool none r = none
with_pool (some pool) r = some (pool, r)

-- The address of a block.
abbrev pub address : Pool → ℕ → ℕ
address pool block = pool.pool_start + block * 4096

-- The block leaves its free list, its end is marked in the bit map, and what is more than asked for
-- is freed again.
unfoldable pub take_block : (bits ret_bits offset next : ℕ) → Pool → Option (Pool × Outcome)
take_block bits ret_bits offset next pool =
    let past = offset + 2 ^ bits in
    let memory =
      if next == our_null then pool.memory else update pool.memory (off_prev next) our_null in
    let taken = record pool {
      memory = memory;
      free_list = update pool.free_list ret_bits next;
      bitmap = bit_set pool.bitmap (past - 1);
      free_bytes = sub32 pool.free_bytes (2 ^ ret_bits * 4096);
    } in
    with_pool (to_free past (offset + 2 ^ ret_bits) false taken) (stored (address pool offset))

unfoldable pub buddy_malloc_from : (bits ret_bits : ℕ) → Pool → Option (Pool × Outcome)
buddy_malloc_from bits ret_bits pool =
    let offset = pool.free_list ret_bits in
    let next = pool.memory (off_next offset) in
    if not (head_valid pool offset ret_bits)
    then some (pool, failed internal_error)
    else if not (next == our_null) && not (next_valid pool offset next)
    then some (pool, failed internal_error)
    else take_block bits ret_bits offset next pool

-- The output parameter is never null where this is called.
unfoldable pub buddy_malloc : (bits : ℕ) → Pool → Option (Pool × Outcome)
buddy_malloc bits pool =
    if ltb pool.free_bytes (2 ^ bits * 4096)
    then some (pool, failed no_memory)
    else elim (first_size (num_sizes - bits) bits pool.free_list) [
      | none ↦ some (pool, failed no_memory)
      | some ret_bits ↦ buddy_malloc_from bits ret_bits pool
    ]

-- The loop of BuddyAllocSize, whose test of `ourBits` bounds its rounds.
unfoldable pub busy_bits : (fuel block_off blocks our_bits : ℕ) → Pool → Option ℕ
busy_bits zero block_off blocks our_bits pool = none
busy_bits (suc fuel) block_off blocks our_bits pool =
    let rest = busy_bits fuel block_off (blocks * 2) (our_bits + 1) pool in
    if ltb pool.pool_blocks (block_off + blocks)
      || (leb num_sizes our_bits || not (block_off % blocks == 0))
    then none
    else if bit_test pool.bitmap (block_off + blocks - 1)
    then some our_bits
    else rest

-- `none` is kIOReturnNotAligned.
unfoldable pub buddy_alloc_size : (storage : ℕ) → Pool → Option ℕ
buddy_alloc_size storage pool =
    let byte_off = storage - pool.pool_start in
    let block_off = byte_off / 4096 in
    if ltb storage pool.pool_start
    then none
    else if not (byte_off == block_off * 4096)
    then none
    else if leb pool.pool_blocks block_off
    then none
    else busy_bits (num_sizes + 1) block_off 1 0 pool

-- The loop of Malloc; `none` is kIOReturnNoResources. `size` is shifted at most num_sizes times, so
-- it is never 0.
unfoldable pub size_bits : (fuel size bits bytes : ℕ) → Option ℕ
size_bits zero size bits bytes = none
size_bits (suc fuel) size bits bytes =
    let rest = size_bits fuel (size * 2) (bits + 1) bytes in
    if ltb size bytes then (if leb num_sizes bits then none else rest) else some bits

unfoldable pub malloc : (bytes : ℕ) → (has_store : Bool) → Pool → Option (Pool × Outcome)
malloc bytes has_store pool =
    if not has_store
    then some (pool, failed bad_argument)
    else elim (size_bits (num_sizes + 1) 4096 0 bytes) [
      | none ↦ some (pool, failed no_resources)
      | some bits ↦ buddy_malloc bits pool
    ]

unfoldable pub release_map : Pool → Pool
release_map pool = record pool { has_map = false }

-- The fields that Init sets before it knows whether IOMalloc returns a map, and those after.
abbrev pub placed : (start_address bytes : ℕ) → (allocated : Bool) → Pool → Pool
placed start_address bytes allocated pool = record (release_map pool) {
  pool_start = start_address;
  pool_blocks = bytes / 4096;
  has_map = allocated;
}

abbrev pub emptied : Pool → Pool
emptied pool = record pool {
  free_bytes = 0;
  bitmap = fill true pool.bitmap 0 ((pool.pool_blocks + 7) / 8);
  free_list = λ i. if ltb i num_sizes then our_null else pool.free_list i;
}

-- `allocated` says whether IOMalloc returns a map.
unfoldable pub init_pool : (start_address bytes : ℕ) → (allocated : Bool) → Pool → Pool × IoReturn
init_pool start_address bytes allocated pool =
    let p = placed start_address bytes allocated pool in
    if not (start_address % 4096 == 0)
    then (pool, bad_argument)
    else if not (bytes == bytes % u32)
    then (pool, bad_argument)
    else if not allocated
    then (p, no_memory)
    else (emptied p, success)

unfoldable pub rebase : (new_start_address : ℕ) → Pool → Pool × IoReturn
rebase new_start_address pool =
    if not (new_start_address % 4096 == 0)
    then (pool, bad_argument)
    else (record pool { pool_start = new_start_address }, success)

abbrev pub succeeded : Option Pool → Option (Pool × IoReturn)
succeeded none = none
succeeded (some pool) = some (pool, success)

-- testAll and clearAll in one.
unfoldable pub clear_check : Bitmap → (first_bit past_bit : ℕ) → Option Bitmap
clear_check m first_bit past_bit =
    if not (test_all m first_bit past_bit) then none else some (clear_all m first_bit past_bit)

unfoldable pub release : (start_offset end_offset : ℕ) → Pool → Option (Pool × IoReturn)
release start_offset end_offset pool =
    let start_block = start_offset / 4096 in
    let past_block = end_offset / 4096 in
    if not (start_offset % 4096 == 0) || not (end_offset % 4096 == 0)
    then some (pool, bad_argument)
    else if leb pool.pool_blocks start_block || ltb pool.pool_blocks past_block
    then some (pool, bad_argument)
    else elim (clear_check pool.bitmap start_block past_block) [
      | none ↦ some (pool, bad_media)
      | some m ↦ succeeded (to_free start_block past_block false (record pool { bitmap = m }))
    ]

pub available : Pool → ℕ
available pool = pool.free_bytes
