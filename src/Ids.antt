-- ===== src/Ids.antt =====
-- kexts/VMsvga2/AC/VMsvga2Accel.cpp: the bit masks from which the accelerator gives out identifiers.
-- A word of 32 or 64 bits is the list of its bits, the lowest first.
pub mod Words
pub mod Masks
pub mod Alloc
pub mod Free
pub mod Ownership
mod Tests
use docker_macos.Base.{
  ℕ, zero, suc, ◌+◌, ◌-◌, ◌*◌, ◌/◌, ◌%◌, Bool, true, false, not, ◌||◌, ◌&&◌, Option, none, some,
  List, [], ◌∷◌, ◌++◌, map, leb, ltb, ◌==◌, if◌then◌else◌, set, get_or,
}
use docker_macos.Base.Word.{add32}

abbrev pub Word : Type 0
Word = List Bool

abbrev pub any : Word → Bool
any [] = false
any (b ∷ bs) = b || any bs

abbrev pub take : ℕ → Word → Word
take zero bs = []
take (suc n) [] = []
take (suc n) (b ∷ bs) = b ∷ take n bs

abbrev pub drop : ℕ → Word → Word
drop zero bs = bs
drop (suc n) [] = []
drop (suc n) (b ∷ bs) = drop n bs

-- `x + 1`, `&` and `|` of words of the same width.
abbrev pub increment : Word → Word
increment [] = []
increment (true ∷ bs) = false ∷ increment bs
increment (false ∷ bs) = true ∷ bs

abbrev pub band : Word → Word → Word
band [] cs = []
band (b ∷ bs) [] = []
band (b ∷ bs) (c ∷ cs) = (b && c) ∷ band bs cs

abbrev pub bor : Word → Word → Word
bor [] cs = []
bor (b ∷ bs) [] = []
bor (b ∷ bs) (c ∷ cs) = (b || c) ∷ bor bs cs

-- `~x & (x + 1)`
abbrev pub lowest_clear : Word → Word
lowest_clear x = band (map not x) (increment x)

-- `if (x & mask) { y |= n; x >>= n; }`, where the mask has the `n` bits from bit `n` on.
abbrev pub step : ℕ → ℕ × Word → ℕ × Word
step n (y, x) = if any (take n (drop n x)) then (y + n, drop n x) else (y, x)

-- `if (!(x & 0x1U)) return -1; return y;`, with `none` for -1.
abbrev pub log_of : ℕ × Word → Option ℕ
log_of (y, x) = if any (take 1 x) then some y else none

unfoldable pub log_2_32 : Word → Option ℕ
log_2_32 x = log_of (step 1 (step 2 (step 4 (step 8 (step 16 (0, x))))))

-- `y |= log_2_32(static_cast<uint32_t>(x))`; -1 absorbs every `y`.
abbrev pub plus_log : ℕ × Word → Option ℕ
plus_log (y, x) = elim (log_2_32 (take 32 x)) [ none ↦ none | some n ↦ some (y + n) ]

unfoldable pub log_2_64 : Word → Option ℕ
log_2_64 x = plus_log (step 32 (0, x))

-- `i += log_2(x); return i`, with `none` for -1.
abbrev pub found : ℕ → Option ℕ → Option ℕ
found i (some n) = some (i + n)
found i none = if i == 0 then none else some (i - 1)

-- The loop over an array of words of `width` bits, from bit `i` on: the bit that was found, or
-- `none` for (uint32_t)-1, and the array with this bit set.
unfoldable pub find_bit :
    (width : ℕ) (log : Word → Option ℕ) (i : ℕ) → List Word → Option ℕ × List Word
find_bit width log i [] = (none, [])
find_bit width log i (x ∷ xs) =
    let later = find_bit width log (i + width) xs in
    if not (any (lowest_clear x))
    then (later.0, x ∷ later.1)
    else (found i (log (lowest_clear x)), bor x (lowest_clear x) ∷ xs)

unfoldable pub find_bit_in_array64 : List Word → Option ℕ × List Word
find_bit_in_array64 = find_bit 64 log_2_64 0

pub find_bit_in_array32 : List Word → Option ℕ × List Word
find_bit_in_array32 = find_bit 32 log_2_32 0

-- The masks of the accelerator, the indices of the first words with a clear bit, and the numbers of
-- identifiers beyond the masks.
pub record Ids : Type 0 where
  pub surface_id_mask : List Word
  pub surface_id_idx : ℕ
  pub surface_ids_unmanaged : ℕ
  pub context_id_mask : Word
  pub context_ids_unmanaged : ℕ
  pub stream_id_mask : Word
  pub gmr_id_mask : List Word
  pub gmr_id_idx : ℕ

abbrev pub first_words : ℕ → List Word → List Word
first_words zero xs = []
first_words (suc n) [] = []
first_words (suc n) (x ∷ xs) = x ∷ first_words n xs

abbrev pub from_word : ℕ → List Word → List Word
from_word zero xs = xs
from_word (suc n) [] = []
from_word (suc n) (x ∷ xs) = from_word n xs

-- An allocation from the words from index `idx` on: the identifier, the mask and the new index.
unfoldable pub alloc_from : (num_entries : ℕ) → List Word → ℕ → Option ℕ × List Word × ℕ
alloc_from num_entries mask idx =
    let (r, rest) = find_bit_in_array64 (from_word idx mask) in
    let mask' = first_words idx mask ++ rest in
    elim r [
      | none ↦ (none, mask', num_entries)
      | some n ↦ (some (n + idx * 64), mask', idx + n / 64)
    ]

-- `mask[r] &= ~(1ULL << (id & 63U)); if (r < idx) idx = r;` for an identifier of the mask.
pub free_into : (num_entries : ℕ) (id : ℕ) → List Word → ℕ → List Word × ℕ
free_into num_entries id mask idx =
    let r = id / 64 in
    if leb num_entries r
    then (mask, idx)
    else (set mask r (set (get_or mask r []) (id % 64) false), (if ltb r idx then r else idx))

pub alloc_surface_id : Ids → ℕ × Ids
alloc_surface_id s =
    let (r, mask, idx) = alloc_from 4 s.surface_id_mask s.surface_id_idx in
    elim r [
      | none ↦ (
        add32 256 s.surface_ids_unmanaged,
        record s {
          surface_id_mask = mask;
          surface_id_idx = idx;
          surface_ids_unmanaged = add32 s.surface_ids_unmanaged 1;
        },
      )
      | some n ↦ (n, record s { surface_id_mask = mask; surface_id_idx = idx })
    ]

pub free_surface_id : ℕ → Ids → Ids
free_surface_id sid s =
    let (mask, idx) = free_into 4 sid s.surface_id_mask s.surface_id_idx in
    record s { surface_id_mask = mask; surface_id_idx = idx }

-- The mask of contexts is an array of one word.
abbrev pub only : List Word → Word
only [] = []
only (x ∷ xs) = x

pub alloc_context_id : Ids → ℕ × Ids
alloc_context_id s =
    let (r, rest) = find_bit_in_array64 (s.context_id_mask ∷ []) in
    elim r [
      | none ↦ (
        add32 64 s.context_ids_unmanaged,
        record s {
          context_id_mask = only rest;
          context_ids_unmanaged = add32 s.context_ids_unmanaged 1;
        },
      )
      | some n ↦ (n, record s { context_id_mask = only rest })
    ]

pub free_context_id : ℕ → Ids → Ids
free_context_id cid s =
    if leb 64 cid then s else record s { context_id_mask = set s.context_id_mask cid false }

-- The identifier is `none` for (uint32_t)-1.
unfoldable pub alloc_stream_id : Ids → Option ℕ × Ids
alloc_stream_id s =
    let (r, rest) = find_bit_in_array32 (s.stream_id_mask ∷ []) in
    (r, record s { stream_id_mask = only rest })

unfoldable pub free_stream_id : ℕ → Ids → Ids
free_stream_id stream_id s =
    if leb 32 stream_id
    then s
    else record s { stream_id_mask = set s.stream_id_mask stream_id false }

unfoldable pub alloc_gmr_id : Ids → Option ℕ × Ids
alloc_gmr_id s =
    let (r, mask, idx) = alloc_from 2 s.gmr_id_mask s.gmr_id_idx in
    (r, record s { gmr_id_mask = mask; gmr_id_idx = idx })

unfoldable pub free_gmr_id : ℕ → Ids → Ids
free_gmr_id gmr_id s =
    let (mask, idx) = free_into 2 gmr_id s.gmr_id_mask s.gmr_id_idx in
    record s { gmr_id_mask = mask; gmr_id_idx = idx }
