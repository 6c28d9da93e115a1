-- ===== src/Allocator/Ranges.antt =====
-- kexts/VMsvga2/AC/VMsvga2Allocator.cpp: the bit macros and the methods on ranges of the bit map.
use docker_macos.Base.{
  ℕ, zero, suc, ◌+◌, ◌-◌, ◌*◌, ◌/◌, ◌%◌, Bool, true, false, ◌&&◌, not, ltb, leb, ◌==◌,
  if◌then◌else◌,
}

-- A byte by its bits, of which bit 0 is `128U`.
abbrev pub Byte : Type 0
Byte = ℕ → Bool

abbrev pub Bitmap : Type 0
Bitmap = ℕ → Byte

abbrev pub bit_test : Bitmap → ℕ → Bool
bit_test m n = m (n / 8) (n % 8)

abbrev assign : Bool → Bitmap → ℕ → Bitmap
assign b m n = λ i k. if (i == n / 8) && (k == n % 8) then b else m i k

abbrev pub bit_set : Bitmap → ℕ → Bitmap
bit_set m n = assign true m n

abbrev pub bit_clear : Bitmap → ℕ → Bitmap
bit_clear m n = assign false m n

-- `memset` to 0xFF and `bzero`.
abbrev pub fill : Bool → Bitmap → (start count : ℕ) → Bitmap
fill b m start count = λ i k. if leb start i && ltb i (start + count) then b else m i k

abbrev pub all_same : Bool → Byte → Bool
all_same true c = c 0 && (c 1 && (c 2 && (c 3 && (c 4 && (c 5 && (c 6 && c 7))))))
all_same false c =
    not (c 0)
    && (not (c 1)
        && (not (c 2) && (not (c 3) && (not (c 4) && (not (c 5) && (not (c 6) && not (c 7)))))))

-- `repe scasb`, whose result is the count register: it is decremented for each byte that is
-- compared, and the first byte that differs ends the loop.
unfoldable pub scan : Bool → Bitmap → (p bytes : ℕ) → ℕ
scan b m p zero = 0
scan b m p (suc n) = let rest = scan b m (p + 1) n in if all_same b (m p) then rest else n

unfoldable pub mem_all : Bitmap → (p bytes : ℕ) → Bool
mem_all m p bytes = if bytes == 0 then true else scan true m p bytes == 0

unfoldable pub mem_any : Bitmap → (p bytes : ℕ) → Bool
mem_any m p bytes = if bytes == 0 then false else not (scan false m p bytes == 0)

-- The loops over single bits, by the number of bits.
unfoldable pub test_each : Bitmap → (i count : ℕ) → Bool
test_each m i zero = true
test_each m i (suc n) =
    let rest = test_each m (i + 1) n in if not (bit_test m i) then false else rest

unfoldable pub find_each : Bitmap → (i count : ℕ) → Bool
find_each m i zero = false
find_each m i (suc n) = let rest = find_each m (i + 1) n in if bit_test m i then true else rest

unfoldable pub clear_each : Bitmap → (i count : ℕ) → Bitmap
clear_each m i zero = m
clear_each m i (suc n) = clear_each (bit_clear m i) (i + 1) n

-- The range in three parts: the bits up to the first whole byte, whole bytes, and the bits after
-- them.
abbrev pub first_full : ℕ → ℕ
first_full first_bit = (first_bit + 7) / 8 * 8

abbrev pub past_full : ℕ → ℕ
past_full past_bit = past_bit / 8 * 8

abbrev pub head_past : (first_bit past_bit : ℕ) → ℕ
head_past first_bit past_bit =
    if ltb (first_full first_bit) past_bit then first_full first_bit else past_bit

abbrev pub tail_first : (first_bit past_bit : ℕ) → ℕ
tail_first first_bit past_bit =
    if ltb (past_full past_bit) (head_past first_bit past_bit)
    then head_past first_bit past_bit
    else past_full past_bit

abbrev pub full_bytes : (first_bit past_bit : ℕ) → ℕ
full_bytes first_bit past_bit = (past_full past_bit - first_full first_bit) / 8

unfoldable pub test_all : Bitmap → (first_bit past_bit : ℕ) → Bool
test_all m first_bit past_bit =
    if not (test_each m first_bit (head_past first_bit past_bit - first_bit))
    then false
    else if ltb (first_full first_bit) (past_full past_bit)
        && not (mem_all m (first_full first_bit / 8) (full_bytes first_bit past_bit))
    then false
    else test_each m (tail_first first_bit past_bit) (past_bit - tail_first first_bit past_bit)

unfoldable pub test_any : Bitmap → (first_bit past_bit : ℕ) → Bool
test_any m first_bit past_bit =
    if find_each m first_bit (head_past first_bit past_bit - first_bit)
    then true
    else if ltb (first_full first_bit) (past_full past_bit)
        && mem_any m (first_full first_bit / 8) (full_bytes first_bit past_bit)
    then true
    else find_each m (tail_first first_bit past_bit) (past_bit - tail_first first_bit past_bit)

unfoldable pub clear_all : Bitmap → (first_bit past_bit : ℕ) → Bitmap
clear_all m first_bit past_bit =
    let head = clear_each m first_bit (head_past first_bit past_bit - first_bit) in
    let body : Bitmap =
      if ltb (first_full first_bit) (past_full past_bit)
      then fill false head (first_full first_bit / 8) (full_bytes first_bit past_bit)
      else head in
    clear_each body (tail_first first_bit past_bit) (past_bit - tail_first first_bit past_bit)
