-- ===== src/Allocator/Valid.antt =====
-- When the free lists of the allocator are sound.
use docker_macos.Base.{
  ℕ, zero, ◌+◌, ◌*◌, ◌%◌, ◌^◌, ◌≤◌, ◌<◌, ◌≡◌, ◌∙◌, ◌≢◌, ◌⊎◌, inl, inr, false, Option, some, List,
  [], ◌∷◌, arith, ltb, Bool-cases,
}
use docker_macos.Base.Mem.{Mem}
use docker_macos.Allocator.Ranges.{bit_test}
use docker_macos.Allocator.{
  Pool, num_sizes, our_null, magic, len_offset, off_magic, off_prev, off_next, off_bits,
}

abbrev pub All : (ℕ → Type 0) → List ℕ → Type 0
All P [] = 0 ≡ zero
All P (x ∷ xs) = P x × All P xs

pub All-map : {P Q : ℕ → Type 0} (xs : List ℕ) → ((x : ℕ) → P x → Q x) → All P xs → All Q xs
All-map [] f h = h
All-map (x ∷ xs) f (h, hs) = (f x h, All-map xs f hs)

-- A doubly linked list of the free blocks of one size, from the block at `off` on. No block stands
-- in it twice.
pub data Linked (m : Mem) (size : ℕ) : (prev off : ℕ) → List ℕ → Type 0 where
  last : {prev off : ℕ} → off ≡ our_null → Linked m size prev off []
  node :
      {prev off : ℕ} {rest : List ℕ}
      → off ≢ our_null
      → m (off_magic off) ≡ magic
      → m (off_prev off) ≡ prev
      → m (off_bits (off + 2 ^ size)) ≡ size + len_offset
      → All (λ o. o ≢ off) rest
      → Linked m size off (m (off_next off)) rest
      → Linked m size prev off (off ∷ rest)

-- Which free block a block of the pool belongs to.
abbrev pub Owners : Type 0
Owners = ℕ → Option (ℕ × ℕ)

-- A free block lies in the pool at a multiple of its size, its bits are clear, and no other free
-- block shares a block of the pool with it.
pub record IsFree (pool : Pool) (own : Owners) (size offset : ℕ) : Type 0 where
  pub inside : offset + 2 ^ size ≤ pool.pool_blocks
  pub aligned : offset % 2 ^ size ≡ 0
  pub clear : (j : ℕ) → offset ≤ j → j < offset + 2 ^ size → bit_test pool.bitmap j ≡ false
  pub owns : (j : ℕ) → offset ≤ j → j < offset + 2 ^ size → own j ≡ some (size, offset)

pub record IsValid (pool : Pool) (lists : ℕ → List ℕ) (own : Owners) : Type 0 where
  pub small : pool.pool_blocks < 2 ^ 20
  pub linked :
      (size : ℕ)
      → size < num_sizes
      → Linked pool.memory size our_null (pool.free_list size) (lists size)
  pub blocks : (size : ℕ) → size < num_sizes → All (IsFree pool own size) (lists size)

abbrev pub Apart : (o size x bits : ℕ) → Type 0
Apart o size x bits = (o + 2 ^ size ≤ x) ⊎ (x + 2 ^ bits ≤ o)

-- Two memories that agree on the dwords of a block.
abbrev pub Agree : Mem → Mem → (size o : ℕ) → Type 0
Agree m f size o = (i : ℕ) → o * 1024 ≤ i → i < (o + 2 ^ size) * 1024 → f i ≡ m i

pub agree-Linked :
    {m : Mem} (f : Mem) {size prev off : ℕ} {l : List ℕ}
    → 0 < 2 ^ size
    → Linked m size prev off l
    → All (Agree m f size) l
    → Linked f size prev off l
agree-Linked f pos (last e) h = last e
agree-Linked {m} f {size} {prev} {off} pos (node n a b c d rest) (h, hs) =
    node n (h (off_magic off) (omega arith) (omega arith) ∙ a)
      (h (off_prev off) (omega arith) (omega arith) ∙ b)
      (h (off_bits (off + 2 ^ size)) (omega arith) (omega arith) ∙ c) d
      (rw (h (off_next off) (omega arith) (omega arith)) (agree-Linked f pos rest hs))

-- Blocks with different owners stand apart.
pub owns-Apart :
    (pool : Pool) (own : Owners) (s o t x : ℕ)
    → 0 < 2 ^ s
    → 0 < 2 ^ t
    → IsFree pool own s o
    → ((j : ℕ) → x ≤ j → j < x + 2 ^ t → own j ≢ some (s, o))
    → Apart o s x t
owns-Apart pool own s o t x ps pt free other = elim (Bool-cases (ltb x (o + 2 ^ s))) [
  | inr past ↦ inl (ground arith)
  | inl before ↦ elim (Bool-cases (ltb o (x + 2 ^ t))) [
    | inr past ↦ inr (ground arith)
    | inl after ↦ elim (Bool-cases (ltb o x)) [
      | inl low ↦
          absurd (other x (omega arith) (omega arith) (free.owns x (ground arith) (ground arith)))
      | inr high ↦
          absurd (other o (ground arith) (ground arith) (free.owns o (omega arith) (omega arith)))
    ]
  ]
]
