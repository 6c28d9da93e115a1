-- ===== src/Allocator/Take.antt =====
-- What taking the first block of a free list does to the lists.
use docker_macos.Base.{
  ℕ, ◌+◌, ◌-◌, ◌*◌, ◌^◌, ◌≤◌, ◌<◌, ◌≡◌, refl, ◌∙◌, ◌≢◌, ◌⊎◌, inl, inr, true, false, ◌&&◌, none,
  List, [], ◌∷◌, arith, ltb, leb, ◌==◌, if◌then◌else◌, ==_refl, Bool-cases,
}
use docker_macos.Base.Mem.{Mem, update}
use docker_macos.Base.Word.{sub32}
use docker_macos.Allocator.Ranges.{bit_set}
use docker_macos.Allocator.Bits.{test-bit_set}
use docker_macos.Allocator.{Pool, num_sizes, our_null, off_prev, off_next}
use docker_macos.Allocator.Tiles.{pow_pos}
use docker_macos.Allocator.Valid.{
  All, All-map, Linked, last, node, Owners, IsFree, IsValid, Agree, agree-Linked,
}
use docker_macos.Allocator.Link.{free-Apart, head-IsFree}

-- The list without its first block, and nobody's blocks where that was.
abbrev pub pop : (bits : ℕ) → List ℕ → (ℕ → List ℕ) → ℕ → List ℕ
pop bits rest lists t = if t == bits then rest else lists t

abbrev pub disown : (offset bits : ℕ) → Owners → Owners
disown offset bits own j = if leb offset j && ltb j (offset + 2 ^ bits) then none else own j

module _ (pool : Pool) (own : Owners) (bits ret next : ℕ) where
  abbrev offset : ℕ
  offset = pool.free_list ret

  abbrev unlinked : Mem
  unlinked = if next == our_null then pool.memory else update pool.memory (off_prev next) our_null

  -- The pool of BuddyMalloc before the rest of the block is freed.
  abbrev pub taken : Pool
  taken = record pool {
    memory = unlinked;
    free_list = update pool.free_list ret next;
    bitmap = bit_set pool.bitmap (offset + 2 ^ bits - 1);
    free_bytes = sub32 pool.free_bytes (2 ^ ret * 4096);
  }

  others-Agree :
      (t o : ℕ)
      → (t ≢ ret) ⊎ (o ≢ next)
      → (next ≡ our_null) ⊎ IsFree pool own ret next
      → IsFree pool own t o
      → Agree pool.memory unlinked t o
  others-Agree t o differ (inl e) free i lo hi =
      let n : (next == our_null) ≡ true = ground arith in rw n refl
  others-Agree t o differ (inr h) free i lo hi =
      let post = pow_pos ret in
      let other : (i == off_prev next) ≡ false =
        elim (free-Apart pool own t o ret next (elim differ [ inl d ↦ inr d | inr d ↦ inl d ]) free
          h) [ inl p ↦ ground arith | inr p ↦ ground arith ] in
      elim (Bool-cases (next == our_null)) [ inl e ↦ rw e refl | inr e ↦ rw (e, other) refl ]

  same_size :
      (l : List ℕ)
      → (next ≡ our_null) ⊎ IsFree pool own ret next
      → All (IsFree pool own ret) l
      → All (λ o. o ≢ next) l
      → All (Agree pool.memory unlinked ret) l
  same_size [] h a b = refl
  same_size (o ∷ l) h (a, as') (b, bs) = (others-Agree ret o (inr b) h a, same_size l h as' bs)

  unlinked-Linked :
      (prev : ℕ) (l : List ℕ)
      → Linked pool.memory ret prev next l
      → All (IsFree pool own ret) l
      → Linked unlinked ret our_null next l
  unlinked-Linked prev [] (last e) free = last e
  unlinked-Linked prev (o ∷ l) (node n a b c d rest) (f, fs) =
      let e : (next == our_null) ≡ false = ground arith in
      let pos = pow_pos ret in
      let tail = agree-Linked unlinked pos rest (same_size l (inr f) fs d) in
      let keep : unlinked (off_next next) ≡ pool.memory (off_next next) = rw e (ground arith) in
      node n (rw e (ground arith)) (rw e (ground arith)) (rw e (ground arith)) d (rw keep tail)

  still_IsFree :
      (t o : ℕ)
      → bits ≤ ret
      → 2 ^ bits ≤ 2 ^ ret
      → (t ≢ ret) ⊎ (o ≢ offset)
      → IsFree pool own ret offset
      → IsFree pool own t o
      → IsFree taken (disown offset ret own) t o
  still_IsFree t o le short differ head free =
      let pos = pow_pos bits in
      let post = pow_pos t in
      let apart =
        free-Apart pool own t o ret offset (elim differ [ inl d ↦ inr d | inr d ↦ inl d ]) free
          head in
      record {
        inside = free.inside;
        aligned = free.aligned;
        clear = λ j lo hi.
            let other : (j == offset + 2 ^ bits - 1) ≡ false = elim apart [
              | inl l ↦ ground arith
              | inr r ↦ ground arith
            ] in
            test-bit_set pool.bitmap (offset + 2 ^ bits - 1) j ∙ rw other (free.clear j lo hi);
        owns = λ j lo hi.
            let out : (leb offset j && ltb j (offset + 2 ^ ret)) ≡ false = elim apart [
              | inl l ↦ ground arith
              | inr r ↦ ground arith
            ] in
            rw out (free.owns j lo hi);
      }

  All-still :
      (t : ℕ) (l : List ℕ)
      → bits ≤ ret
      → 2 ^ bits ≤ 2 ^ ret
      → IsFree pool own ret offset
      → All (IsFree pool own t) l
      → (t ≢ ret) ⊎ All (λ o. o ≢ offset) l
      → All (IsFree taken (disown offset ret own) t) l
  All-still t [] le short head a d = refl
  All-still t (o ∷ l) le short head (a, as') (inl d) =
      (still_IsFree t o le short (inl d) head a, All-still t l le short head as' (inl d))
  All-still t (o ∷ l) le short head (a, as') (inr (d, ds)) =
      (still_IsFree t o le short (inr d) head a, All-still t l le short head as' (inr ds))

  -- The lists stay sound when the first block of one is taken.
  pub taken-IsValid :
      (lists : ℕ → List ℕ) (rest : List ℕ)
      → ret < num_sizes
      → bits ≤ ret
      → 2 ^ bits ≤ 2 ^ ret
      → IsFree pool own ret offset
      → All (IsFree pool own ret) rest
      → All (λ o. o ≢ offset) rest
      → Linked pool.memory ret offset next rest
      → IsValid pool lists own
      → IsValid taken (pop ret rest lists) (disown offset ret own)
  taken-IsValid lists rest low le short head free differ list valid = record {
    small = valid.small;
    linked = λ t lt. elim (Bool-cases (t == ret)) [
      | inl same ↦
          let e : t ≡ ret = ground arith in
          rw (e, ==_refl ret) (unlinked-Linked offset rest list free)
      | inr other ↦ rw other (
          agree-Linked unlinked (pow_pos t) (valid.linked t lt) (
            All-map (lists t)
              (λ o f. others-Agree t o (inl (λ e. ground arith)) (head-IsFree list free) f)
              (valid.blocks t lt)))
    ];
    blocks = λ t lt. elim (Bool-cases (t == ret)) [
      | inl same ↦
          let e : t ≡ ret = ground arith in
          rw (e, ==_refl ret) (All-still ret rest le short head free (inr differ))
      | inr other ↦
          rw other
            (All-still t (lists t) le short head (valid.blocks t lt) (inl (λ e. ground arith)))
    ];
  }
