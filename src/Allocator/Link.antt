-- ===== src/Allocator/Link.antt =====
-- makeFree keeps the free lists sound.
use docker_macos.Base.{
  ℕ, ◌+◌, ◌*◌, ◌%◌, ◌^◌, ◌≤◌, ◌<◌, ◌≡◌, refl, sym, ◌∙◌, ◌≢◌, ◌⊎◌, inl, inr, true, false, ◌&&◌, none,
  some, List, [], ◌∷◌, arith, ltb, leb, ◌==◌, if◌then◌else◌, ==_refl, Bool-cases,
}
use docker_macos.Base.Mem.{Mem}
use docker_macos.Allocator.Ranges.{bit_test}
use docker_macos.Allocator.{
  Pool, num_sizes, our_null, magic, len_offset, off_magic, off_prev, off_next, off_bits, link_free,
  make_free,
}
use docker_macos.Allocator.Tiles.{pow_pos}
use docker_macos.Allocator.Valid.{
  All, All-map, Linked, last, node, Owners, IsFree, IsValid, Apart, Agree, agree-Linked, owns-Apart,
}

-- Outside the block, makeFree writes only the back link of the block that was first.
link_free-outside :
    (f : Mem) (x bits next i : ℕ)
    → 0 < 2 ^ bits
    → (i < x * 1024) ⊎ ((x + 2 ^ bits) * 1024 ≤ i)
    → (next ≡ our_null) ⊎ (i ≢ off_prev next)
    → link_free f x bits next i ≡ f i
link_free-outside f x bits next i pos out (inl e) =
    let t : (next == our_null) ≡ true = ground arith in rw t (ground arith)
link_free-outside f x bits next i pos out (inr h) = elim (Bool-cases (next == our_null)) [
  | inl e ↦ rw e (ground arith)
  | inr e ↦ rw e (let t : (i == off_prev next) ≡ false = ground arith in ground arith)
]

-- The words that it writes.
link_free-header :
    (f : Mem) (x bits next : ℕ)
    → 0 < 2 ^ bits
    → (next ≡ our_null) ⊎ Apart x bits next bits
    → (link_free f x bits next (off_magic x) ≡ magic)
      × (link_free f x bits next (off_prev x) ≡ our_null)
      × (link_free f x bits next (off_next x) ≡ next)
      × (link_free f x bits next (off_bits (x + 2 ^ bits)) ≡ bits + len_offset)
      × (next ≢ our_null → link_free f x bits next (off_prev next) ≡ x)
link_free-header f x bits next pos (inl e) =
    let t : (next == our_null) ≡ true = ground arith in
    rw t (ground arith, ground arith, ground arith, ground arith, λ n. absurd (n e))
link_free-header f x bits next pos (inr h) = elim (Bool-cases (next == our_null)) [
  | inl e ↦
      rw e (ground arith, ground arith, ground arith, ground arith, λ n. absurd (n (ground arith)))
  | inr e ↦ rw e (ground arith, ground arith, ground arith, ground arith, λ n. ground arith)
]

abbrev pub push : (x bits : ℕ) → (ℕ → List ℕ) → ℕ → List ℕ
push x bits lists t = if t == bits then x ∷ lists t else lists t

abbrev pub claim : (x bits : ℕ) → Owners → Owners
claim x bits own j = if leb x j && ltb j (x + 2 ^ bits) then some (bits, x) else own j

-- The head of a free list is a free block.
pub head-IsFree :
    {m : Mem} {pool : Pool} {own : Owners} {size prev off : ℕ} {l : List ℕ}
    → Linked m size prev off l
    → All (IsFree pool own size) l
    → (off ≡ our_null) ⊎ IsFree pool own size off
head-IsFree (last e) h = inl e
head-IsFree (node n a b c d rest) (h, hs) = inr h

module _ (pool : Pool) (own : Owners) where
  -- Two free blocks stand apart.
  pub free-Apart :
      (s o t x : ℕ) → (o ≢ x) ⊎ (s ≢ t) → IsFree pool own s o → IsFree pool own t x → Apart o s x t
  free-Apart s o t x differ a b = owns-Apart pool own s o t x (pow_pos s) (pow_pos t) a λ j lo hi e.
      let same : some (t, x) ≡ some (s, o) = sym (b.owns j lo hi) ∙ e in
      elim differ [ inl n ↦ n (cc) | inr n ↦ n (cc) ]

  module _ (x bits : ℕ) (fits : x + 2 ^ bits ≤ pool.pool_blocks)
      (idle : (j : ℕ) → x ≤ j → j < x + 2 ^ bits → own j ≡ none) where
    idle-Apart : (t o : ℕ) → IsFree pool own t o → Apart o t x bits
    idle-Apart t o free =
        owns-Apart pool own t o bits x (pow_pos t) (pow_pos bits) free
          λ j lo hi e. let impossible : none ≡ some (t, o) = sym (idle j lo hi) ∙ e in cc

    abbrev linked_memory : Mem
    linked_memory = link_free pool.memory x bits (pool.free_list bits)

    -- The other blocks are not written.
    others-Agree :
        (t o : ℕ)
        → (pool.free_list bits ≡ our_null) ⊎ ((t ≢ bits) ⊎ (o ≢ pool.free_list bits))
        → (pool.free_list bits ≡ our_null) ⊎ IsFree pool own bits (pool.free_list bits)
        → IsFree pool own t o
        → Agree pool.memory linked_memory t o
    others-Agree t o differ head free i lo hi =
        let pos = pow_pos bits in
        let post = pow_pos t in
        let out : (i < x * 1024) ⊎ ((x + 2 ^ bits) * 1024 ≤ i) = elim (idle-Apart t o free) [
          | inl l ↦ inl (omega arith)
          | inr r ↦ inr (omega arith)
        ] in
        link_free-outside pool.memory x bits (pool.free_list bits) i pos out
          (back i lo hi differ head)
      where
        apart :
            (i : ℕ)
            → o * 1024 ≤ i
            → i < (o + 2 ^ t) * 1024
            → Apart o t (pool.free_list bits) bits
            → i ≢ off_prev (pool.free_list bits)
        apart i lo hi (inl l) e = let pos = pow_pos bits in absurd (omega arith)
        apart i lo hi (inr r) e = let pos = pow_pos bits in absurd (omega arith)

        back :
            (i : ℕ)
            → o * 1024 ≤ i
            → i < (o + 2 ^ t) * 1024
            → (pool.free_list bits ≡ our_null) ⊎ ((t ≢ bits) ⊎ (o ≢ pool.free_list bits))
            → (pool.free_list bits ≡ our_null) ⊎ IsFree pool own bits (pool.free_list bits)
            → (pool.free_list bits ≡ our_null) ⊎ (i ≢ off_prev (pool.free_list bits))
        back i lo hi (inl e) h = inl e
        back i lo hi (inr d) (inl e) = inl e
        back i lo hi (inr (inl d)) (inr h) =
            inr (apart i lo hi (free-Apart t o bits (pool.free_list bits) (inr d) free h))
        back i lo hi (inr (inr d)) (inr h) =
            inr (apart i lo hi (free-Apart t o bits (pool.free_list bits) (inl d) free h))

    abbrev linked_pool : Pool
    linked_pool = make_free x bits false pool

    -- The rest of a list of blocks of the same size.
    same_size :
        (l : List ℕ)
        → All (IsFree pool own bits) l
        → All (λ o. o ≢ pool.free_list bits) l
        → (pool.free_list bits ≡ our_null) ⊎ IsFree pool own bits (pool.free_list bits)
        → All (Agree pool.memory linked_memory bits) l
    same_size [] a b h = refl
    same_size (o ∷ l) (a, as') (b, bs) h =
        (others-Agree bits o (inr (inr b)) h a, same_size l as' bs h)

    relinked :
        (l : List ℕ)
        → Linked pool.memory bits our_null (pool.free_list bits) l
        → All (IsFree pool own bits) l
        → Linked linked_memory bits x (pool.free_list bits) l
    relinked [] (last e) h = last e
    relinked (o ∷ l) (node n a b c d rest) (h, hs) =
        let pos = pow_pos bits in
        let apart = idle-Apart bits (pool.free_list bits) h in
        let back : Apart x bits (pool.free_list bits) bits = elim apart [
          | inl p ↦ inr p
          | inr p ↦ inl p
        ] in
        let (e1, e2, e3, e4, e5) =
          link_free-header pool.memory x bits (pool.free_list bits) pos (inr back) in
        let keep =
          λ (i : ℕ) (lo : pool.free_list bits * 1024 ≤ i)
              (hi : i < (pool.free_list bits + 2 ^ bits) * 1024)
              (ne : i ≢ off_prev (pool.free_list bits)).
            link_free-outside pool.memory x bits (pool.free_list bits) i pos
              (elim apart [ inl p ↦ inl (omega arith) | inr p ↦ inr (omega arith) ]) (inr ne) in
        node n
          (keep (off_magic (pool.free_list bits)) (omega arith) (omega arith) (omega arith) ∙ a)
          (e5 n)
          (keep (off_bits (pool.free_list bits + 2 ^ bits)) (omega arith) (omega arith)
              (omega arith)
            ∙ c)
          d
          (rw (keep (off_next (pool.free_list bits)) (omega arith) (omega arith) (omega arith))
            (agree-Linked linked_memory pos rest (same_size l hs d (inr h))))

    -- A free block is as free as before.
    still_IsFree : (t o : ℕ) → IsFree pool own t o → IsFree linked_pool (claim x bits own) t o
    unfolding make_free
    still_IsFree t o free = record {
      inside = free.inside;
      aligned = free.aligned;
      clear = free.clear;
      owns = λ j lo hi.
          let out : (leb x j && ltb j (x + 2 ^ bits)) ≡ false = elim (idle-Apart t o free) [
            | inl l ↦ ground arith
            | inr r ↦ ground arith
          ] in
          rw out (free.owns j lo hi);
    }

    new_IsFree :
        x % 2 ^ bits ≡ 0
        → ((j : ℕ) → x ≤ j → j < x + 2 ^ bits → bit_test pool.bitmap j ≡ false)
        → IsFree linked_pool (claim x bits own) bits x
    unfolding make_free
    new_IsFree aligned clear = record {
      inside = fits;
      aligned = aligned;
      clear = clear;
      owns = λ j lo hi.
          let within : (leb x j && ltb j (x + 2 ^ bits)) ≡ true = ground arith in rw within refl;
    }

    -- The new list, and one of another size.
    pushed :
        (l : List ℕ)
        → pool.pool_blocks < 2 ^ 20
        → Linked pool.memory bits our_null (pool.free_list bits) l
        → All (IsFree pool own bits) l
        → Linked linked_memory bits our_null x (x ∷ l)
    pushed l small list free =
        let pos = pow_pos bits in
        let head = head-IsFree list free in
        let (e1, e2, e3, e4, e5) =
          link_free-header pool.memory x bits (pool.free_list bits) pos (elim head [
            | inl e ↦ inl e
            | inr h ↦ elim (idle-Apart bits (pool.free_list bits) h) [
              | inl p ↦ inr (inr p)
              | inr p ↦ inr (inl p)
            ]
          ]) in
        node (omega arith) e1 e2 e4
          (All-map l
            (λ o f e. elim (idle-Apart bits o f) [
              | inl p ↦ absurd (omega arith)
              | inr p ↦ absurd (omega arith)
            ])
            free)
          (rw e3 (relinked l list free))

    other_size :
        (t : ℕ) (l : List ℕ)
        → t ≢ bits
        → (pool.free_list bits ≡ our_null) ⊎ IsFree pool own bits (pool.free_list bits)
        → Linked pool.memory t our_null (pool.free_list t) l
        → All (IsFree pool own t) l
        → Linked linked_memory t our_null (pool.free_list t) l
    other_size t l differ head list free =
        agree-Linked linked_memory (pow_pos t) list
          (All-map l (λ o f. others-Agree t o (inr (inl differ)) head f) free)

    -- makeFree keeps the lists sound where the block is aligned, its bits are clear, and no free
    -- block shares anything with it.
    pub make_free-IsValid :
        (lists : ℕ → List ℕ)
        → bits < num_sizes
        → x % 2 ^ bits ≡ 0
        → ((j : ℕ) → x ≤ j → j < x + 2 ^ bits → bit_test pool.bitmap j ≡ false)
        → IsValid pool lists own
        → IsValid linked_pool (push x bits lists) (claim x bits own)
    unfolding make_free
    make_free-IsValid lists low aligned clear valid = record {
      small = valid.small;
      linked = λ t lt. elim (Bool-cases (t == bits)) [
        | inl same ↦
            let e : t ≡ bits = ground arith in
            rw (e, ==_refl bits)
              (pushed (lists bits) valid.small (valid.linked bits low) (valid.blocks bits low))
        | inr other ↦ rw other (
            other_size t (lists t) (λ e. ground arith)
              (head-IsFree (valid.linked bits low) (valid.blocks bits low)) (valid.linked t lt)
              (valid.blocks t lt))
      ];
      blocks = λ t lt. elim (Bool-cases (t == bits)) [
        | inl same ↦
            let e : t ≡ bits = ground arith in
            rw (e, ==_refl bits)
              (
                new_IsFree aligned clear,
                All-map (lists bits) (still_IsFree bits) (valid.blocks bits low),
              )
        | inr other ↦ rw other (All-map (lists t) (still_IsFree t) (valid.blocks t lt))
      ];
    }
