-- ===== src/Accel/Chain/Fill.antt =====
-- Where the loop of createGMR writes descriptors and links.
use docker_macos.Base.{
  ℕ, ◌+◌, ◌-◌, ◌*◌, ◌<◌, ◌≡◌, ◌≢◌, refl, ap, ◌∙◌, inl, inr, true, false, ◌||◌, List, [], ◌∷◌, ltb,
  ◌==◌, if◌then◌else◌, arith, Bool-cases,
}
use docker_macos.Accel.Regions.{Segment}
use docker_macos.Accel.Chain.{Descriptor, Table, put_at, descriptor, fill_chain}

module _ (helper : ℕ → ℕ × ℕ) (n : ℕ) where
  -- The page's number and the length that a turn to the next page goes on with.
  abbrev pub next_ppn : (hp hl next : ℕ) → ℕ
  next_ppn hp hl next = if ltb 0 hl then hp else (helper next).0

  abbrev pub next_length : (hl next : ℕ) → ℕ
  next_length hl next = if ltb 0 hl then hl else (helper next).1

  pub fill_chain-stay :
      (s : Segment) (ss : List Segment) (hp hl next room ptr : ℕ) (t : Table)
      → (room - 1 == 0) ≡ false
      → fill_chain (s ∷ ss) helper n hp hl next room ptr t
        ≡ fill_chain ss helper n hp hl next (room - 1) (ptr + 1) (put_at t ptr (descriptor s))
  unfolding fill_chain
  fill_chain-stay s ss hp hl next room ptr t e = simp (e)

  pub fill_chain-turn :
      (s : Segment) (ss : List Segment) (hp hl next room ptr : ℕ) (t : Table)
      → (room - 1 == 0) ≡ true
      → (ltb 0 hl || ltb next n) ≡ true
      → fill_chain (s ∷ ss) helper n hp hl next room ptr t
        ≡ fill_chain ss helper n
            (next_ppn hp hl next + 1)
            (next_length hl next - 1)
            (next + 1)
            511
            (next * 512)
            (put_at (put_at t ptr (descriptor s)) (ptr + 1) (next_ppn hp hl next, 0))
  unfolding fill_chain
  fill_chain-turn s ss hp hl next room ptr t e f = rw (e, f)

  pub fill_chain-stop :
      (s : Segment) (ss : List Segment) (hp hl next room ptr : ℕ) (t : Table)
      → (room - 1 == 0) ≡ true
      → (ltb 0 hl || ltb next n) ≡ false
      → fill_chain (s ∷ ss) helper n hp hl next room ptr t ≡ put_at t ptr (descriptor s)
  unfolding fill_chain
  fill_chain-stop s ss hp hl next room ptr t e f = rw (e, f)

  pub put_at_ne : (t : Table) (p : ℕ) (d : Descriptor) (i : ℕ) → i ≢ p → put_at t p d i ≡ t i
  put_at_ne t p d i h = ground arith

  put_at_self : (t : Table) (p : ℕ) (d : Descriptor) → put_at t p d p ≡ d
  put_at_self t p d = ground arith

  -- Writes stand at `ptr` or beyond it.
  fill_chain-below :
      (ss : List Segment) (hp hl next room ptr : ℕ) (t : Table) (i : ℕ)
      → i < ptr
      → ptr + room < next * 512
      → fill_chain ss helper n hp hl next room ptr t i ≡ t i
  unfolding fill_chain
  fill_chain-below [] hp hl next room ptr t i h q = refl
  fill_chain-below (s ∷ ss) hp hl next room ptr t i h q = elim (Bool-cases (room - 1 == 0)) [
    | inr e ↦
        ap (λ u. u i) (fill_chain-stay s ss hp hl next room ptr t e)
        ∙ fill_chain-below ss hp hl next (room - 1) (ptr + 1) (put_at t ptr (descriptor s)) i
            (omega arith) (ground arith)
        ∙ put_at_ne t ptr (descriptor s) i (omega arith)
    | inl e ↦ elim (Bool-cases (ltb 0 hl || ltb next n)) [
      | inl f ↦
          ap (λ u. u i) (fill_chain-turn s ss hp hl next room ptr t e f)
          ∙ fill_chain-below ss (next_ppn hp hl next + 1) (next_length hl next - 1) (next + 1) 511
              (next * 512) (put_at (put_at t ptr (descriptor s)) (ptr + 1) (next_ppn hp hl next, 0))
              i (omega arith) (omega arith)
          ∙ put_at_ne (put_at t ptr (descriptor s)) (ptr + 1) (next_ppn hp hl next, 0) i
              (omega arith)
          ∙ put_at_ne t ptr (descriptor s) i (omega arith)
      | inr f ↦
          ap (λ u. u i) (fill_chain-stop s ss hp hl next room ptr t e f)
          ∙ put_at_ne t ptr (descriptor s) i (omega arith)
    ]
  ]

  pub fill_chain-here :
      (s : Segment) (ss : List Segment) (hp hl next room ptr : ℕ) (t : Table)
      → 0 < room
      → ptr + room < next * 512
      → fill_chain (s ∷ ss) helper n hp hl next room ptr t ptr ≡ descriptor s
  fill_chain-here s ss hp hl next room ptr t pos q = elim (Bool-cases (room - 1 == 0)) [
    | inr e ↦
        ap (λ u. u ptr) (fill_chain-stay s ss hp hl next room ptr t e)
        ∙ fill_chain-below ss hp hl next (room - 1) (ptr + 1) (put_at t ptr (descriptor s)) ptr
            (omega arith) (omega arith)
        ∙ put_at_self t ptr (descriptor s)
    | inl e ↦ elim (Bool-cases (ltb 0 hl || ltb next n)) [
      | inl f ↦
          ap (λ u. u ptr) (fill_chain-turn s ss hp hl next room ptr t e f)
          ∙ fill_chain-below ss (next_ppn hp hl next + 1) (next_length hl next - 1) (next + 1) 511
              (next * 512) (put_at (put_at t ptr (descriptor s)) (ptr + 1) (next_ppn hp hl next, 0))
              ptr (omega arith) (omega arith)
          ∙ put_at_ne (put_at t ptr (descriptor s)) (ptr + 1) (next_ppn hp hl next, 0) ptr
              (omega arith)
          ∙ put_at_self t ptr (descriptor s)
      | inr f ↦
          ap (λ u. u ptr) (fill_chain-stop s ss hp hl next room ptr t e f)
          ∙ put_at_self t ptr (descriptor s)
    ]
  ]

  pub fill_chain-link :
      (s : Segment) (ss : List Segment) (hp hl next room ptr : ℕ) (t : Table)
      → (room - 1 == 0) ≡ true
      → (ltb 0 hl || ltb next n) ≡ true
      → ptr + 1 < next * 512
      → fill_chain (s ∷ ss) helper n hp hl next room ptr t (ptr + 1) ≡ (next_ppn hp hl next, 0)
  fill_chain-link s ss hp hl next room ptr t e f q =
      ap (λ u. u (ptr + 1)) (fill_chain-turn s ss hp hl next room ptr t e f)
      ∙ fill_chain-below ss (next_ppn hp hl next + 1) (next_length hl next - 1) (next + 1) 511
          (next * 512) (put_at (put_at t ptr (descriptor s)) (ptr + 1) (next_ppn hp hl next, 0))
          (ptr + 1) (omega arith) (omega arith)
      ∙ put_at_self (put_at t ptr (descriptor s)) (ptr + 1) (next_ppn hp hl next, 0)
