-- ===== src/Ring.antt =====
-- A ring of cells of a memory: the indices from `lo` up to `hi`, of which the last is followed by
-- the first. The FIFO is such a ring of dwords.
use docker_macos.Base.{
  ℕ, zero, suc, ◌+◌, ◌-◌, ◌≤◌, ◌<◌, ◌≡◌, refl, sym, ap, ap₂, ◌∙◌, ◌≢◌, List, [], ◌∷◌, ◌++◌, length,
  get_or, arith, ltb, ◌==◌, if◌then◌else◌,
}
use docker_macos.Base.Mem.{Mem, copy}

module _ (lo hi : ℕ) where
  abbrev pub next_index : ℕ → ℕ
  next_index p = if suc p == hi then lo else suc p

  -- The index `k` cells after `p`, for `k` up to the size of the ring.
  abbrev pub ahead : ℕ → ℕ → ℕ
  ahead p k = if ltb (p + k) hi then p + k else p + k - (hi - lo)

  -- The contents of `n` cells from `p` on.
  unfoldable pub window : Mem → ℕ → ℕ → List ℕ
  window f p zero = []
  window f p (suc n) = f p ∷ window f (next_index p) n

  abbrev pub InRing : ℕ → Type 0
  InRing p = (lo ≤ p) × (p < hi)

  pub next_index-InRing : (p : ℕ) → InRing p → InRing (next_index p)
  next_index-InRing p h = ground arith

  pub ahead-InRing : (p k : ℕ) → InRing p → k ≤ hi - lo → InRing (ahead p k)
  ahead-InRing p k h hk = ground arith

  pub ahead-zero : (p : ℕ) → InRing p → ahead p 0 ≡ p
  ahead-zero p h = ground arith

  pub ahead-next_index :
      (p k : ℕ) → InRing p → suc k ≤ hi - lo → ahead (next_index p) k ≡ ahead p (suc k)
  ahead-next_index p k h hk = ground arith

  -- Two cells at different distances from `p` differ.
  pub ahead_ne :
      (p n k j : ℕ) → InRing p → k < n → n + j < hi - lo → ahead p k ≢ ahead (ahead p n) j
  ahead_ne p n k j h hk hj = ground arith

  pub window-ext :
      (f g : Mem) (p n : ℕ)
      → InRing p
      → n ≤ hi - lo
      → ((k : ℕ) → k < n → f (ahead p k) ≡ g (ahead p k))
      → window f p n ≡ window g p n
  unfolding window
  window-ext f g p zero h hn e = refl
  window-ext f g p (suc n) h hn e =
      ap₂ ◌∷◌ (ap f (sym (ahead-zero p h)) ∙ e 0 (omega arith) ∙ ap g (ahead-zero p h)) (
        window-ext f g (next_index p) n (next_index-InRing p h) (omega arith) λ k hk.
          ap f (ahead-next_index p k h (omega arith))
          ∙ e (suc k) (omega arith)
          ∙ ap g (sym (ahead-next_index p k h (omega arith))))

  pub window_of_list :
      (f : Mem) (p : ℕ) (ws : List ℕ)
      → InRing p
      → length ws ≤ hi - lo
      → ((k : ℕ) → k < length ws → f (ahead p k) ≡ get_or ws k 0)
      → window f p (length ws) ≡ ws
  unfolding window
  window_of_list f p [] h hn e = refl
  window_of_list f p (w ∷ ws) h hn e = ap₂ ◌∷◌ (ap f (sym (ahead-zero p h)) ∙ e 0 (omega arith)) (
      window_of_list f (next_index p) ws (next_index-InRing p h) (omega arith)
        λ k hk. ap f (ahead-next_index p k h (omega arith)) ∙ e (suc k) (omega arith))

  pub window-append :
      (f : Mem) (p a b : ℕ)
      → InRing p
      → a ≤ hi - lo
      → window f p (a + b) ≡ window f p a ++ window f (ahead p a) b
  unfolding window
  window-append f p zero b h ha = ap₂ (window f) (sym (ahead-zero p h)) (omega arith)
  window-append f p (suc a) b h ha =
      let e : suc a + b ≡ suc (a + b) = omega arith in
      ap (window f p) e
      ∙ ap (◌∷◌ (f p)) (
          window-append f (next_index p) a b (next_index-InRing p h) (omega arith)
          ∙ ap (λ q. window f (next_index p) a ++ window f q b) (ahead-next_index p a h ha))

  -- `f'` is `f` with the `n` values of `g` written from `p` on, round the ring.
  pub record Wrote (f f' : Mem) (p n : ℕ) (g : ℕ → ℕ) : Type 0 where
    pub at : (j : ℕ) → j < n → f' (ahead p j) ≡ g j
    pub frame : (i : ℕ) → InRing i → ((j : ℕ) → j < n → i ≢ ahead p j) → f' i ≡ f i

  pub Wrote-ext :
      {f f' f2 : Mem} {p n : ℕ} {g : ℕ → ℕ}
      → InRing p
      → n ≤ hi - lo
      → Wrote f f' p n g
      → ((i : ℕ) → InRing i → f2 i ≡ f' i)
      → Wrote f f2 p n g
  Wrote-ext {p = p} h hn w e = record {
    at = λ j hj. e (ahead p j) (ahead-InRing p j h (omega arith)) ∙ w.at j hj;
    frame = λ i r away. e i r ∙ w.frame i r away;
  }

  pub Wrote-congr :
      (f f' : Mem) {p q n : ℕ} {g h : ℕ → ℕ}
      → p ≡ q
      → ((j : ℕ) → g j ≡ h j)
      → Wrote f f' p n g
      → Wrote f f' q n h
  Wrote-congr f f' {n = n} {g = g} e eg w =
      rw (← e) (record { at = λ j hj. w.at j hj ∙ eg j; frame = w.frame })

  -- A write of one cell, followed by a write of `n` from the next cell on.
  pub Wrote-suc :
      (f f1 f' : Mem) (p n : ℕ) (g : ℕ → ℕ)
      → InRing p
      → suc n ≤ hi - lo
      → f1 p ≡ g 0
      → ((i : ℕ) → InRing i → i ≢ p → f1 i ≡ f i)
      → Wrote f1 f' (next_index p) n (λ j. g (suc j))
      → Wrote f f' p (suc n) g
  Wrote-suc f f1 f' p n g h hn e0 e w = record {
    at = at_index;
    frame = λ i r away.
        w.frame i r
          (λ j hj q. away (suc j) (omega arith) (q ∙ ahead-next_index p j h (omega arith)))
        ∙ e i r (λ q. away 0 (omega arith) (q ∙ sym (ahead-zero p h)));
  }
    where
      at_index : (j : ℕ) → j < suc n → f' (ahead p j) ≡ g j
      at_index zero hj =
          ap f' (ahead-zero p h)
          ∙ w.frame p h (λ j k q. next_ne j k (q ∙ ahead-next_index p j h (omega arith)))
          ∙ e0
        where
          next_ne : (j : ℕ) → j < n → p ≢ ahead p (suc j)
          next_ne j k = ground arith
      at_index (suc j) hj =
          ap f' (sym (ahead-next_index p j h (omega arith))) ∙ w.at j (omega arith)

  -- Two copies, of what fits before the end and of the rest, go round the ring.
  abbrev pub chunk : ℕ → ℕ → ℕ
  chunk p n = if ltb n (hi - p) then n else hi - p

  pub copy-Wrote :
      (f g : Mem) (p n : ℕ)
      → InRing p
      → n < hi - lo
      → Wrote f (copy (copy f p g 0 (chunk p n)) lo g (chunk p n) (n - chunk p n)) p n g
  copy-Wrote f g p n h hn = record {
    at = λ j hj. ground arith;
    frame = λ i r away. ground (arith, away (i - p), away (i - lo + (hi - p)));
  }

  -- A list written just past a window extends it.
  pub window-Wrote :
      (f f' : Mem) (p n : ℕ) (ws : List ℕ)
      → InRing p
      → n + length ws < hi - lo
      → Wrote f f' (ahead p n) (length ws) (λ j. get_or ws j 0)
      → window f' p (n + length ws) ≡ window f p n ++ ws
  window-Wrote f f' p n ws h hn w =
      window-append f' p n (length ws) h (omega arith)
      ∙ ap₂ ◌++◌
          (window-ext f' f p n h (omega arith) λ k hk.
            w.frame (ahead p k) (ahead-InRing p k h (omega arith))
              λ j hj. ahead_ne p n k j h hk (omega arith))
          (window_of_list f' (ahead p n) ws (ahead-InRing p n h (omega arith)) (omega arith) w.at)
