-- ===== src/Base/Mem.antt =====
-- Memory as a function from indices to values, with the writes that the code makes.
use Prim.Native.Nat.{ℕ, zero, suc, ◌+◌, ◌-◌, ◌≤◌, ◌<◌}
use mathlib.Core.Path.{◌≡◌, refl, ap, ◌∙◌}
use mathlib.Core.Bool.{◌&&◌}
use mathlib.Core.List.{List, [], ◌∷◌, ◌++◌}
use native.Mathlib.Omega.{arith}
use docker_macos.Base.Tests.{ltb, leb, ◌==◌, if◌then◌else◌}
use docker_macos.Base.Lists.{length, get_or}

abbrev pub Mem : Type 0
Mem = ℕ → ℕ

abbrev pub update : Mem → ℕ → ℕ → Mem
update f p v i = if i == p then v else f i

-- `memcpy`: `n` cells from index `q` of `g` to index `p` of `f`.
abbrev pub copy : Mem → ℕ → Mem → ℕ → ℕ → Mem
copy f p g q n i = if leb p i && ltb i (p + n) then g (q + (i - p)) else f i

-- Consecutive assignments through a pointer that is incremented.
unfoldable pub store : Mem → ℕ → List ℕ → Mem
store f p [] = f
store f p (w ∷ ws) = store (update f p w) (p + 1) ws

pub store_below : (f : Mem) (p : ℕ) (ws : List ℕ) (i : ℕ) → i < p → store f p ws i ≡ f i
unfolding store
store_below f p [] i h = refl
store_below f p (w ∷ ws) i h = store_below (update f p w) (p + 1) ws i (omega arith) ∙ ground arith

pub store_above : (f : Mem) (p : ℕ) (ws : List ℕ) (i : ℕ) → p + length ws ≤ i → store f p ws i ≡ f i
unfolding store
store_above f p [] i h = refl
store_above f p (w ∷ ws) i h = store_above (update f p w) (p + 1) ws i (omega arith) ∙ ground arith

pub store_at :
    (f : Mem) (p : ℕ) (ws : List ℕ) (k : ℕ) → k < length ws → store f p ws (p + k) ≡ get_or ws k 0
unfolding store
store_at f p [] k h = absurd (omega arith)
store_at f p (w ∷ ws) zero h =
    store_below (update f p w) (p + 1) ws (p + 0) (omega arith) ∙ ground arith
store_at f p (w ∷ ws) (suc k) h =
    ap (store (update f p w) (p + 1) ws) (omega arith)
    ∙ store_at (update f p w) (p + 1) ws k (omega arith)

pub store-append :
    (f : Mem) (p : ℕ) (ws vs : List ℕ)
    → store f p (ws ++ vs) ≡ store (store f p ws) (p + length ws) vs
unfolding store
store-append f p [] vs = ap (λ k. store f k vs) (omega arith)
store-append f p (w ∷ ws) vs =
    store-append (update f p w) (p + 1) ws vs
    ∙ ap (λ k. store (store (update f p w) (p + 1) ws) k vs) (omega arith)
