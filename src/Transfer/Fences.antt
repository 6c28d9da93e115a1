-- ===== src/Transfer/Fences.antt =====
-- FenceTracker is a queue of the last fences.
use docker_macos.Base.{
  ℕ, zero, suc, ◌+◌, ◌<◌, ◌≡◌, ◌≢◌, refl, sym, ap, ap₂, ◌∙◌, List, [], ◌∷◌, ◌++◌, arith,
}
use docker_macos.Base.Mem.{Mem, update}
use docker_macos.Ring.{
  next_index, ahead, window, InRing, next_index-InRing, ahead-next_index, window-ext, window-append,
}
use docker_macos.Transfer.{Tracker, before, after}

-- The fences of a tracker, the oldest first.
abbrev pub tracked : (n : ℕ) → Tracker → List ℕ
tracked n t = window 0 n t.fences t.counter n

-- The window from the next cell on, when the oldest cell is overwritten.
overwritten :
    (n fence c : ℕ) (m : Mem)
    → c < suc n
    → window 0 (suc n) (update m c fence) (next_index 0 (suc n) c) (suc n)
      ≡ window 0 (suc n) m (next_index 0 (suc n) c) n ++ (fence ∷ [])
overwritten n fence c m h =
    let r : InRing 0 (suc n) c = (omega arith, h) in
    let r' : InRing 0 (suc n) (next_index 0 (suc n) c) = next_index-InRing 0 (suc n) c r in
    let one : suc n ≡ n + 1 = omega arith in
    let back : ahead 0 (suc n) (next_index 0 (suc n) c) n ≡ c =
      ahead-next_index 0 (suc n) c n r (omega arith) ∙ ground arith in
    ap (window 0 (suc n) (update m c fence) (next_index 0 (suc n) c)) one
    ∙ window-append 0 (suc n) (update m c fence) (next_index 0 (suc n) c) n 1 r' (omega arith)
    ∙ ap₂ ◌++◌
        (window-ext 0 (suc n) (update m c fence) m (next_index 0 (suc n) c) n r' (omega arith)
          (λ k less.
            let other : ahead 0 (suc n) (next_index 0 (suc n) c) k ≢ c = (λ e.
              let q = sym (ahead-next_index 0 (suc n) c k r (omega arith)) ∙ e in ground arith) in
            ground arith))
        (unfold window in (ap (λ v. v ∷ []) (ap (update m c fence) back ∙ ground arith)))

-- With an array that is not empty and an index within it, `before` gives the oldest fence, and
-- `after` puts a new one behind the others in its place; the index stays within the array.
pub tracker_lem :
    (n fence : ℕ) (t : Tracker)
    → t.counter < n
    → (older : List ℕ) × (tracked n t ≡ before t ∷ older)
      × (tracked n (after n fence t) ≡ older ++ (fence ∷ []))
      × ((after n fence t).counter < n)
unfolding before after
tracker_lem zero fence t h = absurd (omega arith)
tracker_lem (suc n) fence t h = (
  window 0 (suc n) t.fences (next_index 0 (suc n) t.counter) n,
  unfold window in refl,
  same ∙ overwritten n fence t.counter t.fences h,
  ground arith,
)
  where
    same :
        tracked (suc n) (after (suc n) fence t)
        ≡ window 0
            (suc n)
            (update t.fences t.counter fence)
            (next_index 0 (suc n) t.counter)
            (suc n)
    same = ap (λ c. window 0 (suc n) (update t.fences t.counter fence) c (suc n)) (ground arith)
