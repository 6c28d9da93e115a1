-- ===== src/Svga/Fifo/Inv.antt =====
-- When the FIFO of an SVGADevice is well formed, and the commands that it holds.
use docker_macos.Base.{
  ℕ, ◌+◌, ◌-◌, ◌*◌, ◌/◌, ◌%◌, ◌≤◌, ◌<◌, ◌≡◌, refl, sym, ap, ◌∙◌, ◌++◌, List, leb, if◌then◌else◌,
  arith,
}
use docker_macos.Base.Mem.{Mem, update}
use docker_macos.Ring.{window, ahead, InRing, ahead-InRing, window-append, window-ext}

-- The four pointers are multiples of four below 2 ^ 31, so
-- that no sum of FIFOCommit wraps; the ring leaves room for the registers up to
-- SVGA_FIFO_RESERVED below it, and both positions lie in it.
pub record IsFifo (max min next_cmd stop : ℕ) : Type 0 where
  pub min_aligned : min % 4 ≡ 0
  pub max_aligned : max % 4 ≡ 0
  pub next_aligned : next_cmd % 4 ≡ 0
  pub stop_aligned : stop % 4 ≡ 0
  pub registers : 60 ≤ min
  pub small : max < 0x8000_0000
  pub next_min : min ≤ next_cmd
  pub next_max : next_cmd < max
  pub stop_min : min ≤ stop
  pub stop_max : stop < max

-- The dwords from STOP up to NEXT_CMD, which the device has not read.
abbrev pub pending : (max min next_cmd stop : ℕ) → ℕ
pending max min next_cmd stop =
    if leb stop next_cmd
    then next_cmd / 4 - stop / 4
    else max / 4 - min / 4 - (stop / 4 - next_cmd / 4)

-- NEXT_CMD lies `pending` dwords after STOP, and the ring is not full.
pub ahead-pending :
    (max min next_cmd stop : ℕ)
    → IsFifo max min next_cmd stop
    → (ahead (min / 4) (max / 4) (stop / 4) (pending max min next_cmd stop) ≡ next_cmd / 4)
      × (pending max min next_cmd stop < max / 4 - min / 4)
ahead-pending max min next_cmd stop v = (ground arith, ground arith)

abbrev pub IsValid : Mem → Type 0
IsValid m = IsFifo (m 1) (m 0) (m 2) (m 3)

abbrev pub held : Mem → ℕ
held m = pending (m 1) (m 0) (m 2) (m 3)

-- The dwords of the ring, by their indices.
abbrev pub first : Mem → ℕ
first m = m 0 / 4

abbrev pub last : Mem → ℕ
last m = m 1 / 4

-- The commands in the FIFO that the device has not read, oldest first.
unfoldable pub queue : Mem → List ℕ
queue m = window (first m) (last m) m (m 3 / 4) (held m)

-- Two memories with the same ring.
pub record SameRing (m m' : Mem) : Type 0 where
  pub min : m' 0 ≡ m 0
  pub max : m' 1 ≡ m 1
  pub next : m' 2 ≡ m 2
  pub cells : (i : ℕ) → InRing (first m) (last m) i → m' i ≡ m i

-- The device has read `n` dwords, and nothing else of the ring has changed.
pub record Taken (m m' : Mem) (n : ℕ) : Type 0 where
  pub same : SameRing m m'
  pub count : n ≤ held m
  pub stop : m' 3 ≡ 4 * ahead (first m) (last m) (m 3 / 4) n

-- Reading moves STOP within the ring, by as many dwords as are no longer pending.
pub pending_taken :
    (max min next_cmd stop n : ℕ)
    → IsFifo max min next_cmd stop
    → n ≤ pending max min next_cmd stop
    → IsFifo max min next_cmd (4 * ahead (min / 4) (max / 4) (stop / 4) n)
      × (pending max min next_cmd (4 * ahead (min / 4) (max / 4) (stop / 4) n)
          ≡ pending max min next_cmd stop - n)
pending_taken max min next_cmd stop n v h = (ground arith, ground arith)

pub Taken-IsValid : {m m' : Mem} {n : ℕ} → IsValid m → Taken m m' n → IsValid m'
Taken-IsValid {m} {m'} {n} v t =
    rw (t.same.min, t.same.max, t.same.next, t.stop)
      (pending_taken (m 1) (m 0) (m 2) (m 3) n v t.count).0

pub held-Taken : {m m' : Mem} {n : ℕ} → IsValid m → Taken m m' n → held m' ≡ held m - n
held-Taken {m} {m'} {n} v t =
    rw (t.same.min, t.same.max, t.same.next, t.stop)
      (pending_taken (m 1) (m 0) (m 2) (m 3) n v t.count).1

pub stop-InRing : (m : Mem) → IsValid m → InRing (first m) (last m) (m 3 / 4)
stop-InRing m v = ground arith

pub next-InRing : (m : Mem) → IsValid m → InRing (first m) (last m) (m 2 / 4)
next-InRing m v = ground arith

-- What was pending is what the device has read, followed by what it has not.
pub queue-Taken :
    {m m' : Mem} {n : ℕ}
    → IsValid m
    → Taken m m' n
    → queue m ≡ window (first m) (last m) m (m 3 / 4) n ++ queue m'
unfolding queue
queue-Taken {m} {m'} {n} v t =
    let size : held m ≡ n + (held m - n) = omega (arith, t.count) in
    let here : ahead (first m) (last m) (m 3 / 4) n ≡ m' 3 / 4 = omega (arith, t.stop) in
    let start : InRing (first m) (last m) (m 3 / 4) = stop-InRing m v in
    let small : held m < last m - first m = (ahead-pending (m 1) (m 0) (m 2) (m 3) v).1 in
    ap (window (first m) (last m) m (m 3 / 4)) size
    ∙ window-append (first m) (last m) m (m 3 / 4) n (held m - n) start (omega arith)
    ∙ ap (λ ws. window (first m) (last m) m (m 3 / 4) n ++ ws)
        (window-ext (first m) (last m) m m' (ahead (first m) (last m) (m 3 / 4) n) (held m - n)
            (ahead-InRing (first m) (last m) (m 3 / 4) n start (omega arith)) (omega arith)
            (λ k hk. sym (
              t.same.cells _ (
                ahead-InRing (first m) (last m) _ k
                  (ahead-InRing (first m) (last m) (m 3 / 4) n start (omega arith)) (omega arith))))
          ∙ rw (here, sym (held-Taken v t), t.same.min, t.same.max) refl)

pub Taken-refl : {m m' : Mem} → IsValid m → SameRing m m' → m' 3 ≡ m 3 → Taken m m' 0
Taken-refl v same e = record { same = same; count = omega arith; stop = ground arith }

-- Between two memories with the same ring and the same STOP nothing is lost.
pub queue-SameRing : {m m' : Mem} → IsValid m → SameRing m m' → m' 3 ≡ m 3 → queue m ≡ queue m'
unfolding queue window
queue-SameRing v same e = queue-Taken v (Taken-refl v same e)

-- A store below the ring and beside the four positions.
pub SameRing-update : (m : Mem) (i x : ℕ) → IsValid m → 4 ≤ i → i < 15 → SameRing m (update m i x)
SameRing-update m i x v h k = record {
  min = ground arith;
  max = ground arith;
  next = ground arith;
  cells = λ j r. ground arith;
}
