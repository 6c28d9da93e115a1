-- ===== src/Svga/Fifo/Commit/Written.antt =====
-- What FIFOCommit leaves in the queue of commands.
use docker_macos.Base.{ℕ, ◌+◌, ◌-◌, ◌*◌, ◌/◌, ◌<◌, ◌≡◌, List, ◌++◌, arith, length, get_or}
use docker_macos.Base.Mem.{Mem}
use docker_macos.Ring.{ahead, Wrote, window-Wrote}
use docker_macos.Svga.Fifo.Inv.{
  IsFifo, IsValid, pending, held, first, last, queue, ahead-pending, stop-InRing,
}

-- `m'` is `m` with `ws` written from NEXT_CMD on, and NEXT_CMD moved past it.
pub record Committed (m m' : Mem) (ws : List ℕ) : Type 0 where
  pub min : m' 0 ≡ m 0
  pub max : m' 1 ≡ m 1
  pub stop : m' 3 ≡ m 3
  pub next : m' 2 ≡ 4 * ahead (first m) (last m) (m 2 / 4) (length ws)
  pub wrote : Wrote (first m) (last m) m m' (m 2 / 4) (length ws) (λ j. get_or ws j 0)

pending_sent :
    (max min next_cmd stop n : ℕ)
    → IsFifo max min next_cmd stop
    → pending max min next_cmd stop + n < max / 4 - min / 4
    → IsFifo max min (4 * ahead (min / 4) (max / 4) (next_cmd / 4) n) stop
      × (pending max min (4 * ahead (min / 4) (max / 4) (next_cmd / 4) n) stop
          ≡ pending max min next_cmd stop + n)
pending_sent max min next_cmd stop n v h = (ground arith, ground arith)

-- The device then finds what it would have found, followed by the new command.
pub queue-Committed :
    {m m' : Mem} {ws : List ℕ}
    → IsValid m
    → held m + length ws < last m - first m
    → Committed m m' ws
    → IsValid m' × (queue m' ≡ queue m ++ ws)
unfolding queue
queue-Committed {m} {m'} {ws} v h c =
    let sent = pending_sent (m 1) (m 0) (m 2) (m 3) (length ws) v h in
    let here : ahead (first m) (last m) (m 3 / 4) (held m) ≡ m 2 / 4 =
      (ahead-pending (m 1) (m 0) (m 2) (m 3) v).0 in
    (
      rw (c.min, c.max, c.stop, c.next) sent.0,
      rw (c.min, c.max, c.stop, c.next, sent.1)
          (window-Wrote (first m) (last m) m m' (m 3 / 4) (held m) ws (stop-InRing m v) h
            (rw here c.wrote)),
    )
