-- ===== src/Svga/Fifo/Commit/Copies.antt =====
-- FIFOCommit where the command is in place, and where it is moved in two copies.
use docker_macos.Base.{
  ℕ, ◌+◌, ◌-◌, ◌*◌, ◌/◌, ◌%◌, ◌≤◌, ◌<◌, ◌≡◌, Bool, true, false, List, arith, ltb, leb,
  if◌then◌else◌, length, get_or,
}
use docker_macos.Base.Word.{add32, sub32}
use docker_macos.Base.Mem.{Mem, update, copy, store, store_at, store_below, store_above}
use docker_macos.Ring.{ahead, ahead-InRing, chunk, copy-Wrote}
use docker_macos.Svga.{Device}
use docker_macos.Svga.Fifo.{advance_next, commit_copies, commit_body}
use docker_macos.Svga.Fifo.Inv.{IsFifo, IsValid, held, first, last, next-InRing}
use docker_macos.Svga.Fifo.Commit.Written.{Committed}

-- The sizes of the two copies, in dwords.
chunk_dwords :
    (max min next_cmd n : ℕ)
    → next_cmd % 4 ≡ 0
    → max % 4 ≡ 0
    → next_cmd < max
    → max < 0x8000_0000
    → let c = if ltb (4 * n) (sub32 max next_cmd) then 4 * n else sub32 max next_cmd in
      (c / 4 ≡ chunk (min / 4) (max / 4) (next_cmd / 4) n)
      × ((4 * n - c) / 4 ≡ n - chunk (min / 4) (max / 4) (next_cmd / 4) n)
chunk_dwords max min next_cmd n a b h k = (ground arith, ground arith)

next_dwords :
    (max min next_cmd stop n : ℕ)
    → IsFifo max min next_cmd stop
    → n < max / 4 - min / 4
    → (if leb max (add32 next_cmd (4 * n))
        then sub32 (add32 next_cmd (4 * n)) (sub32 max min)
        else add32 next_cmd (4 * n))
      ≡ 4 * ahead (min / 4) (max / 4) (next_cmd / 4) n
next_dwords max min next_cmd stop n v h = ground arith

-- The FIFO after the two copies, the move of NEXT_CMD to `x` and the reset of RESERVED.
abbrev copied : Mem → (ℕ → ℕ) → (bytes x c k : ℕ) → Mem
copied m g bytes x c k =
    update (update (copy (copy (update m 14 bytes) (m 2 / 4) g 0 c) (m 0 / 4) g c k) 2 x) 14 0

copied-Committed :
    (m : Mem) (ws : List ℕ) (g : ℕ → ℕ) (bytes x c k : ℕ)
    → IsValid m
    → length ws < last m - first m
    → c ≡ chunk (first m) (last m) (m 2 / 4) (length ws)
    → k ≡ length ws - chunk (first m) (last m) (m 2 / 4) (length ws)
    → x ≡ 4 * ahead (first m) (last m) (m 2 / 4) (length ws)
    → ((j : ℕ) → j < length ws → g j ≡ get_or ws j 0)
    → Committed m (copied m g bytes x c k) ws
copied-Committed m ws g bytes x c k v h ec ek ex buf =
    let w =
      copy-Wrote (first m) (last m) (update m 14 bytes) g (m 2 / 4) (length ws) (next-InRing m v)
        h in
    rw (ec, ek)
      (record {
        min = ground arith;
        max = ground arith;
        stop = ground arith;
        next = ex;
        wrote = record {
          at = λ j hj. ground (
            arith,
            ahead-InRing (first m) (last m) (m 2 / 4) j (next-InRing m v),
            w.at j hj,
            buf j hj,
          );
          frame = λ i r away. ground (arith, w.frame i r away);
        };
      })

module _ {H : Type 0} where
  -- The device that FIFOCommit finds after a store in place.
  pub commit_in_place :
      (b : Bool) (m : Mem) (ws : List ℕ) (d : Device H)
      → IsValid m
      → held m + length ws < last m - first m
      → m 2 + 4 * length ws ≤ m 1
      → d.fifo ≡ store m (m 2 / 4) ws
      → Committed m (commit_body false b (4 * length ws) d).fifo ws
  unfolding commit_body advance_next
  commit_in_place b m ws d v h fit e =
      let s0 : store m (m 2 / 4) ws 0 ≡ m 0 = store_below m (m 2 / 4) ws 0 (omega arith) in
      let s1 : store m (m 2 / 4) ws 1 ≡ m 1 = store_below m (m 2 / 4) ws 1 (omega arith) in
      let s2 : store m (m 2 / 4) ws 2 ≡ m 2 = store_below m (m 2 / 4) ws 2 (omega arith) in
      let s3 : store m (m 2 / 4) ws 3 ≡ m 3 = store_below m (m 2 / 4) ws 3 (omega arith) in
      rw e (record {
        min = ground arith;
        max = ground arith;
        stop = ground arith;
        next = ground arith;
        wrote = record {
          at = λ j hj. ground (arith, store_at m (m 2 / 4) ws j);
          frame = λ i r away. ground (
            arith,
            store_below m (m 2 / 4) ws i,
            store_above m (m 2 / 4) ws i,
            away (i - m 2 / 4),
          );
        };
      })

  -- The bounce buffer holds the values of `g`, and the device has SVGA_FIFO_CAP_RESERVE.
  pub commit_by_copies :
      (m : Mem) (ws : List ℕ) (d : Device H)
      → IsValid m
      → held m + length ws < last m - first m
      → d.fifo ≡ m
      → ((j : ℕ) → j < length ws → d.bounce_buffer j ≡ get_or ws j 0)
      → Committed m (commit_body true true (4 * length ws) d).fifo ws
  unfolding commit_body advance_next commit_copies
  commit_by_copies m ws d v h e buf =
      let c =
        chunk_dwords (m 1) (m 0) (m 2) (length ws) v.next_aligned v.max_aligned v.next_max
          v.small in
      rw e (
        copied-Committed m ws d.bounce_buffer (4 * length ws) _ _ _ v (omega arith) c.0 c.1
          (next_dwords (m 1) (m 0) (m 2) (m 3) (length ws) v (omega arith)) buf)
