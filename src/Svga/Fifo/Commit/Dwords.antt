-- ===== src/Svga/Fifo/Commit/Dwords.antt =====
-- FIFOCommit where the command is copied dword by dword.
use docker_macos.Base.{
  ℕ, zero, suc, ◌+◌, ◌-◌, ◌*◌, ◌/◌, ◌<◌, ◌≡◌, refl, ap, ◌∙◌, true, false, List, arith, ◌==◌,
  if◌then◌else◌, length, get_or,
}
use docker_macos.Base.Word.{add32}
use docker_macos.Base.Mem.{Mem}
use docker_macos.Ring.{ahead, InRing, Wrote, next_index, ahead-next_index, Wrote-suc, Wrote-congr}
use docker_macos.Svga.{Device, set_fifo}
use docker_macos.Svga.Fifo.{commit_dwords, commit_body}
use docker_macos.Svga.Fifo.Inv.{IsFifo, IsValid, held, first, last}
use docker_macos.Svga.Fifo.Commit.Written.{Committed}

-- The bounce buffer is copied dword by dword, and NEXT_CMD follows.
record Copied (lo hi p : ℕ) (m m' : Mem) (n : ℕ) (g : ℕ → ℕ) : Type 0 where
  min : m' 0 ≡ m 0
  max : m' 1 ≡ m 1
  stop : m' 3 ≡ m 3
  next : m' 2 ≡ 4 * ahead lo hi p n
  wrote : Wrote lo hi m m' p n g

-- One round of that copy.
next_position :
    (max min next_cmd : ℕ)
    → IsFifo max min next_cmd min
    → let next = if add32 next_cmd 4 == max then min else add32 next_cmd 4 in
      IsFifo max min next min × (next / 4 ≡ next_index (min / 4) (max / 4) (next_cmd / 4))
next_position max min next_cmd v = (ground arith, ground arith)

module _ {H : Type 0} where
  commit_dwords-Copied :
      (n k max min next_cmd : ℕ) (d : Device H)
      → IsFifo max min next_cmd min
      → n < max / 4 - min / 4
      → d.fifo 2 ≡ next_cmd
      → Copied
          (min / 4)
          (max / 4)
          (next_cmd / 4)
          d.fifo
          (commit_dwords n k max min next_cmd d).fifo
          n
          (λ j. d.bounce_buffer (k + j))
  unfolding commit_dwords
  commit_dwords-Copied zero k max min next_cmd d v h e = record {
    min = refl;
    max = refl;
    stop = refl;
    next = ground arith;
    wrote = record { at = λ j hj. absurd (omega arith); frame = λ i r away. refl };
  }
  commit_dwords-Copied (suc n) k max min next_cmd d v h e =
      let lo = min / 4 in
      let hi = max / 4 in
      let next = if add32 next_cmd 4 == max then min else add32 next_cmd 4 in
      let d1 = set_fifo (set_fifo d (next_cmd / 4) (d.bounce_buffer k)) 2 next in
      let np = next_position max min next_cmd v in
      let r = commit_dwords-Copied n (k + 1) max min next d1 np.0 (omega arith) refl in
      let rin : InRing lo hi (next_cmd / 4) = ground arith in
      record {
        min = r.min ∙ ground arith;
        max = r.max ∙ ground arith;
        stop = r.stop ∙ ground arith;
        next =
            r.next
            ∙ ap (λ t. 4 * t)
                (ap (λ p. ahead lo hi p n) np.1
                  ∙ ahead-next_index lo hi (next_cmd / 4) n rin (omega arith));
        wrote =
            Wrote-suc lo hi d.fifo d1.fifo _ (next_cmd / 4) n (λ j. d.bounce_buffer (k + j)) rin
              (omega arith) (ground arith) (λ i ri ne. ground arith)
              (Wrote-congr lo hi d1.fifo _ np.1 (λ j. ap d.bounce_buffer (omega arith)) r.wrote);
      }

  pub commit_by_dwords :
      (m : Mem) (ws : List ℕ) (d : Device H)
      → IsValid m
      → held m + length ws < last m - first m
      → d.fifo ≡ m
      → ((j : ℕ) → j < length ws → d.bounce_buffer j ≡ get_or ws j 0)
      → Committed m (commit_body true false (4 * length ws) d).fifo ws
  unfolding commit_body
  commit_by_dwords m ws d v h e buf =
      let n : 4 * length ws / 4 ≡ length ws = omega arith in
      let start : IsFifo (d.fifo 1) (d.fifo 0) (d.fifo 2) (d.fifo 0) = rw e (ground arith) in
      let c =
        commit_dwords-Copied (length ws) 0 (d.fifo 1) (d.fifo 0) (d.fifo 2) d start
          (rw e (omega arith)) refl in
      rw (n, ← e)
        (record {
          min = c.min;
          max = c.max;
          stop = c.stop;
          next = c.next;
          wrote = record {
            at = λ j hj. c.wrote.at j hj ∙ ap d.bounce_buffer (omega arith) ∙ buf j hj;
            frame = c.wrote.frame;
          };
        })
