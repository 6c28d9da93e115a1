-- ===== src/Svga/Fifo/Keep.antt =====
-- FIFOCommit neither reads nor writes the pointer to the cursor's image.
use docker_macos.Base.{
  ℕ, zero, suc, ◌+◌, ◌/◌, ◌%◌, ◌≡◌, refl, inl, inr, Bool, true, false, Option, ◌==◌, Bool-cases,
}
use docker_macos.Svga.{Device, Pointer, set_fifo, has_fifo_cap}
use docker_macos.Svga.Regs.{fifo_next_cmd, fifo_max, fifo_min, fifo_cap_reserve}
use docker_macos.Svga.Fifo.{commit_dwords, commit_copies, advance_next, commit_body, fifo_commit}

module _ {H : Type 0} (c : Option Pointer) where
  abbrev pub with_cursor : Device H → Device H
  with_cursor d = record d { cursor_ptr = c }

  dwords-with_cursor :
      (n k max min next_cmd : ℕ) (d : Device H)
      → commit_dwords n k max min next_cmd (with_cursor d)
        ≡ with_cursor (commit_dwords n k max min next_cmd d)
  unfolding commit_dwords
  dwords-with_cursor zero k max min next_cmd d = refl
  dwords-with_cursor (suc n) k max min next_cmd d =
      dwords-with_cursor n (k + 1) max min _
        (set_fifo (set_fifo d (next_cmd / 4) (d.bounce_buffer k)) fifo_next_cmd _)

  body-with_cursor :
      (bouncing reservable : Bool) (bytes : ℕ) (d : Device H)
      → commit_body bouncing reservable bytes (with_cursor d)
        ≡ with_cursor (commit_body bouncing reservable bytes d)
  unfolding commit_body commit_copies advance_next
  body-with_cursor true true bytes d = refl
  body-with_cursor true false bytes d =
      dwords-with_cursor (bytes / 4) 0 (d.fifo fifo_max) (d.fifo fifo_min) (d.fifo fifo_next_cmd) d
  body-with_cursor false true bytes d = refl
  body-with_cursor false false bytes d = refl

  pub commit-with_cursor :
      (bytes : ℕ) (d : Device H)
      → fifo_commit bytes (with_cursor d) ≡ with_cursor (fifo_commit bytes d)
  unfolding fifo_commit has_fifo_cap
  commit-with_cursor bytes d = elim (Bool-cases (bytes % 4 == 0)) [
    | inr odd ↦ rw odd refl
    | inl even ↦ elim (Bool-cases (d.reserved_size == 0)) [
      | inl idle ↦ rw (even, idle) refl
      | inr busy ↦
          rw (even, busy)
            (body-with_cursor d.using_bounce_buffer (has_fifo_cap d fifo_cap_reserve) bytes
              (record d { reserved_size = 0 }))
    ]
  ]
