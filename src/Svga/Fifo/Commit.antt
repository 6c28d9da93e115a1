-- ===== src/Svga/Fifo/Commit.antt =====
-- FIFOCommit: what was written at the pointer that FIFOReserve returned is appended to the queue of
-- commands, in each of its three ways to write.
mod Written
mod Copies
mod Dwords
use docker_macos.Base.{
  ℕ, zero, suc, ◌+◌, ◌-◌, ◌*◌, ◌/◌, ◌%◌, ◌≤◌, ◌<◌, ◌≡◌, refl, ap, ◌∙◌, ◌≢◌, inl, inr, Bool, true,
  false, List, ◌++◌, arith, ltb, leb, ◌==◌, if◌then◌else◌, length, get_or,
}
use docker_macos.Base.Word.{add32, sub32}
use docker_macos.Base.Mem.{Mem, update, copy, store, store_at, store_below, store_above}
use docker_macos.Ring.{
  ahead, ahead-InRing, InRing, Wrote, window-Wrote, chunk, copy-Wrote, next_index, ahead-next_index,
  Wrote-suc, Wrote-congr,
}
use docker_macos.Svga.{Device, Pointer, has_fifo_cap, set_fifo}
use docker_macos.Svga.Fifo.{
  put, advance_next, commit_dwords, commit_copies, commit_body, fifo_commit, fifo_commit_all,
}
use docker_macos.Svga.Fifo.Inv.{
  IsFifo, IsValid, pending, held, first, last, queue, ahead-pending, stop-InRing, next-InRing,
}
use docker_macos.Svga.Fifo.Reserve.{Ready}
use docker_macos.Svga.Fifo.Commit.Written.{Committed, queue-Committed}
use docker_macos.Svga.Fifo.Commit.Copies.{commit_in_place, commit_by_copies}
use docker_macos.Svga.Fifo.Commit.Dwords.{commit_by_dwords}

module _ {H : Type 0} where
  commit_dwords-reserved_size :
      (n k max min next_cmd : ℕ) (d : Device H)
      → (commit_dwords n k max min next_cmd d).reserved_size ≡ d.reserved_size
  unfolding commit_dwords
  commit_dwords-reserved_size zero k max min next_cmd d = refl
  commit_dwords-reserved_size (suc n) k max min next_cmd d =
      commit_dwords-reserved_size n (k + 1) max min _ _

  commit_body-reserved_size :
      (b r : Bool) (bytes : ℕ) (d : Device H)
      → (commit_body b r bytes d).reserved_size ≡ d.reserved_size
  unfolding commit_body advance_next commit_copies
  commit_body-reserved_size false false bytes d = refl
  commit_body-reserved_size false true bytes d = refl
  commit_body-reserved_size true false bytes d = commit_dwords-reserved_size (bytes / 4) 0 _ _ _ d
  commit_body-reserved_size true true bytes d = refl

  fifo_commit-body :
      (n : ℕ) (d : Device H)
      → d.reserved_size ≡ 4 * n
      → n ≢ 0
      → fifo_commit_all d
        ≡ commit_body d.using_bounce_buffer
            (has_fifo_cap d 64)
            (4 * n)
            (record d { reserved_size = 0 })
  unfolding fifo_commit_all fifo_commit
  fifo_commit-body n d e h = rw e (ground arith)

  -- With the copy made, the command is in the queue and the reservation is over.
  sent_by :
      (m : Mem) (ws : List ℕ) (b r : Bool) (e d : Device H)
      → IsValid m
      → held m + length ws < last m - first m
      → e ≡ commit_body b r (4 * length ws) d
      → d.reserved_size ≡ 0
      → Committed m (commit_body b r (4 * length ws) d).fifo ws
      → IsValid e.fifo
        × (queue e.fifo ≡ queue m ++ ws)
        × (e.reserved_size ≡ 0)
        × (e.fifo 0 ≡ m 0)
        × (e.fifo 1 ≡ m 1)
  sent_by m ws b r e d v h q idle c =
      let s = queue-Committed v h c in
      rw q (s.0, s.1, commit_body-reserved_size b r (4 * length ws) d ∙ idle, c.min, c.max)

  commit_bounced :
      (b : Bool) (m : Mem) (ws : List ℕ) (d : Device H)
      → IsValid m
      → held m + length ws < last m - first m
      → d.fifo ≡ m
      → ((j : ℕ) → j < length ws → d.bounce_buffer (0 + j) ≡ get_or ws j 0)
      → Committed m (commit_body true b (4 * length ws) d).fifo ws
  commit_bounced true m ws d v h e buf =
      commit_by_copies m ws d v h e (λ j hj. ap d.bounce_buffer (omega arith) ∙ buf j hj)
  commit_bounced false m ws d v h e buf =
      commit_by_dwords m ws d v h e (λ j hj. ap d.bounce_buffer (omega arith) ∙ buf j hj)

  -- A command of `ws` that FIFOReserve made room for, written at its pointer and committed.
  pub fifo_commit_all_lem :
      (ws : List ℕ) (d d' : Device H) (p : Pointer)
      → Ready (4 * length ws) d d' p
      → d'.reserved_size ≡ 4 * length ws
      → length ws ≢ 0
      → let e = fifo_commit_all (put p ws d') in
        IsValid e.fifo
        × (queue e.fifo ≡ queue d'.fifo ++ ws)
        × (e.reserved_size ≡ 0)
        × (e.fifo 0 ≡ d'.fifo 0)
        × (e.fifo 1 ≡ d'.fifo 1)
  unfolding put
  fifo_commit_all_lem ws d d' p r size some_words =
      let v = r.valid in
      let h : held d'.fifo + length ws < last d'.fifo - first d'.fifo = omega (arith, r.space) in
      elim r.place [
        | inl (ep, eu, fit) ↦
            let dd = record d' { fifo = store d'.fifo (d'.fifo 2 / 4) ws } in
            rw ep (
              sent_by d'.fifo ws false (has_fifo_cap dd 64) _ (record dd { reserved_size = 0 }) v h
                (fifo_commit-body (length ws) dd size some_words
                  ∙ ap
                      (λ b.
                        commit_body b (has_fifo_cap dd 64) (4 * length ws)
                          (record dd { reserved_size = 0 }))
                      eu)
                refl
                (commit_in_place (has_fifo_cap dd 64) d'.fifo ws (record dd { reserved_size = 0 }) v
                  h fit refl))
        | inr (ep, eu) ↦
            let dd = record d' { bounce_buffer = store d'.bounce_buffer (0 / 4) ws } in
            rw ep (
              sent_by d'.fifo ws true (has_fifo_cap dd 64) _ (record dd { reserved_size = 0 }) v h
                (fifo_commit-body (length ws) dd size some_words
                  ∙ ap
                      (λ b.
                        commit_body b (has_fifo_cap dd 64) (4 * length ws)
                          (record dd { reserved_size = 0 }))
                      eu)
                refl
                (commit_bounced (has_fifo_cap dd 64) d'.fifo ws (record dd { reserved_size = 0 }) v
                  h refl (λ j hj. store_at d'.bounce_buffer 0 ws j hj)))
      ]
