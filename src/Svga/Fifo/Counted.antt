-- ===== src/Svga/Fifo/Counted.antt =====
-- Reserving and committing leave the number of the next fence alone.
use docker_macos.Base.{
  ℕ, zero, suc, ◌+◌, ◌/◌, ◌%◌, ◌≡◌, ◌⊎◌, refl, sym, ap, ◌∙◌, inl, inr, Bool, true, false, not, ◌||◌,
  Option, none, some, List, ◌==◌, if◌then◌else◌, ltb, arith,
}
use docker_macos.Base.Word.{add32, sub32}
use docker_macos.Svga.{
  Host, Device, Pointer, in_fifo, in_bounce, has_fifo_cap, write_reg, read_reg, set_fifo,
}
use docker_macos.Svga.Fifo.{
  Room, in_place, full, bounce, room, take_in_place, fifo_full, reserve_loop, fifo_reserve,
  fifo_commit_all, fifo_commit, commit_body, commit_copies, commit_dwords, advance_next, put, got,
}

rooms : (r : Room) → (r ≡ in_place) ⊎ (r ≡ full) ⊎ (r ≡ bounce)
rooms in_place = inl refl
rooms full = inr (inl refl)
rooms bounce = inr (inr refl)

module _ {H : Type 0} where
  -- The number of the next fence after a call, or `n` if there is no result.
  abbrev then_next : {A : Type 0} → ℕ → Option (A × Device H) → ℕ
  then_next n none = n
  then_next n (some (p, e)) = e.next_fence

  got-next : (n : ℕ) (o : Option (Pointer × Device H)) → then_next n (got o) ≡ then_next n o
  got-next n none = refl
  got-next n (some (p, e)) = refl

  refused :
      (a b c : Bool) (d : Device H) (o : Option (Option Pointer × Device H))
      → then_next d.next_fence o ≡ d.next_fence
      → then_next d.next_fence (
          if a
          then some (none, d)
          else (if not b then some (none, d) else (if not c then some (none, d) else o)))
        ≡ d.next_fence
  refused true b c d o h = refl
  refused false false c d o h = refl
  refused false true false d o h = refl
  refused false true true d o h = h

  committed :
      (b c : Bool) (d e : Device H)
      → e.next_fence ≡ d.next_fence
      → (if not b then d else (if c then d else e)).next_fence ≡ d.next_fence
  committed false c d e h = refl
  committed true true d e h = refl
  committed true false d e h = h

  module _ (host : Host H) where
    full-next : (d : Device H) → (fifo_full host d).next_fence ≡ d.next_fence
    unfolding fifo_full write_reg read_reg
    full-next d = refl

    take-next :
        (b : Bool) (n bytes : ℕ) (d : Device H)
        → (take_in_place b n bytes d).1.next_fence ≡ d.next_fence
    unfolding take_in_place
    take-next b n bytes d = ground arith

    loop-next :
        (fuel : ℕ) (b : Bool) (max min next_cmd bytes : ℕ) (d : Device H)
        → then_next d.next_fence (reserve_loop host fuel b max min next_cmd bytes d) ≡ d.next_fence
    unfolding reserve_loop fifo_full read_reg write_reg
    loop-next zero b max min next_cmd bytes d = refl
    loop-next (suc fuel) b max min next_cmd bytes d =
        elim (rooms (room max min next_cmd (d.fifo 3) bytes)) [
          | inl here ↦ rw (here, reserve_loop) (take-next b next_cmd bytes d)
          | inr (inr away) ↦ rw (away, reserve_loop) refl
          | inr (inl wait) ↦
              rw (wait, reserve_loop) (loop-next fuel b max min next_cmd bytes (fifo_full host d))
        ]

    reserve-next :
        (fuel bytes : ℕ) (d : Device H)
        → then_next d.next_fence (fifo_reserve host fuel bytes d) ≡ d.next_fence
    unfolding fifo_reserve
    reserve-next fuel bytes d =
        refused (ltb 0x10000 bytes || ltb (sub32 (d.fifo 1) (d.fifo 0)) bytes) (bytes % 4 == 0)
          (d.reserved_size == 0) d
          (got (
            reserve_loop host fuel (has_fifo_cap d 64) (d.fifo 1) (d.fifo 0) (d.fifo 2) bytes
              (record d { reserved_size = bytes })))
          (got-next d.next_fence (
              reserve_loop host fuel (has_fifo_cap d 64) (d.fifo 1) (d.fifo 0) (d.fifo 2) bytes
                (record d { reserved_size = bytes }))
            ∙ loop-next fuel (has_fifo_cap d 64) (d.fifo 1) (d.fifo 0) (d.fifo 2) bytes
                (record d { reserved_size = bytes }))

  dwords-next :
      (n k max min next_cmd : ℕ) (d : Device H)
      → (commit_dwords n k max min next_cmd d).next_fence ≡ d.next_fence
  unfolding commit_dwords
  dwords-next zero k max min next_cmd d = refl
  dwords-next (suc n) k max min next_cmd d =
      let next = if add32 next_cmd 4 == max then min else add32 next_cmd 4 in
      dwords-next n (k + 1) max min next
        (set_fifo (set_fifo d (next_cmd / 4) (d.bounce_buffer k)) 2 next)

  body-next :
      (b r : Bool) (bytes : ℕ) (d : Device H) → (commit_body b r bytes d).next_fence ≡ d.next_fence
  unfolding commit_body commit_copies advance_next
  body-next false false bytes d = refl
  body-next false true bytes d = refl
  body-next true true bytes d = refl
  body-next true false bytes d = dwords-next (bytes / 4) 0 (d.fifo 1) (d.fifo 0) (d.fifo 2) d

  commit-next : (d : Device H) → (fifo_commit_all d).next_fence ≡ d.next_fence
  unfolding fifo_commit_all fifo_commit
  commit-next d =
      committed (d.reserved_size % 4 == 0) (d.reserved_size == 0) d
        (commit_body d.using_bounce_buffer (has_fifo_cap d 64) d.reserved_size
          (record d { reserved_size = 0 }))
        (body-next d.using_bounce_buffer (has_fifo_cap d 64) d.reserved_size
          (record d { reserved_size = 0 }))

  put-next : (p : Pointer) (ws : List ℕ) (d : Device H) → (put p ws d).next_fence ≡ d.next_fence
  unfolding put
  put-next (in_fifo p) ws d = refl
  put-next (in_bounce p) ws d = refl

  -- A command that is written at the pointer of a reservation leaves the number alone.
  pub sent-next :
      (host : Host H) (fuel bytes : ℕ) (ws : List ℕ) (p : Pointer) (d d' : Device H)
      → fifo_reserve host fuel bytes d ≡ some (some p, d')
      → (fifo_commit_all (put p ws d')).next_fence ≡ d.next_fence
  sent-next host fuel bytes ws p d d' q =
      commit-next (put p ws d')
      ∙ put-next p ws d'
      ∙ sym (ap (then_next d.next_fence) q)
      ∙ reserve-next host fuel bytes d
