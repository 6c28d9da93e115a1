-- ===== src/Svga/Fifo/Reserve.antt =====
-- FIFOReserve: when it returns a pointer, and when it waits for ever.
mod Placed
use docker_macos.Base.{
  ℕ, zero, suc, ◌+◌, ◌-◌, ◌/◌, ◌%◌, ◌≤◌, ◌<◌, ◌≡◌, refl, sym, ap, ◌∙◌, ◌≢◌, ◌⊎◌, inl, inr, Bool,
  true, false, none, some, List, [], ◌++◌, arith, Bool-cases, leb,
}
use mathlib.Core.List.{append_assoc}
use docker_macos.Ring.{window}
use docker_macos.Svga.{Host, Device, Pointer, in_fifo, in_bounce, has_fifo_cap, write_reg, read_reg}
use docker_macos.Svga.Fifo.{
  Room, in_place, full, bounce, room, take_in_place, fifo_full, reserve_loop, fifo_reserve,
}
use docker_macos.Base.Mem.{Mem}
use docker_macos.Svga.Fifo.Inv.{
  IsFifo, IsValid, pending, held, first, last, queue, SameRing-update, Taken, Taken-refl,
  Taken-IsValid, held-Taken, queue-Taken, queue-SameRing,
}
pub use docker_macos.Svga.Fifo.Reserve.Placed.{Ready, Drains}
use docker_macos.Svga.Fifo.Reserve.Placed.{
  Room-cases, room_lem, synced, place-Ready, take_in_place-Ready, after-Ready,
}

module _ {H : Type 0} (host : Host H) where
  fifo_full-Taken :
      (d : Device H)
      → (dr : Drains host) → IsValid d.fifo
      → Taken d.fifo (fifo_full host d).fifo (dr.reads d.host d.fifo)
        × ((fifo_full host d).fifo 4 ≡ d.fifo 4)
        × ((fifo_full host d).reserved_size ≡ d.reserved_size)
  unfolding fifo_full write_reg read_reg
  fifo_full-Taken d dr v = (dr.taken d.host d.fifo v, dr.caps d.host d.fifo v, refl)

  reserve_loop-full :
      (fuel : ℕ) (reservable : Bool) (max min next_cmd bytes : ℕ) (d : Device H)
      → room max min next_cmd (d.fifo 3) bytes ≡ full
      → reserve_loop host (suc fuel) reservable max min next_cmd bytes d
        ≡ reserve_loop host fuel reservable max min next_cmd bytes (fifo_full host d)
  unfolding reserve_loop
  reserve_loop-full fuel reservable max min next_cmd bytes d e = rw (e, reserve_loop)

  -- With a device that reads commands, and more fuel than dwords are pending, the loop ends.
  pub reserve_loop_lem :
      (fuel : ℕ) (reservable : Bool) (bytes : ℕ) (d : Device H)
      → Drains host
      → IsValid d.fifo
      → bytes % 4 ≡ 0
      → bytes / 4 < last d.fifo - first d.fifo
      → held d.fifo < fuel
      → (p : Pointer) × (d' : Device H) × (reserve_loop host fuel reservable
            (d.fifo 1)
            (d.fifo 0)
            (d.fifo 2)
            bytes
            d
          ≡ some (p, d'))
        × Ready bytes d d' p
  unfolding reserve_loop
  reserve_loop_lem zero reservable bytes d dr v al fit hf = absurd (omega arith)
  reserve_loop_lem (suc fuel) reservable bytes d dr v al fit hf =
      let r = room_lem (d.fifo 1) (d.fifo 0) (d.fifo 2) (d.fifo 3) bytes v al in
      let t = fifo_full-Taken d dr v in
      elim (Room-cases (room (d.fifo 1) (d.fifo 0) (d.fifo 2) (d.fifo 3) bytes)) [
        | inl here ↦ (
          (take_in_place reservable (d.fifo 2) bytes d).0,
          (take_in_place reservable (d.fifo 2) bytes d).1,
          rw (here, reserve_loop),
          take_in_place-Ready reservable bytes d v (r.0 here).0 (r.0 here).1,
        )
        | inr (inr away) ↦ (
          in_bounce 0,
          record d { using_bounce_buffer = true },
          rw (away, reserve_loop),
          place-Ready bytes true d (in_bounce 0) v (r.1 away) (inr (refl, refl)),
        )
        | inr (inl wait) ↦ again wait (
            reserve_loop_lem fuel reservable bytes (fifo_full host d) dr (Taken-IsValid v t.0) al
              (omega (arith, t.0.same.max, t.0.same.min))
              (omega (arith, held-Taken v t.0, r.2 wait, dr.moves d.host d.fifo v)))
      ]
    where
      again :
          room (d.fifo 1) (d.fifo 0) (d.fifo 2) (d.fifo 3) bytes ≡ full
          → ((p : Pointer) × (d' : Device H) × (reserve_loop host fuel reservable
                  ((fifo_full host d).fifo 1)
                  ((fifo_full host d).fifo 0)
                  ((fifo_full host d).fifo 2)
                  bytes
                  (fifo_full host d)
                ≡ some (p, d'))
              × Ready bytes (fifo_full host d) d' p)
          → (p : Pointer) × (d' : Device H) × (reserve_loop host
                (suc fuel)
                reservable
                (d.fifo 1)
                (d.fifo 0)
                (d.fifo 2)
                bytes
                d
              ≡ some (p, d'))
            × Ready bytes d d' p
      again wait (p, d', e, r) =
          let t = fifo_full-Taken d dr v in
          (
            p,
            d',
            reserve_loop-full fuel reservable (d.fifo 1) (d.fifo 0) (d.fifo 2) bytes d wait
                ∙ cc (e, t.0.same.max, t.0.same.min, t.0.same.next),
            after-Ready bytes _ d (fifo_full host d) d' p v t.0 t.1 t.2 r,
          )

  -- A request as large as the ring waits for ever, however often the device reads.
  pub reserve_loop-none :
      (fuel : ℕ) (reservable : Bool) (bytes : ℕ) (d : Device H)
      → Drains host
      → IsValid d.fifo
      → bytes % 4 ≡ 0
      → last d.fifo - first d.fifo ≤ bytes / 4
      → reserve_loop host fuel reservable (d.fifo 1) (d.fifo 0) (d.fifo 2) bytes d ≡ none
  unfolding reserve_loop
  reserve_loop-none zero reservable bytes d dr v al fit = refl
  reserve_loop-none (suc fuel) reservable bytes d dr v al fit =
      let r = room_lem (d.fifo 1) (d.fifo 0) (d.fifo 2) (d.fifo 3) bytes v al in
      let t = fifo_full-Taken d dr v in
      elim (Room-cases (room (d.fifo 1) (d.fifo 0) (d.fifo 2) (d.fifo 3) bytes)) [
        | inl here ↦ absurd (omega (arith, r.0 here))
        | inr (inr away) ↦ absurd (omega (arith, r.1 away))
        | inr (inl wait) ↦
            reserve_loop-full fuel reservable (d.fifo 1) (d.fifo 0) (d.fifo 2) bytes d wait
            ∙ cc (
              reserve_loop-none fuel reservable bytes (fifo_full host d) dr (Taken-IsValid v t.0) al
                  (omega (arith, t.0.same.max, t.0.same.min)),
              t.0.same.max,
              t.0.same.min,
              t.0.same.next,
            )
      ]

  -- FIFOReserve returns a pointer for every aligned request that is smaller than the ring and no
  -- larger than the bounce buffer, if none is outstanding, the FIFO is well formed, the device reads
  -- commands and there is more fuel than dwords are pending. The FIFO stays well formed with the rest
  -- of its commands, and has room for the request where the pointer says.
  pub fifo_reserve_lem :
      (fuel bytes : ℕ) (d : Device H)
      → Drains host
      → IsValid d.fifo
      → bytes % 4 ≡ 0
      → bytes ≤ 0x10000
      → bytes < d.fifo 1 - d.fifo 0
      → d.reserved_size ≡ 0
      → held d.fifo < fuel
      → (p : Pointer) × (d' : Device H) × (fifo_reserve host fuel bytes d ≡ some (some p, d'))
        × Ready bytes (record d { reserved_size = bytes }) d' p
  unfolding fifo_reserve
  fifo_reserve_lem fuel bytes d dr v al small fit idle hf =
      let (p, d', e, r) =
        reserve_loop_lem fuel (has_fifo_cap d 64) bytes (record d { reserved_size = bytes }) dr v al
          (omega arith) hf in
      (p, d', ground (arith, e), r)

  -- A refused request leaves the device as it was. It is refused exactly when it is larger than the
  -- bounce buffer or the ring, is not a number of dwords, or follows one that is not committed.
  pub fifo_reserve_refused :
      (fuel bytes : ℕ) (d : Device H)
      → IsValid d.fifo
      → (0x10000 < bytes) ⊎ (d.fifo 1 - d.fifo 0 < bytes) ⊎ (bytes % 4 ≢ 0) ⊎ (d.reserved_size ≢ 0)
      → fifo_reserve host fuel bytes d ≡ some (none, d)
  unfolding fifo_reserve
  fifo_reserve_refused fuel bytes d v why = ground arith

  -- In a well formed FIFO, with none outstanding and a device that reads commands, the guard of
  -- FIFOReserve lets a request through that is as large as the ring and no larger than the bounce
  -- buffer, and it never returns: there is no fuel with which the loop ends.
  pub fifo_reserve_hangs :
      (fuel bytes : ℕ) (d : Device H)
      → Drains host
      → IsValid d.fifo
      → bytes ≡ d.fifo 1 - d.fifo 0
      → bytes ≤ 0x10000
      → d.reserved_size ≡ 0
      → fifo_reserve host fuel bytes d ≡ none
  unfolding fifo_reserve
  fifo_reserve_hangs fuel bytes d dr v whole small idle =
      let e =
        reserve_loop-none fuel (has_fifo_cap d 64) bytes (record d { reserved_size = bytes }) dr v
          (omega arith) (omega arith) in
      ground (arith, e)
