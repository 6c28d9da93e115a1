-- ===== src/Svga/Fifo/Reserve/Placed.antt =====
-- FIFOReserve: the room that a round of its loop finds, and what it leaves behind when it returns a
-- pointer.
use docker_macos.Base.{
  ℕ, ◌+◌, ◌-◌, ◌/◌, ◌%◌, ◌≤◌, ◌<◌, ◌≡◌, refl, sym, ap, ◌∙◌, ◌⊎◌, inl, inr, Bool, true, false, List,
  [], ◌++◌, arith, Bool-cases, leb,
}
use mathlib.Core.List.{append_assoc}
use docker_macos.Ring.{window}
use docker_macos.Svga.{Host, Device, Pointer, in_fifo, in_bounce}
use docker_macos.Svga.Fifo.{Room, in_place, full, bounce, room, take_in_place}
use docker_macos.Base.Mem.{Mem}
use docker_macos.Svga.Fifo.Inv.{
  IsFifo, IsValid, pending, held, first, last, queue, SameRing-update, Taken, Taken-refl,
  Taken-IsValid, held-Taken, queue-Taken, queue-SameRing,
}

-- In a well formed FIFO and for a number of whole dwords, by the dwords that are pending: a round
-- finds the ring full only if the request would fill it, and a place in the FIFO or the bounce
-- buffer only if it would not; a place in the FIFO does not reach beyond its end.
pub room_lem :
    (max min next_cmd stop bytes : ℕ)
    → IsFifo max min next_cmd stop
    → bytes % 4 ≡ 0
    → (room max min next_cmd stop bytes ≡ in_place
        → (pending max min next_cmd stop + bytes / 4 < max / 4 - min / 4)
          × (next_cmd + bytes ≤ max))
      × (room max min next_cmd stop bytes ≡ bounce
          → pending max min next_cmd stop + bytes / 4 < max / 4 - min / 4)
      × (room max min next_cmd stop bytes ≡ full
          → max / 4 - min / 4 ≤ pending max min next_cmd stop + bytes / 4)
unfolding room
room_lem max min next_cmd stop bytes v h =
    (λ e. (ground arith, ground arith), λ e. ground arith, λ e. ground arith)

-- The FIFO after SVGA_REG_SYNC is written and SVGA_REG_BUSY is read.
abbrev pub synced : {H : Type 0} → Host H → H → Mem → Mem
synced host h m = let (h1, m1) = host.write h m 21 1 in let (v, h2, m2) = host.read h1 m1 22 in m2

-- The device reads commands when it is synchronised: at least one dword, if any is pending.
pub record Drains {H : Type 0} (host : Host H) : Type 0 where
  pub reads : H → Mem → ℕ
  pub taken : (h : H) (m : Mem) → IsValid m → Taken m (synced host h m) (reads h m)
  pub moves : (h : H) (m : Mem) → IsValid m → 0 < held m → 0 < reads h m
  pub caps : (h : H) (m : Mem) → IsValid m → synced host h m 4 ≡ m 4

module _ {H : Type 0} where
  -- The pointer is NEXT_CMD with the whole request before the end of the FIFO, or the bounce buffer.
  abbrev pub Placed : ℕ → Device H → Pointer → Type 0
  Placed bytes d p =
      ((p ≡ in_fifo (d.fifo 2)) × (d.using_bounce_buffer ≡ false) × (d.fifo 2 + bytes ≤ d.fifo 1))
      ⊎ ((p ≡ in_bounce 0) × (d.using_bounce_buffer ≡ true))

  -- What holds when FIFOReserve returns `p`, having turned `d` into `d'`.
  pub record Ready (bytes : ℕ) (d d' : Device H) (p : Pointer) : Type 0 where
    pub valid : IsValid d'.fifo
    pub space : held d'.fifo + bytes / 4 < last d'.fifo - first d'.fifo
    pub caps : d'.fifo 4 ≡ d.fifo 4
    pub ring : (d'.fifo 0 ≡ d.fifo 0) × (d'.fifo 1 ≡ d.fifo 1)
    pub reserved : d'.reserved_size ≡ d.reserved_size
    pub place : Placed bytes d' p
    pub read : List ℕ
    pub kept : queue d.fifo ≡ read ++ queue d'.fifo

  -- A round that stops changes no more than the flag for the bounce buffer.
  pub place-Ready :
      (bytes : ℕ) (b : Bool) (d : Device H) (p : Pointer)
      → IsValid d.fifo
      → held d.fifo + bytes / 4 < last d.fifo - first d.fifo
      → Placed bytes (record d { using_bounce_buffer = b }) p
      → Ready bytes d (record d { using_bounce_buffer = b }) p
  place-Ready bytes b d p v h place = record {
    valid = v;
    space = h;
    caps = refl;
    ring = (refl, refl);
    reserved = refl;
    place = place;
    read = [];
    kept = refl;
  }

  pub take_in_place-Ready :
      (reservable : Bool) (bytes : ℕ) (d : Device H)
      → IsValid d.fifo
      → held d.fifo + bytes / 4 < last d.fifo - first d.fifo
      → d.fifo 2 + bytes ≤ d.fifo 1
      → let (p, d') = take_in_place reservable (d.fifo 2) bytes d in Ready bytes d d' p
  unfolding take_in_place
  take_in_place-Ready true bytes d v h k =
      let same = SameRing-update d.fifo 14 bytes v (omega arith) (omega arith) in
      let taken = Taken-refl v same refl in
      record {
        valid = Taken-IsValid v taken;
        space = ground (arith, held-Taken v taken);
        caps = refl;
        ring = (refl, refl);
        reserved = refl;
        place = inl (refl, refl, k);
        read = [];
        kept = queue-SameRing v same refl;
      }
  take_in_place-Ready false bytes d v h k = elim (Bool-cases (leb bytes 4)) [
    | inl one ↦ rw one (place-Ready bytes false d (in_fifo (d.fifo 2)) v h (inl (refl, refl, k)))
    | inr more ↦ rw more (place-Ready bytes true d (in_bounce 0) v h (inr (refl, refl)))
  ]

  -- What held before the device read something holds after it as well.
  pub after-Ready :
      (bytes n : ℕ) (d e d' : Device H) (p : Pointer)
      → IsValid d.fifo
      → Taken d.fifo e.fifo n
      → e.fifo 4 ≡ d.fifo 4
      → e.reserved_size ≡ d.reserved_size
      → Ready bytes e d' p
      → Ready bytes d d' p
  after-Ready bytes n d e d' p v t caps reserved r = record {
    valid = r.valid;
    space = r.space;
    caps = r.caps ∙ caps;
    ring = (r.ring.0 ∙ t.same.min, r.ring.1 ∙ t.same.max);
    reserved = r.reserved ∙ reserved;
    place = r.place;
    read = window (first d.fifo) (last d.fifo) d.fifo (d.fifo 3 / 4) n ++ r.read;
    kept =
        queue-Taken v t
        ∙ ap (λ ws. window (first d.fifo) (last d.fifo) d.fifo (d.fifo 3 / 4) n ++ ws) r.kept
        ∙ sym (append_assoc _ r.read (queue d'.fifo));
  }

-- The cases of a round.
pub Room-cases : (r : Room) → (r ≡ in_place) ⊎ (r ≡ full) ⊎ (r ≡ bounce)
Room-cases in_place = inl refl
Room-cases full = inr (inl refl)
Room-cases bounce = inr (inr refl)
