-- ===== src/Svga/Fence/Doorbell.antt =====
-- RingDoorBell: rings that come before the device has taken notice of the first are dropped.
use docker_macos.Base.{
  ◌≡◌, ◌≢◌, refl, ap, ◌∙◌, true, inl, inr, arith, ltb, ◌==◌, Bool-cases, ==-false,
}
use docker_macos.Base.Mem.{Mem}
use docker_macos.Svga.{Host, Device, write_reg, is_fifo_reg_valid, set_fifo}
use docker_macos.Svga.Fence.{ring_doorbell}

module _ {H : Type 0} (host : Host H) where
  ring_doorbell-busy :
      (d : Device H) → is_fifo_reg_valid d 290 ≡ true → d.fifo 290 ≢ 0 → ring_doorbell host d ≡ d
  unfolding ring_doorbell
  ring_doorbell-busy d valid busy = rw (valid, ==-false (d.fifo 290) 0 busy, ring_doorbell) refl

  ring_doorbell-idle :
      (d : Device H)
      → is_fifo_reg_valid d 290 ≡ true
      → d.fifo 290 ≡ 0
      → ring_doorbell host d ≡ write_reg host (set_fifo d 290 1) 21 1
  unfolding ring_doorbell
  ring_doorbell-idle d valid idle = rw (valid, idle, ring_doorbell) refl

  -- If the FIFO has the busy register and the device leaves it and SVGA_FIFO_MIN alone when it is
  -- synchronised, then the busy register is not 0 after RingDoorBell, and a second RingDoorBell
  -- changes nothing.
  pub ring_doorbell_lem :
      (d : Device H)
      → is_fifo_reg_valid d 290 ≡ true
      → ((h : H) (m : Mem)
          → ((host.write h m 21 1).1 0 ≡ m 0) × ((host.write h m 21 1).1 290 ≡ m 290))
      → ((ring_doorbell host d).fifo 290 ≢ 0)
        × (ring_doorbell host (ring_doorbell host d) ≡ ring_doorbell host d)
  unfolding is_fifo_reg_valid write_reg
  ring_doorbell_lem d valid kept = elim (Bool-cases (d.fifo 290 == 0)) [
    | inr b ↦
        let busy : d.fifo 290 ≢ 0 = λ e. ground arith in
        let once = ring_doorbell-busy d valid busy in rw once (busy, once)
    | inl b ↦
        let idle : d.fifo 290 ≡ 0 = ground arith in
        let e = write_reg host (set_fifo d 290 1) 21 1 in
        let k = kept d.host (set_fifo d 290 1).fifo in
        let busy : e.fifo 290 ≢ 0 = λ z. omega (arith, k.1, z) in
        rw (ring_doorbell-idle d valid idle)
          (busy, ring_doorbell-busy e (ap (λ n. ltb 1160 n) k.0 ∙ valid) busy)
  ]
