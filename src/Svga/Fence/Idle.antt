-- ===== src/Svga/Fence/Idle.antt =====
-- The loops that wait for the device: they end once it is not_yet longer busy.
use docker_macos.Base.{
  ℕ, zero, suc, ◌<◌, ◌≡◌, ◌≢◌, ◌⊎◌, inl, inr, true, false, some, arith, Bool-cases, ◌==◌,
}
use docker_macos.Base.Mem.{Mem}
use docker_macos.Svga.{Host, Device, write_reg, read_reg, has_fifo_cap}
use docker_macos.Svga.Fence.{passed_unguarded, wait_idle, sync_fifo, wait_fence, sync_to_fence}

-- The device stays busy for a bounded number of reads of SVGA_REG_BUSY.
pub record Settles {H : Type 0} (host : Host H) : Type 0 where
  pub busy_for : H → Mem → ℕ
  pub less :
      (h : H) (m : Mem)
      → (host.read h m 22).0 ≢ 0
      → let (v, h', m') = host.read h m 22 in busy_for h' m' < busy_for h m

module _ {H : Type 0} (host : Host H) where
  -- The last read of SVGA_REG_BUSY gave 0, and left `e`.
  abbrev pub SeenIdle : Device H → Type 0
  SeenIdle e = (d : Device H) × (read_reg host d 22 ≡ (0, e))

  wait_idle_lem :
      (fuel : ℕ) (d : Device H)
      → (s : Settles host) → s.busy_for d.host d.fifo < fuel
      → (e : Device H) × (wait_idle host fuel d ≡ some e) × SeenIdle e
  unfolding wait_idle read_reg
  wait_idle_lem zero d s h = absurd (omega arith)
  wait_idle_lem (suc fuel) d s h = elim (Bool-cases ((host.read d.host d.fifo 22).0 == 0)) [
    | inl idle ↦ ((read_reg host d 22).1, rw (idle, wait_idle), (d, ground arith))
    | inr busy ↦
        again
          (wait_idle_lem fuel (read_reg host d 22).1 s
            (omega (arith, s.less d.host d.fifo (λ e. ground arith))))
          busy
  ]
    where
      again :
          ((e : Device H) × (wait_idle host fuel (read_reg host d 22).1 ≡ some e) × SeenIdle e)
          → ((host.read d.host d.fifo 22).0 == 0) ≡ false
          → (e : Device H) × (wait_idle host (suc fuel) d ≡ some e) × SeenIdle e
      again (e, q, seen) busy = (e, rw (busy, wait_idle) q, seen)

  wait_fence_lem :
      (fuel fence : ℕ) (d : Device H)
      → (s : Settles host) → s.busy_for d.host d.fifo < fuel
      → (e : Device H) × (wait_fence host fuel fence d ≡ some e)
        × ((passed_unguarded e.fifo fence ≡ true) ⊎ SeenIdle e)
  unfolding wait_fence read_reg
  wait_fence_lem zero fence d s h = absurd (omega arith)
  wait_fence_lem (suc fuel) fence d s h = elim (Bool-cases (passed_unguarded d.fifo fence)) [
    | inl passed ↦ (d, rw (passed, wait_fence), inl passed)
    | inr not_yet ↦ elim (Bool-cases ((host.read d.host d.fifo 22).0 == 0)) [
      | inl idle ↦ ((read_reg host d 22).1, rw (not_yet, idle, wait_fence), inr (d, ground arith))
      | inr busy ↦ again not_yet busy (
          wait_fence_lem fuel fence (read_reg host d 22).1 s
            (omega (arith, s.less d.host d.fifo (λ e. ground arith))))
    ]
  ]
    where
      again :
          passed_unguarded d.fifo fence ≡ false
          → ((host.read d.host d.fifo 22).0 == 0) ≡ false
          → ((e : Device H) × (wait_fence host fuel fence (read_reg host d 22).1 ≡ some e)
              × ((passed_unguarded e.fifo fence ≡ true) ⊎ SeenIdle e))
          → (e : Device H) × (wait_fence host (suc fuel) fence d ≡ some e)
            × ((passed_unguarded e.fifo fence ≡ true) ⊎ SeenIdle e)
      again not_yet busy (e, q, why) = (e, rw (not_yet, busy, wait_fence) q, why)

  -- If the device stays busy for a bounded number of reads, fewer than the fuel, then SyncFIFO ends,
  -- with a device that has just been seen idle.
  pub sync_fifo_lem :
      (fuel : ℕ) (d : Device H) (s : Settles host)
      → let d' = write_reg host d 21 1 in
        s.busy_for d'.host d'.fifo < fuel
        → (e : Device H) × (sync_fifo host fuel d ≡ some e) × SeenIdle e
  unfolding sync_fifo
  sync_fifo_lem fuel d s h = wait_idle_lem fuel (write_reg host d 21 1) s h

  -- If the device stays busy for a bounded number of reads, fewer than the fuel, then SyncToFence
  -- ends, and the fence is 0, the device has reached it or the device has just been seen idle.
  pub sync_to_fence_lem :
      (fuel fence : ℕ) (d : Device H) (s : Settles host)
      → let d' = write_reg host d 21 1 in
        s.busy_for d'.host d'.fifo < fuel
        → (e : Device H) × (sync_to_fence host fuel fence d ≡ some e)
          × ((fence ≡ 0) ⊎ (passed_unguarded e.fifo fence ≡ true) ⊎ SeenIdle e)
  unfolding sync_to_fence
  sync_to_fence_lem fuel fence d s h = elim (Bool-cases (fence == 0)) [
    | inl none_given ↦ (d, rw (none_given, sync_to_fence), inl (ground arith))
    | inr given ↦ elim (Bool-cases (has_fifo_cap d 1)) [
      | inr incapable ↦ without given incapable (sync_fifo_lem fuel d s h)
      | inl capable ↦ elim (Bool-cases (passed_unguarded d.fifo fence)) [
        | inl passed ↦ (d, rw (given, capable, passed, sync_to_fence), inr (inl passed))
        | inr not_yet ↦
            after given capable not_yet (wait_fence_lem fuel fence (write_reg host d 21 1) s h)
      ]
    ]
  ]
    where
      without :
          (fence == 0) ≡ false
          → has_fifo_cap d 1 ≡ false
          → ((e : Device H) × (sync_fifo host fuel d ≡ some e) × SeenIdle e)
          → (e : Device H) × (sync_to_fence host fuel fence d ≡ some e)
            × ((fence ≡ 0) ⊎ (passed_unguarded e.fifo fence ≡ true) ⊎ SeenIdle e)
      without given incapable (e, q, seen) =
          (e, rw (given, incapable, sync_to_fence) q, inr (inr seen))

      after :
          (fence == 0) ≡ false
          → has_fifo_cap d 1 ≡ true
          → passed_unguarded d.fifo fence ≡ false
          → ((e : Device H) × (wait_fence host fuel fence (write_reg host d 21 1) ≡ some e)
              × ((passed_unguarded e.fifo fence ≡ true) ⊎ SeenIdle e))
          → (e : Device H) × (sync_to_fence host fuel fence d ≡ some e)
            × ((fence ≡ 0) ⊎ (passed_unguarded e.fifo fence ≡ true) ⊎ SeenIdle e)
      after given capable not_yet (e, q, why) =
          (e, rw (given, capable, not_yet, sync_to_fence) q, inr why)
