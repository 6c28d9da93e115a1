-- ===== src/Svga/Fence.antt =====
-- The fence methods of SVGADevice.cpp, the doorbell and the wait for an idle device.
pub mod Passed
pub mod Idle
pub mod Doorbell
use docker_macos.Base.{
  ℕ, zero, suc, ◌+◌, ◌%◌, ◌<◌, Bool, true, false, not, Option, none, some, List, [], ◌∷◌, ltb, ◌==◌,
  if◌then◌else◌,
}
use docker_macos.Base.Mem.{Mem}
use docker_macos.Base.Word.{add32, sub32}
use docker_macos.Svga.{
  Host, Device, Pointer, write_reg, read_reg, has_fifo_cap, is_fifo_reg_valid, set_fifo,
}
use docker_macos.Svga.Fifo.{Wait, put, fifo_reserve, fifo_commit_all}
use docker_macos.Svga.Regs.{fifo_fence, fifo_busy, fifo_cap_fence, cmd_fence, reg_sync, reg_busy}

-- `static_cast<int32_t>(fifo[SVGA_FIFO_FENCE] - fence) >= 0`
pub passed_unguarded : Mem → ℕ → Bool
passed_unguarded fifo fence = ltb (sub32 (fifo fifo_fence) fence) 0x8000_0000

-- `if (!cmd) return 0`, the stores, FIFOCommitAll and `return fence`.
abbrev pub commit_fence :
    {H : Type 0} → ℕ → Option (Option Pointer × Device H) → Option (ℕ × Device H)
commit_fence fence none = none
commit_fence fence (some (none, d)) = some (0, d)
commit_fence fence (some (some p, d)) =
    some (fence, fifo_commit_all (put p (cmd_fence ∷ fence ∷ []) d))

module _ {H : Type 0} where
  -- `if (!m_next_fence) m_next_fence = 1; fence = m_next_fence++`
  pub next_fence_id : Device H → ℕ
  next_fence_id d = if d.next_fence == 0 then 1 else d.next_fence

  pub has_fence_passed : Device H → ℕ → Bool
  has_fence_passed d fence =
      if fence == 0
      then true
      else (if not (has_fifo_cap d fifo_cap_fence) then false else passed_unguarded d.fifo fence)

module _ {H : Type 0} (host : Host H) where
  pub insert_fence : ℕ → Wait H ℕ
  insert_fence fuel d =
      if not (has_fifo_cap d fifo_cap_fence)
      then some (1, d)
      else (let fence = next_fence_id d in
          commit_fence fence (fifo_reserve host fuel 8 (record d { next_fence = add32 fence 1 })))

  -- `while (ReadReg(SVGA_REG_BUSY))`
  unfoldable pub wait_idle : ℕ → Device H → Option (Device H)
  wait_idle zero d = none
  wait_idle (suc fuel) d =
      let (busy, d') = read_reg host d reg_busy in
      let again = wait_idle fuel d' in if busy == 0 then some d' else again

  unfoldable pub sync_fifo : ℕ → Device H → Option (Device H)
  sync_fifo fuel d = wait_idle fuel (write_reg host d reg_sync 1)

  -- The second loop of SyncToFence: it ends when the fence has passed, or the device is idle.
  pub wait_fence : ℕ → ℕ → Device H → Option (Device H)
  wait_fence zero fence d = none
  wait_fence (suc fuel) fence d =
      let (busy, d') = read_reg host d reg_busy in
      let again = wait_fence fuel fence d' in
      if passed_unguarded d.fifo fence then some d else (if busy == 0 then some d' else again)

  pub sync_to_fence : ℕ → ℕ → Device H → Option (Device H)
  sync_to_fence fuel fence d =
      if fence == 0
      then some d
      else (if not (has_fifo_cap d fifo_cap_fence)
          then sync_fifo fuel d
          else (if passed_unguarded d.fifo fence
              then some d
              else wait_fence fuel fence (write_reg host d reg_sync 1)))

  pub ring_doorbell : Device H → Device H
  ring_doorbell d =
      if is_fifo_reg_valid d fifo_busy
      then (if d.fifo fifo_busy == 0 then write_reg host (set_fifo d fifo_busy 1) reg_sync 1 else d)
      else write_reg host d reg_sync 1
