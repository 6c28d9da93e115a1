-- ===== src/Svga/Fifo.antt =====
-- The FIFO methods of SVGADevice.cpp.
pub mod Inv
pub mod Reserve
pub mod Commit
pub mod Send
pub mod Counted
pub mod Init
pub mod Escape
pub mod Keep
pub mod Stream
use docker_macos.Base.{
  ℕ, zero, suc, ◌+◌, ◌-◌, ◌*◌, ◌/◌, ◌%◌, ◌≡◌, refl, Bool, true, false, ◌&&◌, ◌||◌, not, Option,
  none, some, length, List, [], ◌∷◌, ltb, leb, ◌==◌, if◌then◌else◌,
}
use docker_macos.Base.Mem.{Mem, update, copy, store}
use docker_macos.Base.Word.{add32, sub32}
use docker_macos.Svga.{
  Host, Device, Pointer, in_fifo, in_bounce, write_reg, read_reg, has_fifo_cap, set_fifo,
}
use docker_macos.Svga.Regs.{
  fifo_min, fifo_max, fifo_next_cmd, fifo_stop, fifo_reserved, fifo_cap_reserve, reg_sync, reg_busy,
  reg_config_done, fifo_num_regs, cmd_escape,
}

abbrev pub bounce_buffer_size : ℕ
bounce_buffer_size = 0x10000

-- What one round of the loop of FIFOReserve finds.
pub data Room : Type 0 where
  in_place full bounce : Room

-- `bytes` is a size_t, so `next_cmd + bytes` does not wrap.
pub room : (max min next_cmd stop bytes : ℕ) → Room
room max min next_cmd stop bytes =
    if leb stop next_cmd
    then (if ltb (next_cmd + bytes) max || ((next_cmd + bytes == max) && ltb min stop)
        then in_place
        else (if leb (add32 (sub32 max next_cmd) (sub32 stop min)) bytes then full else bounce))
    else (if ltb (next_cmd + bytes) stop then in_place else full)

module _ {H : Type 0} where
  -- FIFOInit's stores to the FIFO, in order; it then writes SVGA_REG_CONFIG_DONE.
  pub init_fifo : Device H → Device H
  init_fifo d =
      let d1 = set_fifo d fifo_min (fifo_num_regs * 4) in
      let d2 = set_fifo d1 fifo_max d.fifo_size in
      let d3 = set_fifo d2 fifo_next_cmd (d2.fifo fifo_min) in
      set_fifo d3 fifo_stop (d3.fifo fifo_min)

  -- The end of a round that found room in place: without SVGA_FIFO_CAP_RESERVE only a single
  -- dword is written in place.
  pub take_in_place : Bool → ℕ → ℕ → Device H → Pointer × Device H
  take_in_place reservable next_cmd bytes d =
      if reservable || leb bytes 4
      then (let d1 = record d { using_bounce_buffer = false } in
          (in_fifo next_cmd, (if reservable then set_fifo d1 fifo_reserved bytes else d1)))
      else (in_bounce 0, record d { using_bounce_buffer = true })

  -- `while (bytes)` of FIFOCommit, for `n` dwords from index `k` of the bounce buffer.
  pub commit_dwords : (n k max min next_cmd : ℕ) → Device H → Device H
  commit_dwords zero k max min next_cmd d = d
  commit_dwords (suc n) k max min next_cmd d =
      let stepped = add32 next_cmd 4 in
      let next = if stepped == max then min else stepped in
      commit_dwords n (k + 1) max min next
        (set_fifo (set_fifo d (next_cmd / 4) (d.bounce_buffer k)) fifo_next_cmd next)

  -- The copies of the bounce buffer on a device with SVGA_FIFO_CAP_RESERVE. All offsets and sizes
  -- are multiples of four.
  pub commit_copies : (bytes max min next_cmd : ℕ) → Device H → Device H
  commit_copies bytes max min next_cmd d =
      let room_at_end = sub32 max next_cmd in
      let chunk = if ltb bytes room_at_end then bytes else room_at_end in
      let d1 = set_fifo d fifo_reserved bytes in
      let m1 = copy d1.fifo (next_cmd / 4) d.bounce_buffer 0 (chunk / 4) in
      record d1 { fifo = copy m1 (min / 4) d.bounce_buffer (chunk / 4) ((bytes - chunk) / 4) }

  -- `next_cmd += bytes`, with the wrap at the end of the FIFO.
  pub advance_next : (bytes max min next_cmd : ℕ) → Device H → Device H
  advance_next bytes max min next_cmd d =
      let moved = add32 next_cmd bytes in
      set_fifo d fifo_next_cmd (if leb max moved then sub32 moved (sub32 max min) else moved)

  pub commit_body : Bool → Bool → ℕ → Device H → Device H
  commit_body bouncing reservable bytes d =
      let next_cmd = d.fifo fifo_next_cmd in
      let max = d.fifo fifo_max in
      let min = d.fifo fifo_min in
      let d1 =
        if bouncing
        then (if reservable
            then commit_copies bytes max min next_cmd d
            else commit_dwords (bytes / 4) 0 max min next_cmd d)
        else d in
      let d2 = if not bouncing || reservable then advance_next bytes max min next_cmd d1 else d1 in
      if reservable then set_fifo d2 fifo_reserved 0 else d2

  pub fifo_commit : ℕ → Device H → Device H
  fifo_commit bytes d =
      if not (bytes % 4 == 0)
      then d
      else (if d.reserved_size == 0
          then d
          else commit_body d.using_bounce_buffer (has_fifo_cap d fifo_cap_reserve) bytes
              (record d { reserved_size = 0 }))

  unfoldable pub fifo_commit_all : Device H → Device H
  fifo_commit_all d = fifo_commit d.reserved_size d

  -- Stores through a pointer that FIFOReserve returned; offsets are multiples of four.
  unfoldable pub put : Pointer → List ℕ → Device H → Device H
  put (in_fifo p) ws d = record d { fifo = store d.fifo (p / 4) ws }
  put (in_bounce p) ws d = record d { bounce_buffer = store d.bounce_buffer (p / 4) ws }

-- The pointer, `n` bytes further.
abbrev pub ◌+ptr◌ : Pointer → ℕ → Pointer
◌+ptr◌ (in_fifo p) n = in_fifo (p + n)
◌+ptr◌ (in_bounce p) n = in_bounce (p + n)

infixl 65 ◌+ptr◌
-- A method that may wait for the host: `none` when the fuel for its loop has run out.
abbrev pub Wait : Type 0 → Type 0 → Type 0
Wait H A = Device H → Option (A × Device H)

-- What `reserve_loop` gives, as the result of FIFOReserve.
abbrev pub got : {H : Type 0} → Option (Pointer × Device H) → Option (Option Pointer × Device H)
got none = none
got (some (p, d)) = some (some p, d)

-- Dwords written at a pointer that was reserved, unless it is 0; the pointer moves past them.
abbrev pub with_header :
    {H : Type 0} → List ℕ → Option (Option Pointer × Device H) → Option (Option Pointer × Device H)
with_header ws none = none
with_header ws (some (none, d)) = some (none, d)
with_header ws (some (some p, d)) = some (some (p +ptr 4 * length ws), put p ws d)

-- The tail that the methods share: `if (!cmd) return false`, the stores to the command,
-- FIFOCommitAll and `return true`.
abbrev pub fill_and_commit :
    {H : Type 0} → List ℕ → Option (Option Pointer × Device H) → Option (Bool × Device H)
fill_and_commit ws none = none
fill_and_commit ws (some (none, d)) = some (false, d)
fill_and_commit ws (some (some p, d)) = some (true, fifo_commit_all (put p ws d))

module _ {H : Type 0} (host : Host H) where
  pub fifo_full : Device H → Device H
  fifo_full d = (read_reg host (write_reg host d reg_sync 1) reg_busy).1

  pub fifo_init : Device H → Device H
  fifo_init d = record (write_reg host (init_fifo d) reg_config_done 1) {
    reserved_size = 0;
    using_bounce_buffer = false;
  }

  -- `while (true)` of FIFOReserve; SVGA_FIFO_STOP is read anew in each round.
  pub reserve_loop : (fuel : ℕ) (reservable : Bool) (max min next_cmd bytes : ℕ) → Wait H Pointer
  reserve_loop zero reservable max min next_cmd bytes d = none
  reserve_loop (suc fuel) reservable max min next_cmd bytes d =
      elim (room max min next_cmd (d.fifo fifo_stop) bytes) [
        | in_place ↦ some (take_in_place reservable next_cmd bytes d)
        | full ↦ reserve_loop fuel reservable max min next_cmd bytes (fifo_full d)
        | bounce ↦ some (in_bounce 0, record d { using_bounce_buffer = true })
      ]

  -- The pointer is `none` where FIFOReserve returns 0.
  pub fifo_reserve : (fuel bytes : ℕ) → Wait H (Option Pointer)
  fifo_reserve fuel bytes d =
      let max = d.fifo fifo_max in
      let min = d.fifo fifo_min in
      let next_cmd = d.fifo fifo_next_cmd in
      let reservable = has_fifo_cap d fifo_cap_reserve in
      if ltb bounce_buffer_size bytes || ltb (sub32 max min) bytes
      then some (none, d)
      else (if not (bytes % 4 == 0)
          then some (none, d)
          else (if not (d.reserved_size == 0)
              then some (none, d)
              else got (
                  reserve_loop fuel reservable max min next_cmd bytes
                    (record d { reserved_size = bytes }))))

  -- `*cmd++ = type` after a reservation that leaves room for it.
  unfoldable pub fifo_reserve_cmd : (fuel type bytes : ℕ) → Wait H (Option Pointer)
  fifo_reserve_cmd fuel type bytes d = with_header (type ∷ []) (fifo_reserve fuel (bytes + 4) d)

  -- The three dwords of an escape; the payload is padded to dwords.
  pub fifo_reserve_escape : (fuel nsid bytes : ℕ) → Wait H (Option Pointer)
  fifo_reserve_escape fuel nsid bytes d =
      with_header (cmd_escape ∷ nsid ∷ bytes ∷ []) (fifo_reserve fuel ((bytes + 3) / 4 * 4 + 12) d)
