-- ===== src/Svga.antt =====
-- kexts/VMsvga2/FB/SVGADevice.h and SVGADevice.cpp: the state of an SVGADevice and its register
-- access. The FIFO, fences, cursor, modes and commands are in the children.
pub mod Regs
pub mod Fifo
pub mod Commands
pub mod Fence
pub mod Video
pub mod Cursor
pub mod Mode
pub mod Tests
use docker_macos.Base.{
  ℕ, ◌*◌, ◌≡◌, Bool, true, false, not, Option, none, some, bit_and, ltb, ◌==◌, if◌then◌else◌,
}
use docker_macos.Base.Mem.{Mem}

-- The device behind the I/O ports, which no file of the repository implements: what a register
-- access does to it and to the FIFO memory that it shares with the driver.
pub record Host (H : Type 0) : Type 0 where
  pub write : H → Mem → ℕ → ℕ → H × Mem
  pub read : H → Mem → ℕ → ℕ × H × Mem

-- Where FIFOReserve tells its caller to write: a byte offset in the FIFO or in the bounce buffer.
pub data Pointer : Type 0 where
  in_fifo : ℕ → Pointer
  in_bounce : ℕ → Pointer

-- Both memories are indexed by dword.
pub record Device (H : Type 0) : Type 0 where
  pub host : H
  pub fifo : Mem
  pub bounce_buffer : Mem
  pub using_bounce_buffer : Bool
  pub reserved_size : ℕ
  pub next_fence : ℕ
  pub cursor_ptr : Option Pointer
  pub fifo_size : ℕ
  pub capabilities : ℕ
  pub width : ℕ
  pub height : ℕ
  pub pitch : ℕ
  pub fb_size : ℕ

module _ {H : Type 0} (host : Host H) where
  unfoldable pub write_reg : Device H → ℕ → ℕ → Device H
  write_reg d index value =
      let (h, m) = host.write d.host d.fifo index value in record d { host = h; fifo = m }

  unfoldable pub read_reg : Device H → ℕ → ℕ × Device H
  read_reg d index =
      let (v, h, m) = host.read d.host d.fifo index in (v, record d { host = h; fifo = m })

module _ {H : Type 0} where
  abbrev pub set_fifo : Device H → ℕ → ℕ → Device H
  set_fifo d p v = record d { fifo = λ i. if i == p then v else d.fifo i }

  unfoldable pub has_capability : Device H → ℕ → Bool
  has_capability d mask = not (bit_and d.capabilities mask == 0)

  pub has_fifo_cap : Device H → ℕ → Bool
  has_fifo_cap d mask = not (bit_and (d.fifo Regs.fifo_capabilities) mask == 0)

  -- `reg << 2` on a uint32_t register number.
  pub is_fifo_reg_valid : Device H → ℕ → Bool
  is_fifo_reg_valid d reg = ltb (reg * 4) (d.fifo Regs.fifo_min)
