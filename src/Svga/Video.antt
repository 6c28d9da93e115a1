-- ===== src/Svga/Video.antt =====
-- The video overlay of SVGADevice.cpp: escapes of the namespace of VMware.
use docker_macos.Base.{
  ℕ, zero, suc, ◌+◌, ◌*◌, ◌<◌, ◌≡◌, refl, sym, ap, ◌∙◌, Bool, true, false, Option, none, some, List,
  [], ◌∷◌, ◌++◌, length, ltb, if◌then◌else◌, arith,
}
use mathlib.Core.Path.{subst}
use docker_macos.Base.Mem.{Mem}
use docker_macos.Base.Word.{u32, add32, sub32}
use docker_macos.Svga.{Host, Device, Pointer}
use docker_macos.Svga.Regs.{escape_nsid_vmware, escape_video_set_regs, escape_video_flush}
use docker_macos.Svga.Fifo.{
  Wait, fifo_reserve_escape, fifo_commit_all, with_header, fill_and_commit,
}
use docker_macos.Svga.Fifo.Send.{Sent, CanSend, put-append}
use docker_macos.Svga.Fifo.Stream.{wire}
use docker_macos.Svga.Fifo.Escape.{escape_lem}

-- The items of a command: each register of the stream with its value.
unfoldable pub items : (regs : Mem) (first count : ℕ) → List ℕ
items regs first zero = []
items regs first (suc n) = first ∷ regs first ∷ items regs (first + 1) n

module _ {H : Type 0} (host : Host H) where
  -- The pointer is that of the items.
  unfoldable pub begin_video_set_regs : (fuel stream_id num_items : ℕ) → Wait H (Option Pointer)
  begin_video_set_regs fuel stream_id num_items d =
      with_header (escape_video_set_regs ∷ stream_id ∷ [])
        (fifo_reserve_escape host fuel escape_nsid_vmware (8 + num_items * 8) d)

  -- `regs` is the structure of the registers as an array.
  unfoldable pub video_set_regs_in_range :
      (fuel stream_id : ℕ) (regs : Mem) (min_reg max_reg : ℕ) → Wait H Bool
  video_set_regs_in_range fuel stream_id regs min_reg max_reg d =
      let num_regs = add32 (sub32 max_reg min_reg) 1 in
      if ltb max_reg min_reg
      then some (true, d)
      else fill_and_commit (items regs min_reg num_regs)
          (begin_video_set_regs fuel stream_id num_regs d)

  unfoldable pub video_set_reg : (fuel stream_id register_id value : ℕ) → Wait H Bool
  video_set_reg fuel stream_id register_id value d =
      fill_and_commit (register_id ∷ value ∷ []) (begin_video_set_regs fuel stream_id 1 d)

  unfoldable pub video_flush : (fuel stream_id : ℕ) → Wait H Bool
  video_flush fuel stream_id d =
      fill_and_commit (escape_video_flush ∷ stream_id ∷ [])
        (fifo_reserve_escape host fuel escape_nsid_vmware 8 d)

length-items : (regs : Mem) (first n : ℕ) → length (items regs first n) ≡ 2 * n
unfolding items
length-items regs first zero = refl
length-items regs first (suc n) = omega (arith, length-items regs (first + 1) n)

-- A header that is written before the rest is part of it.
fill-with_header :
    {H : Type 0} (hs ws : List ℕ) (o : Option (Option Pointer × Device H))
    → fill_and_commit ws (with_header hs o) ≡ fill_and_commit (hs ++ ws) o
fill-with_header hs ws none = refl
fill-with_header hs ws (some (none, d)) = refl
fill-with_header hs ws (some (some p, d)) =
    ap (λ x. some (true, fifo_commit_all x)) (put-append p hs ws d)

-- The numbers of consecutive registers.
abbrev pub numbers : (first count : ℕ) → List ℕ
numbers first zero = []
numbers first (suc n) = first ∷ numbers (first + 1) n

-- A register on the wire: its number and its value.
abbrev pub item : Mem → ℕ → List ℕ
item regs r = r ∷ regs r ∷ []

wire-numbers : (regs : Mem) (first n : ℕ) → wire (item regs) (numbers first n) ≡ items regs first n
unfolding items
wire-numbers regs first zero = refl
wire-numbers regs first (suc n) =
    ap (λ xs. first ∷ regs first ∷ xs) (wire-numbers regs (first + 1) n)

pub data VideoCommand : Type 0 where
  regs_in_range : (stream_id : ℕ) (regs : Mem) (min_reg count : ℕ) → VideoCommand
  one_reg : (stream_id register_id value : ℕ) → VideoCommand
  flush_stream : (stream_id : ℕ) → VideoCommand

-- What a method call is, with `count + 1` registers from the first on.
abbrev pub perform_video : {H : Type 0} → Host H → ℕ → VideoCommand → Wait H Bool
perform_video host fuel (regs_in_range stream_id regs min_reg count) =
    video_set_regs_in_range host fuel stream_id regs min_reg (min_reg + count)
perform_video host fuel (one_reg stream_id register_id value) =
    video_set_reg host fuel stream_id register_id value
perform_video host fuel (flush_stream stream_id) = video_flush host fuel stream_id

-- On the wire: SVGA_CMD_ESCAPE, the namespace, the number of bytes, and the payload.
abbrev pub escape : List ℕ → List ℕ
escape payload = 33 ∷ 0 ∷ (4 * length payload) ∷ payload

abbrev pub encode_video : VideoCommand → List ℕ
encode_video (regs_in_range stream_id regs min_reg count) =
    escape (0x20001 ∷ stream_id ∷ wire (item regs) (numbers min_reg (suc count)))
encode_video (one_reg stream_id register_id value) =
    escape (0x20001 ∷ stream_id ∷ register_id ∷ value ∷ [])
encode_video (flush_stream stream_id) = escape (0x20002 ∷ stream_id ∷ [])

-- Register numbers are of 32 bits, and there are less than 2 ^ 32 of them.
abbrev pub IsVideo : VideoCommand → Type 0
IsVideo (regs_in_range stream_id regs min_reg count) = min_reg + suc count < u32
IsVideo (one_reg stream_id register_id value) = 0 ≡ zero
IsVideo (flush_stream stream_id) = 0 ≡ zero

range-Sent :
    {H : Type 0} (host : Host H) (fuel stream_id : ℕ) (regs : Mem) (min_reg count : ℕ)
    (d : Device H)
    → min_reg + suc count < u32
    → let ws = escape (0x20001 ∷ stream_id ∷ items regs min_reg (suc count)) in
      CanSend host fuel d (length ws)
      → (e : Device H) × (perform_video host fuel (regs_in_range stream_id regs min_reg count) d
          ≡ some (true, e))
        × Sent d ws e
unfolding video_set_regs_in_range begin_video_set_regs
range-Sent host fuel stream_id regs min_reg count d ok can =
    let n : add32 (sub32 (min_reg + count) min_reg) 1 ≡ suc count = omega arith in
    let some_regs : ltb (min_reg + count) min_reg ≡ false = ground arith in
    let len = length-items regs min_reg (suc count) in
    let payload : List ℕ = 0x20001 ∷ stream_id ∷ items regs min_reg (suc count) in
    let bytes : 4 * length payload ≡ 8 + suc count * 8 = omega arith in
    let step : perform_video host fuel (regs_in_range stream_id regs min_reg count) d
        ≡ fill_and_commit payload (fifo_reserve_escape host fuel 0 (4 * length payload) d) =
      rw (some_regs, n, sym bytes)
        (fill-with_header (0x20001 ∷ stream_id ∷ []) (items regs min_reg (suc count))
          (fifo_reserve_escape host fuel 0 (4 * length payload) d)) in
    let (e, q, s) = escape_lem host fuel 0 (4 * length payload) payload d (omega arith) can in
    (e, step ∙ q, s)

-- Each command of VideoSetRegsInRange with at least one register, VideoSetReg and VideoFlush for which
-- there is room, and whose registers are numbered below 2 ^ 32, is sent as an escape with the number
-- and the value of each register, in order, behind what was pending.
pub perform_video_lem :
    {H : Type 0} (host : Host H) (fuel : ℕ) (c : VideoCommand) (d : Device H)
    → IsVideo c
    → CanSend host fuel d (length (encode_video c))
    → (e : Device H) × (perform_video host fuel c d ≡ some (true, e)) × Sent d (encode_video c) e
unfolding video_set_regs_in_range video_set_reg video_flush begin_video_set_regs
perform_video_lem {H = H} host fuel (regs_in_range stream_id regs min_reg count) d ok can =
    subst
      (λ ws.
        CanSend host fuel d (length ws)
        → (e : Device H) × (perform_video host fuel (regs_in_range stream_id regs min_reg count) d
            ≡ some (true, e))
          × Sent d ws e)
      (sym (ap (λ xs. escape (0x20001 ∷ stream_id ∷ xs)) (wire-numbers regs min_reg (suc count))))
      (range-Sent host fuel stream_id regs min_reg count d ok) can
perform_video_lem host fuel (one_reg stream_id register_id value) d ok can =
    let (e, q, s) =
      escape_lem host fuel 0 16 (0x20001 ∷ stream_id ∷ register_id ∷ value ∷ []) d refl can in
    (
      e,
      fill-with_header (0x20001 ∷ stream_id ∷ []) (register_id ∷ value ∷ [])
            (fifo_reserve_escape host fuel 0 16 d)
          ∙ q,
      s,
    )
perform_video_lem host fuel (flush_stream stream_id) d ok can =
    escape_lem host fuel 0 8 (0x20002 ∷ stream_id ∷ []) d refl can
