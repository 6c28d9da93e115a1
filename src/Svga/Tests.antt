-- ===== src/Svga/Tests.antt =====
-- A device that reads every pending command when it is synchronised, an SVGADevice in front of it,
-- and the theorems on the FIFO applied to them.
use docker_macos.Svga.Fence.Doorbell.{ring_doorbell_lem}
use docker_macos.Svga.Fifo.Init.{fifo_init_lem}
use docker_macos.Base.{
  ℕ, ◌+◌, ◌≤◌, ◌≡◌, refl, ◌≢◌, ◌⊎◌, ◌%◌, ◌^◌, inl, inr, true, false, none, some, [], ◌∷◌, arith,
  nat, ◌==◌, if◌then◌else◌, ◌*◌,
}
use docker_macos.Base.Mem.{Mem, update}
use docker_macos.Svga.{write_reg, read_reg, Host, Device, Pointer, has_fifo_cap, is_fifo_reg_valid}
use docker_macos.Svga.Fifo.Inv.{IsFifo, IsValid, held, queue, ahead-pending}
use docker_macos.Svga.Fifo.{put, fifo_reserve, fill_and_commit, with_header, fifo_init}
use docker_macos.Svga.Fifo.Reserve.{
  Drains, Ready, fifo_reserve_lem, fifo_reserve_refused, fifo_reserve_hangs,
}
use docker_macos.Svga.Fence.{
  wait_idle, has_fence_passed, insert_fence, sync_fifo, sync_to_fence, passed_unguarded,
  ring_doorbell,
}
use docker_macos.Svga.Fence.Passed.{has_fence_passed_lem, insert_fence_lem}
use docker_macos.Svga.Fence.Idle.{Settles, SeenIdle, sync_to_fence_lem}
use docker_macos.Svga.Commands.Sent.{fill_cmd, perform, perform2d_lem}
use docker_macos.Svga.Fifo.Send.{Sent, CanSend, send_lem}
use docker_macos.Svga.Video.{regs_in_range, encode_video, perform_video, perform_video_lem, items}
use docker_macos.Svga.Cursor.{
  begin_define_alpha_cursor, end_define_alpha_cursor, define_alpha_cursor_lem, set_cursor_state,
}
use docker_macos.Svga.Mode.{write_mode, set_mode, get_3d_caps_block}

-- A write of SVGA_REG_SYNC moves STOP to NEXT_CMD; the device is never busy.
abbrev pub reader : Host ℕ
reader = record {
  write = λ h m index value. (h + 1, (if index == 21 then update m 3 (m 2) else m));
  read = λ h m index. (0, h, m);
}

pub reader-Drains : Drains reader
reader-Drains = record {
  reads = λ h m. held m;
  taken = λ h m v. record {
    same = record { min = refl; max = refl; next = refl; cells = λ i r. ground arith };
    count = omega arith;
    stop = omega (arith, (ahead-pending (m 1) (m 0) (m 2) (m 3) v).0, v.next_aligned);
  };
  moves = λ h m v k. k;
  caps = λ h m v. refl;
}

-- A ring of 24 dwords from byte 1172, three of which are pending, in a device with every
-- capability of the FIFO but SVGA_FIFO_CAP_RESERVE.
abbrev pub ring : Mem
ring i =
    if i == 0
    then 1172
    else (if i == 1
        then 1268
        else (if i == 2 then 1256 else (if i == 3 then 1244 else (if i == 4 then 63 else 1))))

abbrev pub ring-IsFifo : IsFifo 1268 1172 1256 1244
ring-IsFifo = record {
  min_aligned = refl;
  max_aligned = refl;
  next_aligned = refl;
  stop_aligned = refl;
  registers = omega arith;
  small = omega arith;
  next_min = omega arith;
  next_max = omega arith;
  stop_min = omega arith;
  stop_max = omega arith;
}

abbrev pub device : Device ℕ
device = record {
  host = 0;
  fifo = ring;
  bounce_buffer = λ i. 0;
  using_bounce_buffer = false;
  reserved_size = 0;
  next_fence = 1;
  cursor_ptr = none;
  fifo_size = 1268;
  capabilities = 0x30_0000;
  width = 800;
  height = 600;
  pitch = 3200;
  fb_size = 1_920_000;
}

pub device-CanSend : (n : ℕ) → n ≤ 23 → CanSend reader 4 device n
device-CanSend n h = record {
  drains = reader-Drains;
  valid = ring-IsFifo;
  idle = refl;
  fuel_enough = omega arith;
  small = omega arith;
  fit = omega arith;
}

fifo_reserve_lem_example :
    (p : Pointer) × (d : Device ℕ) × (fifo_reserve reader 4 20 device ≡ some (some p, d))
    × Ready 20 (record device { reserved_size = 20 }) d p
fifo_reserve_lem_example =
    fifo_reserve_lem reader 4 20 device reader-Drains ring-IsFifo refl (omega arith) (omega arith)
      refl (omega arith)

fifo_reserve_refused_example : fifo_reserve reader 4 18 device ≡ some (none, device)
fifo_reserve_refused_example =
    fifo_reserve_refused reader 4 18 device ring-IsFifo (inr (inr (inl (λ e. omega arith))))

fifo_reserve_hangs_example : fifo_reserve reader 1000 96 device ≡ none
fifo_reserve_hangs_example =
    fifo_reserve_hangs reader 1000 96 device reader-Drains ring-IsFifo refl (omega arith) refl

send_lem_example :
    (e : Device ℕ) × (fill_and_commit
        (7 ∷ 8 ∷ 9 ∷ [])
        (with_header (5 ∷ 6 ∷ []) (fifo_reserve reader 4 20 device))
      ≡ some (true, e))
    × Sent device (5 ∷ 6 ∷ 7 ∷ 8 ∷ 9 ∷ []) e
send_lem_example =
    send_lem reader 4 20 (5 ∷ 6 ∷ []) (7 ∷ 8 ∷ 9 ∷ []) device (device-CanSend 5 (omega arith))
      (λ e. omega arith) refl

reader-Settles : Settles reader
reader-Settles = record { busy_for = λ h m. 0; less = λ h m k. absurd (k refl) }

has_fence_passed_lem_example : has_fence_passed device 1 ≡ true
unfolding has_fifo_cap
has_fence_passed_lem_example =
    has_fence_passed_lem device 1 1 refl refl (λ e. omega arith) (omega arith) (omega arith)

insert_fence_lem_example :
    (fence : ℕ) × (e : Device ℕ) × (insert_fence reader 4 device ≡ some (fence, e))
    × Sent device (30 ∷ fence ∷ []) e
    × (device.next_fence ≢ 0 → fence ≡ device.next_fence)
    × (device.next_fence ≡ 0 → fence ≡ 1)
    × (e.next_fence ≡ (fence + 1) % 2 ^ 32)
unfolding has_fifo_cap
insert_fence_lem_example = insert_fence_lem reader 4 device (device-CanSend 2 (omega arith)) refl

sync_to_fence_lem_example :
    (e : Device ℕ) × (sync_to_fence reader 1 7 device ≡ some e)
    × ((nat 7 ≡ 0) ⊎ (passed_unguarded e.fifo 7 ≡ true) ⊎ SeenIdle reader e)
unfolding reader-Settles
sync_to_fence_lem_example = sync_to_fence_lem reader 1 7 device reader-Settles (omega arith)

perform2d_lem_example :
    (e : Device ℕ) × (perform reader 4 (fill_cmd 255 (record { x = 1; y = 2; w = 3; h = 4 })) device
      ≡ some (true, e))
    × Sent device (29 ∷ 255 ∷ 1 ∷ 2 ∷ 3 ∷ 4 ∷ 3 ∷ []) e
perform2d_lem_example =
    perform2d_lem reader 4 (fill_cmd 255 (record { x = 1; y = 2; w = 3; h = 4 })) device
      (device-CanSend 7 (omega arith))

fifo_init_lem_example :
    IsValid (fifo_init reader device).fifo
    × (queue (fifo_init reader device).fifo ≡ [])
    × ((f : Device ℕ) × (fill_and_commit
            (7 ∷ [])
            (with_header (5 ∷ []) (fifo_reserve reader 1 8 (fifo_init reader device)))
          ≡ some (true, f))
        × (queue f.fifo ≡ 5 ∷ 7 ∷ []))
fifo_init_lem_example =
    fifo_init_lem reader device 1 8 (5 ∷ []) (7 ∷ []) reader-Drains (λ h m i k. refl) refl
      (omega arith) (omega arith) (omega arith) (omega arith) refl (λ e. omega arith)

ring_doorbell_lem_example :
    ((ring_doorbell reader device).fifo 290 ≢ 0)
    × (ring_doorbell reader (ring_doorbell reader device) ≡ ring_doorbell reader device)
unfolding is_fifo_reg_valid
ring_doorbell_lem_example = ring_doorbell_lem reader device refl (λ h m. (refl, refl))

perform_video_lem_example :
    (e : Device ℕ) × (perform_video reader 4 (regs_in_range 0 (λ i. 10 * i) 3 1) device
      ≡ some (true, e))
    × Sent device (encode_video (regs_in_range 0 (λ i. 10 * i) 3 1)) e
perform_video_lem_example =
    perform_video_lem reader 4 (regs_in_range 0 (λ i. 10 * i) 3 1) device (omega arith)
      (unfold items in (device-CanSend 9 (omega arith)))

-- On the wire, registers 3 and 4.
video_wire :
    encode_video (regs_in_range 0 (λ i. 10 * i) 3 1)
    ≡ 33 ∷ 0 ∷ 24 ∷ 0x20001 ∷ 0 ∷ 3 ∷ 30 ∷ 4 ∷ 40 ∷ []
unfolding items
video_wire = refl

define_alpha_cursor_lem_example :
    (p : Pointer) × (d' : Device ℕ) × (e : Device ℕ) × (begin_define_alpha_cursor reader 4 2 1 4
        device
      ≡ some (some p, d'))
    × (end_define_alpha_cursor 2 1 4 1 0 (put p (0xff ∷ 0xee ∷ []) d') ≡ (true, e))
    × (e.cursor_ptr ≡ none)
    × Sent device (22 ∷ 1 ∷ 1 ∷ 0 ∷ 2 ∷ 1 ∷ 0xff ∷ 0xee ∷ []) e
define_alpha_cursor_lem_example =
    define_alpha_cursor_lem 2 1 4 1 0 reader 4 (0xff ∷ 0xee ∷ []) device refl
      (device-CanSend 8 (omega arith))

-- SetMode on a device whose registers read 0.
mode_set : (write_mode reader 640 480 32 device).width ≡ 640
unfolding write_mode
mode_set = refl

-- A device that is never busy is set to a mode at once.
set_at_once :
    set_mode reader 1 640 480 32 device
    ≡ some (write_mode reader 640 480 32 (write_reg reader device 21 1))
unfolding set_mode sync_fifo wait_idle write_reg read_reg
set_at_once = refl

caps_block : get_3d_caps_block device ≡ some 32
unfolding get_3d_caps_block
caps_block = refl

cursor_hidden : (set_cursor_state reader false 5 6 false device).fifo 10 ≡ 5
unfolding set_cursor_state
cursor_hidden = refl
