-- ===== src/Svga/Regs.antt =====
-- Register numbers, FIFO offsets, capabilities and command numbers that the driver names
-- (kexts/VMsvga2/vminclude/svga_reg.h, svga_escape.h and svga_overlay.h).
use docker_macos.Base.{ℕ, ◌+◌}

-- SVGA_REG_*: device registers
abbrev pub reg_enable : ℕ
reg_enable = 1

abbrev pub reg_width : ℕ
reg_width = 2

abbrev pub reg_height : ℕ
reg_height = 3

abbrev pub reg_bits_per_pixel : ℕ
reg_bits_per_pixel = 7

abbrev pub reg_bytes_per_line : ℕ
reg_bytes_per_line = 12

abbrev pub reg_fb_size : ℕ
reg_fb_size = 16

abbrev pub reg_config_done : ℕ
reg_config_done = 20

abbrev pub reg_sync : ℕ
reg_sync = 21

abbrev pub reg_busy : ℕ
reg_busy = 22

abbrev pub reg_cursor_id : ℕ
reg_cursor_id = 24

abbrev pub reg_cursor_x : ℕ
reg_cursor_x = 25

abbrev pub reg_cursor_y : ℕ
reg_cursor_y = 26

abbrev pub reg_cursor_on : ℕ
reg_cursor_on = 27

abbrev pub reg_gmr_id : ℕ
reg_gmr_id = 41

abbrev pub reg_gmr_descriptor : ℕ
reg_gmr_descriptor = 42

-- SVGA_FIFO_*: dword offsets in the FIFO
abbrev pub fifo_min : ℕ
fifo_min = 0

abbrev pub fifo_max : ℕ
fifo_max = 1

abbrev pub fifo_next_cmd : ℕ
fifo_next_cmd = 2

abbrev pub fifo_stop : ℕ
fifo_stop = 3

abbrev pub fifo_capabilities : ℕ
fifo_capabilities = 4

abbrev pub fifo_fence : ℕ
fifo_fence = 6

abbrev pub fifo_hw_version : ℕ
fifo_hw_version = 7

abbrev pub fifo_cursor_on : ℕ
fifo_cursor_on = 9

abbrev pub fifo_cursor_x : ℕ
fifo_cursor_x = 10

abbrev pub fifo_cursor_y : ℕ
fifo_cursor_y = 11

abbrev pub fifo_cursor_count : ℕ
fifo_cursor_count = 12

abbrev pub fifo_reserved : ℕ
fifo_reserved = 14

abbrev pub fifo_cursor_screen_id : ℕ
fifo_cursor_screen_id = 15

abbrev pub fifo_hw_version_revised : ℕ
fifo_hw_version_revised = 17

abbrev pub fifo_caps : ℕ
fifo_caps = 32

abbrev pub fifo_caps_last : ℕ
fifo_caps_last = 32 + 255

abbrev pub fifo_guest_hw_version : ℕ
fifo_guest_hw_version = 288

abbrev pub fifo_busy : ℕ
fifo_busy = 290

abbrev pub fifo_num_regs : ℕ
fifo_num_regs = 291

-- SVGA_FIFO_CAP_*
abbrev pub fifo_cap_fence : ℕ
fifo_cap_fence = 1

abbrev pub fifo_cap_reserve : ℕ
fifo_cap_reserve = 64

abbrev pub fifo_cap_screen_object : ℕ
fifo_cap_screen_object = 128

abbrev pub fifo_cap_hw_version_revised : ℕ
fifo_cap_hw_version_revised = 256

abbrev pub fifo_cap_screen_object_2 : ℕ
fifo_cap_screen_object_2 = 512

-- SVGA_CAP_*
abbrev pub cap_extended_fifo : ℕ
cap_extended_fifo = 0x8000

abbrev pub cap_gmr : ℕ
cap_gmr = 0x100000

abbrev pub cap_traces : ℕ
cap_traces = 0x200000

abbrev pub cap_gmr2 : ℕ
cap_gmr2 = 0x400000

-- SVGA_CMD_*
abbrev pub cmd_update : ℕ
cmd_update = 1

abbrev pub cmd_rect_copy : ℕ
cmd_rect_copy = 3

abbrev pub cmd_define_alpha_cursor : ℕ
cmd_define_alpha_cursor = 22

abbrev pub cmd_front_rop_fill : ℕ
cmd_front_rop_fill = 29

abbrev pub cmd_fence : ℕ
cmd_fence = 30

abbrev pub cmd_escape : ℕ
cmd_escape = 33

abbrev pub cmd_define_gmr2 : ℕ
cmd_define_gmr2 = 41

abbrev pub cmd_remap_gmr2 : ℕ
cmd_remap_gmr2 = 42

-- Escapes
abbrev pub escape_nsid_vmware : ℕ
escape_nsid_vmware = 0

abbrev pub escape_video_set_regs : ℕ
escape_video_set_regs = 0x20001

abbrev pub escape_video_flush : ℕ
escape_video_flush = 0x20002

-- SVGA_ROP_COPY
abbrev pub rop_copy : ℕ
rop_copy = 3
