-- ===== src/Patcher/Hooks.antt =====
-- The hooks of patcher.cpp as calls, and what each call leaves of the globals.
use docker_macos.Base.{ℕ, ◌≡◌, ◌≢◌, Bool, Option, List, arith, ◌==◌, if◌then◌else◌}
use docker_macos.Base.Word.{add32}
use docker_macos.Patcher.{
  IoKit, Globals, Original, count_call, mark, patched_has_ddc_connect, patched_get_ddc_block,
  patched_set_gamma_table, patched_set_attribute_for_connection, patched_get_display_mode_count,
  patched_get_display_modes, patched_get_information, patched_get_pixel_information,
  patched_get_current_display_mode, patched_set_display_mode,
  patched_get_pixel_formats_for_display_mode, patched_get_timing_info, patched_get_connection_count,
  patched_get_attribute, patched_get_attribute_for_connection, patched_register_for_interrupt_type,
  patched_unregister_interrupt, patched_set_interrupt_state, patched_connect_flags,
}

pub data Call : Type 0 where
  has_ddc_connect_call : Call
  get_ddc_block_call : (bn : ℕ) (has_data : Bool) (room : Option ℕ) → Call
  set_gamma_table_call : Call
  set_attribute_for_connection_call : Call
  get_display_mode_count_call : Call
  get_display_modes_call : (all_modes : Bool) → Call
  get_information_call : (id : ℕ) (info : Bool) → Call
  get_pixel_information_call : (id depth : ℕ) (info : Bool) → Call
  get_current_display_mode_call : Call
  set_display_mode_call : (id : ℕ) → Call
  get_pixel_formats_for_display_mode_call : Call
  get_timing_info_call : (id : ℕ) (info : Bool) → Call
  get_connection_count_call : Call
  get_attribute_call : (attr : ℕ) → Call
  get_attribute_for_connection_call : (attr : ℕ) → Call
  register_for_interrupt_type_call : (type : ℕ) → Call
  unregister_interrupt_call : Call
  set_interrupt_state_call : Call
  connect_flags_call : (id : ℕ) (flags : Bool) → Call

-- The enumeration QDPHook.
abbrev pub hook_number : Call → ℕ
hook_number has_ddc_connect_call = 1
hook_number (get_ddc_block_call bn has_data room) = 2
hook_number set_gamma_table_call = 3
hook_number set_attribute_for_connection_call = 5
hook_number get_display_mode_count_call = 8
hook_number (get_display_modes_call all_modes) = 9
hook_number (get_information_call id info) = 10
hook_number (get_pixel_information_call id depth info) = 11
hook_number get_current_display_mode_call = 12
hook_number (set_display_mode_call id) = 13
hook_number get_pixel_formats_for_display_mode_call = 14
hook_number (get_timing_info_call id info) = 15
hook_number get_connection_count_call = 16
hook_number (get_attribute_call attr) = 18
hook_number (get_attribute_for_connection_call attr) = 19
hook_number (register_for_interrupt_type_call type) = 20
hook_number unregister_interrupt_call = 21
hook_number set_interrupt_state_call = 22
hook_number (connect_flags_call id flags) = 23

-- The blocks of the EDID, the numbers of IOKit and the original method are arguments.
unfoldable pub call : (b0 b1 : List ℕ) → IoKit → Option Original → Call → Globals → Globals
call b0 b1 k original has_ddc_connect_call g = (patched_has_ddc_connect g).1
call b0 b1 k original (get_ddc_block_call bn has_data room) g =
    (patched_get_ddc_block b0 b1 bn has_data room g).1
call b0 b1 k original set_gamma_table_call g = (patched_set_gamma_table g).1
call b0 b1 k original set_attribute_for_connection_call g =
    (patched_set_attribute_for_connection g).1
call b0 b1 k original get_display_mode_count_call g = (patched_get_display_mode_count g).1
call b0 b1 k original (get_display_modes_call all_modes) g =
    (patched_get_display_modes all_modes g).1
call b0 b1 k original (get_information_call id info) g = (patched_get_information k id info g).1
call b0 b1 k original (get_pixel_information_call id depth info) g =
    (patched_get_pixel_information id depth info g).1
call b0 b1 k original get_current_display_mode_call g = (patched_get_current_display_mode g).1
call b0 b1 k original (set_display_mode_call id) g = (patched_set_display_mode id g).1
call b0 b1 k original get_pixel_formats_for_display_mode_call g =
    (patched_get_pixel_formats_for_display_mode g).1
call b0 b1 k original (get_timing_info_call id info) g = (patched_get_timing_info id info g).1
call b0 b1 k original get_connection_count_call g = (patched_get_connection_count g).1
call b0 b1 k original (get_attribute_call attr) g = (patched_get_attribute k original attr g).1
call b0 b1 k original (get_attribute_for_connection_call attr) g =
    (patched_get_attribute_for_connection k original attr g).1
call b0 b1 k original (register_for_interrupt_type_call type) g =
    (patched_register_for_interrupt_type type g).1
call b0 b1 k original unregister_interrupt_call g = (patched_unregister_interrupt g).1
call b0 b1 k original set_interrupt_state_call g = (patched_set_interrupt_state g).1
call b0 b1 k original (connect_flags_call id flags) g =
    (patched_connect_flags k original id flags g).1

-- Every hook counts its call in its own slot, modulo 2 ^ 32, and in no other; the size of the mode
-- changes only in setDisplayMode.
pub call_lem :
    (b0 b1 : List ℕ) (k : IoKit) (original : Option Original) (c : Call) (g : Globals)
    → ((i : ℕ)
        → (call b0 b1 k original c g).hook_counters i
          ≡ (if i == hook_number c then add32 (g.hook_counters i) 1 else g.hook_counters i))
      × (hook_number c ≢ 13
          → ((call b0 b1 k original c g).current_width ≡ g.current_width)
            × ((call b0 b1 k original c g).current_height ≡ g.current_height))
unfolding call count_call mark patched_has_ddc_connect patched_get_ddc_block patched_set_gamma_table
    patched_set_attribute_for_connection patched_get_display_mode_count patched_get_display_modes
    patched_get_information patched_get_pixel_information patched_get_current_display_mode
    patched_set_display_mode patched_get_pixel_formats_for_display_mode patched_get_timing_info
    patched_get_connection_count patched_get_attribute patched_get_attribute_for_connection
    patched_register_for_interrupt_type patched_unregister_interrupt patched_set_interrupt_state
    patched_connect_flags
call_lem b0 b1 k original has_ddc_connect_call g = (λ i. ground arith, λ h. ground arith)
call_lem b0 b1 k original (get_ddc_block_call bn has_data room) g =
    (λ i. ground arith, λ h. ground arith)
call_lem b0 b1 k original set_gamma_table_call g = (λ i. ground arith, λ h. ground arith)
call_lem b0 b1 k original set_attribute_for_connection_call g =
    (λ i. ground arith, λ h. ground arith)
call_lem b0 b1 k original get_display_mode_count_call g = (λ i. ground arith, λ h. ground arith)
call_lem b0 b1 k original (get_display_modes_call all_modes) g =
    (λ i. ground arith, λ h. ground arith)
call_lem b0 b1 k original (get_information_call id info) g = (λ i. ground arith, λ h. ground arith)
call_lem b0 b1 k original (get_pixel_information_call id depth info) g =
    (λ i. ground arith, λ h. ground arith)
call_lem b0 b1 k original get_current_display_mode_call g = (λ i. ground arith, λ h. ground arith)
call_lem b0 b1 k original (set_display_mode_call id) g = (λ i. ground arith, λ h. ground arith)
call_lem b0 b1 k original get_pixel_formats_for_display_mode_call g =
    (λ i. ground arith, λ h. ground arith)
call_lem b0 b1 k original (get_timing_info_call id info) g = (λ i. ground arith, λ h. ground arith)
call_lem b0 b1 k original get_connection_count_call g = (λ i. ground arith, λ h. ground arith)
call_lem b0 b1 k original (get_attribute_call attr) g = (λ i. ground arith, λ h. ground arith)
call_lem b0 b1 k original (get_attribute_for_connection_call attr) g =
    (λ i. ground arith, λ h. ground arith)
call_lem b0 b1 k original (register_for_interrupt_type_call type) g =
    (λ i. ground arith, λ h. ground arith)
call_lem b0 b1 k original unregister_interrupt_call g = (λ i. ground arith, λ h. ground arith)
call_lem b0 b1 k original set_interrupt_state_call g = (λ i. ground arith, λ h. ground arith)
call_lem b0 b1 k original (connect_flags_call id flags) g = (λ i. ground arith, λ h. ground arith)
