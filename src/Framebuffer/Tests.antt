-- ===== src/Framebuffer/Tests.antt =====
-- The theorems on the framebuffer's modes at concrete inputs, and runs of the other methods.
use docker_macos.Base.{◌≤◌, ◌≡◌, refl, ◌⊎◌, true, false, none, some, [], ◌∷◌, arith}
use docker_macos.Framebuffer.{
  entry, Framebuffer, get_display_mode, get_display_modes, get_display_mode_count, find_slot,
  restore_all_modes, request_custom_mode, note_display_mode, convert_pixel, convert_alpha_cursor,
}
use docker_macos.Framebuffer.Custom.{request_lem}

-- Five modes are active, and the current one is 1024 by 768.
abbrev framebuffer : Framebuffer
framebuffer = record {
  num_active_modes = 5;
  modes = 1 ∷ 2 ∷ 3 ∷ 4 ∷ 5 ∷ [];
  display_mode = 3;
  custom_switch = 0;
  custom_mode_switched = false;
  custom_mode = entry 800 600 false;
}

abbrev waiting : Framebuffer
waiting = record framebuffer { custom_switch = 2 }

request_lem_example :
    (((request_custom_mode 100 5000 1920 1200 framebuffer).0 ≡ false)
      × ((request_custom_mode 100 5000 1920 1200 framebuffer).1 ≡ framebuffer))
    ⊎ (((request_custom_mode 100 5000 1920 1200 framebuffer).0 ≡ true)
        × (800 ≤ (request_custom_mode 100 5000 1920 1200 framebuffer).1.custom_mode.width)
        × ((request_custom_mode 100 5000 1920 1200 framebuffer).1.custom_mode.width ≤ 1920)
        × (600 ≤ (request_custom_mode 100 5000 1920 1200 framebuffer).1.custom_mode.height)
        × ((request_custom_mode 100 5000 1920 1200 framebuffer).1.custom_mode.height ≤ 1200)
        × (get_display_modes (request_custom_mode 100 5000 1920 1200 framebuffer).1 ≡ 1 ∷ [])
        × (get_display_mode (request_custom_mode 100 5000 1920 1200 framebuffer).1 1
            ≡ some (request_custom_mode 100 5000 1920 1200 framebuffer).1.custom_mode))
request_lem_example = request_lem 100 5000 1920 1200 framebuffer (omega arith) (omega arith)

-- The first mode that is not 800 by 600 is in slot 2; the next setDisplayMode only notes the mode.
restore_test :
    ((restore_all_modes waiting).modes ≡ 3 ∷ 2 ∷ 1 ∷ 4 ∷ 5 ∷ [])
    × (get_display_mode_count (restore_all_modes waiting) ≡ 5)
    × (get_display_mode_count waiting ≡ 1)
    × (note_display_mode 3 framebuffer ≡ none)
unfolding restore_all_modes find_slot get_display_mode get_display_mode_count note_display_mode
restore_test = (refl, refl, refl, refl)

cursor_test : convert_alpha_cursor (0x80ff_4020 ∷ 0x12_3456 ∷ []) ≡ 0x8080_2010 ∷ 0x12_3456 ∷ []
unfolding convert_alpha_cursor convert_pixel
cursor_test = refl
