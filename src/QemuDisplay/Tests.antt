-- ===== src/QemuDisplay/Tests.antt =====
-- The theorems on QEMUDisplay at concrete inputs.
use docker_macos.Base.{ℕ, ◌*◌, ◌≤◌, ◌≡◌, ◌≢◌, ◌⊎◌, refl, true, none, some, nat}
use docker_macos.QemuDisplay.{
  Display, Information, PixelInformation, Timing, success, bad_argument, get_information,
  get_pixel_information, get_timing_info, get_aperture_range, set_display_mode, find_mode,
}
use docker_macos.QemuDisplay.Modes.{mode_lem, timing_lem}

abbrev display : Display
display = record {
  vram_size = 0;
  max_width = 0;
  max_height = 0;
  current_width = 1920;
  current_height = 1080;
  connect_proc = none;
}

mode_lem_example :
    ((get_information 5 ≡ none)
      × (get_pixel_information 5 0 ≡ none)
      × (get_timing_info 5 ≡ none)
      × (set_display_mode 5 display ≡ (bad_argument, display)))
    ⊎ ((1 ≤ 5)
        × (5 ≤ 5)
        × ((i : Information) × (p : PixelInformation) × (get_information 5 ≡ some i)
            × (get_pixel_information 5 0 ≡ some p)
            × (i.nominal_width ≡ p.active_width)
            × (i.nominal_height ≡ p.active_height)
            × ((set_display_mode 5 display).0 ≡ success)
            × (get_aperture_range {R = ℕ × ℕ} true
                  (λ start length. some (start, length))
                  0
                  (set_display_mode 5 display).1
                ≡ some (0, p.bytes_per_row * p.active_height))))
mode_lem_example = mode_lem {R = ℕ × ℕ} true (λ start length. some (start, length)) 5 display

abbrev information : Information
information = record {
  max_depth_index = 0;
  nominal_width = 3840;
  nominal_height = 2160;
  refresh_rate = 30 * 0x1_0000;
  flags = 0;
}

abbrev timing : Timing
timing = record { horizontal_active = 3840; vertical_active = 2160; pixel_clock = 3840 * 2160 * 60 }

timing_lem_example :
    ((nat 5 ≢ 5) × (3840 * 2160 * 60 * 0x1_0000 ≡ 3840 * 2160 * (30 * 0x1_0000)))
    ⊎ ((nat 5 ≡ 5) × (3840 * 2160 * 60 * 0x1_0000 ≡ 2 * (3840 * 2160 * (30 * 0x1_0000))))
unfolding get_information find_mode get_timing_info
timing_lem_example = timing_lem 5 information timing refl refl
