-- ===== src/Patcher/Tests.antt =====
-- The theorems on patcher.cpp at concrete inputs.
use docker_macos.Base.{◌*◌, ◌≤◌, ◌<◌, ◌≡◌, ◌↔◌, ◌⊎◌, true, false, none, some, [], ◌∷◌}
use docker_macos.QemuDisplay.{Information, PixelInformation}
use docker_macos.Patcher.{
  IoKit, Globals, good, bad, not_found, patched_get_information, patched_get_pixel_information,
  patched_get_timing_info, patched_set_display_mode, patched_aperture_size, patched_connect_flags,
}
use docker_macos.Patcher.Queried.{ask, Asked, queried_lem}
use docker_macos.Patcher.Modes.{patched_mode_lem}

abbrev kit : IoKit
kit = record {
  hardware_cursor_attribute = 1;
  connection_enable = 2;
  connection_check_enable = 3;
  connection_flags = 4;
  connection_supports_hlddc_sense = 5;
  connection_supports_apple_sense = 6;
  valid_flag = 1;
  safe_flag = 2;
  default_flag = 4;
}

abbrev globals : Globals
globals = record {
  current_width = 1920;
  current_height = 1080;
  hook_counters = λ i. 0;
  modes_queried = λ i. false;
}

queried_lem_example :
    ((ask kit (1 ∷ 9 ∷ 3 ∷ []) globals).modes_queried 2 ≡ true)
    ↔ ((false ≡ true) ⊎ (Asked 3 (1 ∷ 9 ∷ 3 ∷ []) × (2 < 8)))
queried_lem_example = queried_lem kit (1 ∷ 9 ∷ 3 ∷ []) 2 globals

patched_mode_lem_example :
    (((patched_get_information kit 3 true globals).0 ≡ bad not_found)
      × ((patched_get_pixel_information 3 0 true globals).0 ≡ bad not_found)
      × ((patched_get_timing_info 3 true globals).0 ≡ bad not_found)
      × ((patched_set_display_mode 3 globals).0 ≡ not_found)
      × (patched_aperture_size (patched_set_display_mode 3 globals).1
          ≡ patched_aperture_size globals))
    ⊎ ((1 ≤ 3)
        × (3 ≤ 8)
        × ((i : Information) × (p : PixelInformation) × ((patched_get_information kit 3 true
                globals).0
              ≡ good i)
            × ((patched_get_pixel_information 3 0 true globals).0 ≡ good p)
            × (i.nominal_width ≡ p.active_width)
            × (i.nominal_height ≡ p.active_height)
            × ((patched_connect_flags kit none 3 true globals).0 ≡ (0, some i.flags))
            × ((patched_set_display_mode 3 globals).0 ≡ 0)
            × (patched_aperture_size (patched_set_display_mode 3 globals).1
                ≡ p.bytes_per_row * p.active_height)))
patched_mode_lem_example = patched_mode_lem kit none 3 globals
