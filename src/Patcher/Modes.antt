-- ===== src/Patcher/Modes.antt =====
-- The modes of patcher.cpp: what the hooks that take an identifier say of the same mode.
use docker_macos.Base.{ℕ, zero, suc, ◌*◌, ◌≤◌, ◌≡◌, refl, ◌⊎◌, inl, inr, true, Option, some, arith}
use docker_macos.QemuDisplay.{Information, PixelInformation, find_mode}
use docker_macos.Patcher.{
  IoKit, Globals, good, bad, not_found, find_index, count_call, Original, patched_get_information,
  patched_get_pixel_information, patched_set_display_mode, patched_get_timing_info,
  patched_aperture_size, patched_connect_flags,
}

-- Whatever the identifier, the hooks agree: either there is no such mode, every query is refused
-- and setDisplayMode leaves the size of the aperture; or the identifier is from 1 to 8, the queries
-- give the size of one mode, connectFlags stores the flags of its information without asking the
-- original, and after setDisplayMode the aperture holds that many rows of that many bytes.
pub patched_mode_lem :
    (k : IoKit) (original : Option Original) (id : ℕ) (g : Globals)
    → (((patched_get_information k id true g).0 ≡ bad not_found)
        × ((patched_get_pixel_information id 0 true g).0 ≡ bad not_found)
        × ((patched_get_timing_info id true g).0 ≡ bad not_found)
        × ((patched_set_display_mode id g).0 ≡ not_found)
        × (patched_aperture_size (patched_set_display_mode id g).1 ≡ patched_aperture_size g))
      ⊎ ((1 ≤ id)
          × (id ≤ 8)
          × ((i : Information) × (p : PixelInformation) × ((patched_get_information k id true g).0
                ≡ good i)
              × ((patched_get_pixel_information id 0 true g).0 ≡ good p)
              × (i.nominal_width ≡ p.active_width)
              × (i.nominal_height ≡ p.active_height)
              × ((patched_connect_flags k original id true g).0 ≡ (0, some i.flags))
              × ((patched_set_display_mode id g).0 ≡ 0)
              × (patched_aperture_size (patched_set_display_mode id g).1
                  ≡ p.bytes_per_row * p.active_height)))
unfolding patched_get_information patched_get_pixel_information patched_set_display_mode
    patched_get_timing_info patched_aperture_size patched_connect_flags find_index count_call
    find_mode
patched_mode_lem k original zero g = inl (refl, refl, refl, refl, refl)
patched_mode_lem k original (suc zero) g =
    inr (omega arith, omega arith, (_, _, refl, refl, refl, refl, refl, refl, refl))
patched_mode_lem k original (suc (suc zero)) g =
    inr (omega arith, omega arith, (_, _, refl, refl, refl, refl, refl, refl, refl))
patched_mode_lem k original (suc (suc (suc zero))) g =
    inr (omega arith, omega arith, (_, _, refl, refl, refl, refl, refl, refl, refl))
patched_mode_lem k original (suc (suc (suc (suc zero)))) g =
    inr (omega arith, omega arith, (_, _, refl, refl, refl, refl, refl, refl, refl))
patched_mode_lem k original (suc (suc (suc (suc (suc zero))))) g =
    inr (omega arith, omega arith, (_, _, refl, refl, refl, refl, refl, refl, refl))
patched_mode_lem k original (suc (suc (suc (suc (suc (suc zero)))))) g =
    inr (omega arith, omega arith, (_, _, refl, refl, refl, refl, refl, refl, refl))
patched_mode_lem k original (suc (suc (suc (suc (suc (suc (suc zero))))))) g =
    inr (omega arith, omega arith, (_, _, refl, refl, refl, refl, refl, refl, refl))
patched_mode_lem k original (suc (suc (suc (suc (suc (suc (suc (suc zero)))))))) g =
    inr (omega arith, omega arith, (_, _, refl, refl, refl, refl, refl, refl, refl))
patched_mode_lem k original (suc (suc (suc (suc (suc (suc (suc (suc (suc n))))))))) g =
    inl (ground arith, ground arith, ground arith, ground arith, ground arith)
