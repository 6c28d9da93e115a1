-- ===== src/QemuDisplay/Modes.antt =====
-- The modes of QEMUDisplay: what the methods that take an identifier say of the same mode.
use docker_macos.Base.{
  ℕ, zero, suc, ◌*◌, ◌≤◌, ◌≡◌, ◌≢◌, refl, ◌⊎◌, inl, inr, none, some, arith, Bool, true, false, not,
  Option, if◌then◌else◌,
}
use docker_macos.QemuDisplay.{
  success, bad_argument, ModeInfo, modes, find_mode, Display, Information, PixelInformation, Timing,
  get_information, get_pixel_information, set_display_mode, get_aperture_range, get_timing_info,
}

-- Every identifier is that of one of the five modes, or of none.
abbrev pub Listed : ℕ → ModeInfo → Type 0
Listed id m = (find_mode modes id ≡ some m) × (m.id ≡ id)

pub find_mode-cases : (id : ℕ) → (find_mode modes id ≡ none) ⊎ ((m : ModeInfo) × Listed id m)
unfolding find_mode
find_mode-cases id = ground arith

aperture :
    {R : Type 0} (vram : Bool) (with_sub_range : (start length : ℕ) → Option R) (n : ℕ)
    → (if not vram then none else with_sub_range 0 n) ≡ (if vram then with_sub_range 0 n else none)
aperture true with_sub_range n = refl
aperture false with_sub_range n = refl

-- Whatever the identifier, the methods agree: either there is no such mode, every query is refused
-- and setDisplayMode changes nothing; or the identifier is from 1 to 5, the
-- queries give the size of one mode, and after setDisplayMode the system's aperture is the range from
-- the start of the video memory that holds that many rows of that many bytes, or null if there is no
-- video memory or no such range can be made.
pub mode_lem :
    {R : Type 0} (vram : Bool) (with_sub_range : (start length : ℕ) → Option R) (id : ℕ)
    (d : Display)
    → ((get_information id ≡ none)
        × (get_pixel_information id 0 ≡ none)
        × (get_timing_info id ≡ none)
        × (set_display_mode id d ≡ (bad_argument, d)))
      ⊎ ((1 ≤ id)
          × (id ≤ 5)
          × ((i : Information) × (p : PixelInformation) × (get_information id ≡ some i)
              × (get_pixel_information id 0 ≡ some p)
              × (i.nominal_width ≡ p.active_width)
              × (i.nominal_height ≡ p.active_height)
              × ((set_display_mode id d).0 ≡ success)
              × (get_aperture_range vram with_sub_range 0 (set_display_mode id d).1
                  ≡ (if vram then with_sub_range 0 (p.bytes_per_row * p.active_height) else none))))
unfolding get_information get_pixel_information get_timing_info set_display_mode get_aperture_range
    find_mode
mode_lem vram with_sub_range zero d = inl (refl, refl, refl, refl)
mode_lem vram with_sub_range (suc zero) d =
    inr (
      omega arith,
      omega arith,
      (_, _, refl, refl, refl, refl, refl, aperture vram with_sub_range _),
    )
mode_lem vram with_sub_range (suc (suc zero)) d =
    inr (
      omega arith,
      omega arith,
      (_, _, refl, refl, refl, refl, refl, aperture vram with_sub_range _),
    )
mode_lem vram with_sub_range (suc (suc (suc zero))) d =
    inr (
      omega arith,
      omega arith,
      (_, _, refl, refl, refl, refl, refl, aperture vram with_sub_range _),
    )
mode_lem vram with_sub_range (suc (suc (suc (suc zero)))) d =
    inr (
      omega arith,
      omega arith,
      (_, _, refl, refl, refl, refl, refl, aperture vram with_sub_range _),
    )
mode_lem vram with_sub_range (suc (suc (suc (suc (suc zero))))) d =
    inr (
      omega arith,
      omega arith,
      (_, _, refl, refl, refl, refl, refl, aperture vram with_sub_range _),
    )
mode_lem vram with_sub_range (suc (suc (suc (suc (suc (suc n)))))) d =
    inl (ground arith, ground arith, ground arith, ground arith)

-- If a mode has information and timing, then its pixel clock is width by height by refresh rate,
-- unless it is the fifth, whose clock is twice as much.
pub timing_lem :
    (id : ℕ) (i : Information) (t : Timing)
    → get_information id ≡ some i
    → get_timing_info id ≡ some t
    → ((id ≢ 5)
        × (t.pixel_clock * 0x1_0000 ≡ t.horizontal_active * t.vertical_active * i.refresh_rate))
      ⊎ ((id ≡ 5)
          × (t.pixel_clock * 0x1_0000
              ≡ 2 * (t.horizontal_active * t.vertical_active * i.refresh_rate)))
unfolding get_information get_timing_info find_mode
timing_lem id i t hi ht = ground arith
