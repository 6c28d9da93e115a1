-- ===== src/Framebuffer/Table.antt =====
-- The table of modes and what the framebuffer says of a mode.
use docker_macos.Base.{
  ℕ, zero, suc, ◌+◌, ◌*◌, ◌%◌, ◌≤◌, ◌<◌, ◌≡◌, refl, ◌⊎◌, inl, inr, false, ◌&&◌, none, some, List,
  [], ◌∷◌, ◌==◌, if◌then◌else◌, arith, get_elem?, Option-cases, Bool-cases, ◌∙◌,
}
use docker_macos.Framebuffer.{
  DisplayModeEntry, mode_list, Framebuffer, get_display_mode, detect_loop, tail,
  try_detect_current_display_mode, get_information, get_pixel_information, aligned_bytes_per_row,
}

-- If the width of the mode is below 2 ^ 24, then the information and the pixel information of a mode
-- tell the same size, and a row is a multiple of 32 bytes with room for the width and less than
-- eight pixels more; if there is no such mode both are refused.
pub row_lem :
    (f : Framebuffer) (id : ℕ)
    → ((m : DisplayModeEntry) → get_display_mode f id ≡ some m → m.width < 0x100_0000)
    → ((get_information f id ≡ none) × (get_pixel_information f id 0 0 ≡ none))
      ⊎ ((w : ℕ) × (h : ℕ) × (b : ℕ) × (get_information f id ≡ some (w, h))
          × (get_pixel_information f id 0 0 ≡ some (w, h, b))
          × (b % 32 ≡ 0)
          × (w * 4 ≤ b)
          × (b < (w + 8) * 4))
unfolding get_information get_pixel_information aligned_bytes_per_row
row_lem f id small = elim (Option-cases (get_display_mode f id)) [
  | inl e ↦ inl (rw (e, get_information) refl, rw (e, get_pixel_information) refl)
  | inr (m, e) ↦
      let s : m.width < 0x100_0000 = small m e in
      inr (
        m.width,
        m.height,
        aligned_bytes_per_row m.width,
        rw (e, get_information) refl,
        rw (e, get_pixel_information) refl,
        omega arith,
        omega (arith, s),
        omega (arith, s),
      )
]

-- The mode that is detected when no size fits.
abbrev fallback : List DisplayModeEntry → (i table_default default_mode : ℕ) → ℕ
fallback [] i table_default default_mode =
    if table_default == 0 then default_mode else table_default
fallback (m ∷ ms) i table_default default_mode =
    fallback ms (i + 1) (if m.default then i + 1 else table_default) default_mode

detect_loop_lem :
    (ms : List DisplayModeEntry) (i w h t d : ℕ)
    → ((k : ℕ) × (m : DisplayModeEntry) × (detect_loop ms i w h t d ≡ i + k + 1)
        × (get_elem? ms k ≡ some m)
        × (m.width ≡ w)
        × (m.height ≡ h))
      ⊎ (detect_loop ms i w h t d ≡ fallback ms i t d)
unfolding detect_loop
detect_loop_lem [] i w h t d = inr refl
detect_loop_lem (m ∷ ms) i w h t d = elim (Bool-cases ((w == m.width) && (h == m.height))) [
  | inl fits ↦ inl (
    zero,
    m,
    rw (fits, detect_loop) (omega arith),
    refl,
    ground (arith, fits),
    ground (arith, fits),
  )
  | inr differs ↦ later differs (detect_loop_lem ms (i + 1) w h (if m.default then i + 1 else t) d)
]
  where
    later :
        ((w == m.width) && (h == m.height)) ≡ false
        → (((k : ℕ) × (n : DisplayModeEntry) × (detect_loop ms
                  (i + 1)
                  w
                  h
                  (if m.default then i + 1 else t)
                  d
                ≡ i + 1 + k + 1)
              × (get_elem? ms k ≡ some n)
              × (n.width ≡ w)
              × (n.height ≡ h))
            ⊎ (detect_loop ms (i + 1) w h (if m.default then i + 1 else t) d
                ≡ fallback ms (i + 1) (if m.default then i + 1 else t) d))
        → ((k : ℕ) × (n : DisplayModeEntry) × (detect_loop (m ∷ ms) i w h t d ≡ i + k + 1)
            × (get_elem? (m ∷ ms) k ≡ some n)
            × (n.width ≡ w)
            × (n.height ≡ h))
          ⊎ (detect_loop (m ∷ ms) i w h t d ≡ fallback (m ∷ ms) i t d)
    later differs (inl (k, n, e, g, a, b)) =
        inl (suc k, n, rw (differs, detect_loop) (e ∙ omega arith), g, a, b)
    later differs (inr e) = inr (rw (differs, detect_loop) e)

-- The mode that is detected for a size is a mode of the table behind the first with this size, or
-- mode 3.
pub detect_lem :
    (w h default_mode : ℕ)
    → let id = try_detect_current_display_mode w h default_mode in
      ((k : ℕ) × (m : DisplayModeEntry) × (id ≡ suc (suc k))
        × (get_elem? mode_list (suc k) ≡ some m)
        × (m.width ≡ w)
        × (m.height ≡ h))
      ⊎ (id ≡ 3)
unfolding try_detect_current_display_mode
detect_lem w h default_mode = elim (detect_loop_lem (tail mode_list) 1 w h 0 default_mode) [
  | inl (k, m, e, g, a, b) ↦ inl (k, m, e ∙ omega arith, g, a, b)
  | inr e ↦ inr e
]
