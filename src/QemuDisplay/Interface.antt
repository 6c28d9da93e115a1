-- ===== src/QemuDisplay/Interface.antt =====
-- QEMUDisplay: the list of modes, the first mode and the handles of interrupts.
use docker_macos.Base.{
  ℕ, ◌<◌, ◌≡◌, ◌≢◌, ◌↔◌, refl, Bool, Option, ◌⊎◌, none, some, List, [], ◌∷◌, length, arith,
}
use docker_macos.QemuDisplay.{
  Display, find_mode, init_device, get_display_mode_count, get_display_modes, get_information,
  get_current_display_mode, set_display_mode, get_aperture_range, register_for_interrupt_type,
}

abbrev pub Listed : ℕ → List ℕ → Type 0
Listed id [] = ⊥
Listed id (i ∷ is) = (i ≡ id) ⊎ Listed id is

-- The identifiers of getDisplayModes, of which there are getDisplayModeCount, are those that
-- getInformationForDisplayMode knows.
pub listed_lem :
    (length get_display_modes ≡ get_display_mode_count)
    × ((id : ℕ) → Listed id get_display_modes ↔ (get_information id ≢ none))
unfolding get_display_modes get_display_mode_count get_information find_mode
listed_lem = (refl, λ id. ground arith)

-- Whatever the registers say, after initDevice the aperture is that of the mode that
-- getCurrentDisplayMode answers.
pub init_lem :
    {R : Type 0} (vram : Bool) (with_sub_range : (start length : ℕ) → Option R) (read_reg : ℕ → ℕ)
    (d : Display)
    → let e = init_device read_reg d in
      get_aperture_range vram with_sub_range 0 e
      ≡ get_aperture_range vram with_sub_range 0
          (set_display_mode (get_current_display_mode e).0 e).1
unfolding init_device get_aperture_range set_display_mode get_current_display_mode find_mode
init_lem vram with_sub_range read_reg d = refl

-- The handles of different interrupt types, below the last number of 32 bits, are different and not
-- 0; the handler is kept exactly for the connect interrupt.
pub interrupt_lem :
    (connect t u proc : ℕ) (d : Display)
    → t < 0xffff_ffff
    → u < 0xffff_ffff
    → ((register_for_interrupt_type connect t proc d).0 ≢ 0)
      × ((register_for_interrupt_type connect t proc d).0
            ≡ (register_for_interrupt_type connect u proc d).0
          → t ≡ u)
      × (t ≡ connect → (register_for_interrupt_type connect t proc d).1.connect_proc ≡ some proc)
      × (t ≢ connect → (register_for_interrupt_type connect t proc d).1 ≡ d)
unfolding register_for_interrupt_type
interrupt_lem connect t u proc d ht hu =
    (λ e. omega arith, λ e. omega arith, λ e. ground arith, λ e. ground arith)
