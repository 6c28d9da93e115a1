-- ===== src/Framebuffer/Custom.antt =====
-- The custom mode: its limits, and the way back to all modes.
use docker_macos.Base.{
  ℕ, ◌≤◌, ◌≡◌, refl, ◌⊎◌, inl, inr, true, false, ◌&&◌, some, [], ◌∷◌, ◌==◌, arith, Bool-cases,
  Option-cases,
}
use docker_macos.Framebuffer.{
  Framebuffer, get_display_mode, get_display_modes, clamp, request_custom_mode,
}

clamp_lem :
    (lowest highest w : ℕ)
    → lowest ≤ highest
    → (lowest ≤ clamp lowest highest w) × (clamp lowest highest w ≤ highest)
unfolding clamp
clamp_lem lowest highest w h = ground arith

-- If the adapter allows at least 800 by 600, then a request for a custom mode is either dropped,
-- and nothing changes, or leaves a custom mode within 800 by 600 and the adapter's limits, and then the custom mode is the only one that is listed.
pub request_lem :
    (w h max_width max_height : ℕ) (f : Framebuffer)
    → 800 ≤ max_width
    → 600 ≤ max_height
    → let (asked, f') = request_custom_mode w h max_width max_height f in
      ((asked ≡ false) × (f' ≡ f))
      ⊎ ((asked ≡ true)
          × (800 ≤ f'.custom_mode.width)
          × (f'.custom_mode.width ≤ max_width)
          × (600 ≤ f'.custom_mode.height)
          × (f'.custom_mode.height ≤ max_height)
          × (get_display_modes f' ≡ 1 ∷ [])
          × (get_display_mode f' 1 ≡ some f'.custom_mode))
unfolding request_custom_mode get_display_modes get_display_mode
request_lem w h max_width max_height f a b =
    elim (Option-cases (get_display_mode f f.display_mode)) [
      | inl e ↦ rw (e, request_custom_mode) (inl (refl, refl))
      | inr (m, e) ↦
          elim (Bool-cases
            ((clamp 800 max_width w == m.width) && (clamp 600 max_height h == m.height))) [
              | inl same ↦ rw (e, same, request_custom_mode) (inl (refl, refl))
              | inr differs ↦
                  let (wl, wh) = clamp_lem 800 max_width w a in
                  let (hl, hh) = clamp_lem 600 max_height h b in
                  rw (e, differs, request_custom_mode) (inr (refl, wl, wh, hl, hh, refl, refl))
            ]
    ]
