-- ===== src/Accel/Blits.antt =====
-- The blits send one command for each rectangle, in order.
use docker_macos.Base.{
  ℕ, ◌+◌, ◌-◌, ◌%◌, ◌^◌, ◌≡◌, ◌≢◌, refl, ap, ◌∙◌, ◌++◌, true, false, some, List, [], ◌∷◌, map,
  arith,
}
use docker_macos.Svga.{Host, Device}
use docker_macos.Svga.Fifo.Stream.{
  each, each_lem, wire, Streamed, CanStream, CanStream-CanSend, none-Streamed,
}
use docker_macos.Svga.Commands.{Rect, CopyRect, rect_copy, rect_fill}
use docker_macos.Svga.Commands.Sent.{copy_cmd, fill_cmd, perform, perform2d_lem}
use docker_macos.Accel.{
  Status, success, unset, Accel, Region, moved, copy_region, copy_rects, blit_copy, blit_fill,
}

-- The commands on the wire.
abbrev pub copy_code : CopyRect → List ℕ
copy_code r = 3 ∷ r.src_x ∷ r.src_y ∷ r.dest_x ∷ r.dest_y ∷ r.w ∷ r.h ∷ []

abbrev pub fill_code : ℕ → Rect → List ℕ
fill_code color r = 29 ∷ color ∷ r.x ∷ r.y ∷ r.w ∷ r.h ∷ 3 ∷ []

-- A rectangle of a region whose bounds `b` go to a place: the source is the rectangle, and what the
-- place lies away from the bounds is added to its corner, as uint32_t.
abbrev pub shifted_code : (dest_x dest_y : ℕ) → Rect → Rect → List ℕ
shifted_code dest_x dest_y b r =
    3
    ∷ r.x
    ∷ r.y
    ∷ ((r.x + (dest_x + 2 ^ 32 - b.x)) % 2 ^ 32)
    ∷ ((r.y + (dest_y + 2 ^ 32 - b.y)) % 2 ^ 32)
    ∷ r.w
    ∷ r.h
    ∷ []

shifted-moved :
    (dest_x dest_y : ℕ) (b r : Rect)
    → copy_code (moved dest_x dest_y b r) ≡ shifted_code dest_x dest_y b r
shifted-moved dest_x dest_y b r =
    let x : (r.x + (dest_x + 2 ^ 32 - b.x) % 2 ^ 32) % 2 ^ 32
        ≡ (r.x + (dest_x + 2 ^ 32 - b.x)) % 2 ^ 32 =
      omega arith in
    let y : (r.y + (dest_y + 2 ^ 32 - b.y) % 2 ^ 32) % 2 ^ 32
        ≡ (r.y + (dest_y + 2 ^ 32 - b.y)) % 2 ^ 32 =
      omega arith in
    rw (x, y)

wire-moved :
    (dest_x dest_y : ℕ) (b : Rect) (rs : List Rect)
    → wire copy_code (map (moved dest_x dest_y b) rs) ≡ wire (shifted_code dest_x dest_y b) rs
wire-moved dest_x dest_y b [] = refl
wire-moved dest_x dest_y b (r ∷ rs) =
    ap (λ xs. xs ++ wire copy_code (map (moved dest_x dest_y b) rs))
      (shifted-moved dest_x dest_y b r)
    ∙ ap (λ ys. shifted_code dest_x dest_y b r ++ ys) (wire-moved dest_x dest_y b rs)

module _ {H : Type 0} (host : Host H) (fuel : ℕ) where
  copies :
      (rs : List CopyRect) (d : Device H)
      → CanStream host fuel d 7
      → (e : Device H) × (each (rect_copy host fuel) rs d ≡ some (true, e))
        × Streamed d (wire copy_code rs) e
  copies = each_lem host fuel 7 (rect_copy host fuel) copy_code (λ r d c.
      unfold perform in
      (perform2d_lem host fuel (copy_cmd r) d (CanStream-CanSend 7 (omega arith) c)))

  fills :
      (color : ℕ) (rs : List Rect) (d : Device H)
      → CanStream host fuel d 7
      → (e : Device H) × (each (rect_fill host fuel color) rs d ≡ some (true, e))
        × Streamed d (wire (fill_code color) rs) e
  fills color = each_lem host fuel 7 (rect_fill host fuel color) (fill_code color) (λ r d c.
      unfold perform in
      (perform2d_lem host fuel (fill_cmd color r) d (CanStream-CanSend 7 (omega arith) c)))

  module _ (a : Accel) (ready : a.has_framebuffer ≡ true) where
    -- With a framebuffer, RectFill fills every rectangle of a list that is not empty, in order.
    pub blit_fill_lem :
        (color : ℕ) (r : Rect) (rs : List Rect) (d : Device H)
        → CanStream host fuel d 7
        → (e : Device H) × (blit_fill host fuel a color (r ∷ rs) d ≡ some (success, e))
          × Streamed d (wire (fill_code color) (r ∷ rs)) e
    unfolding blit_fill
    blit_fill_lem color r rs d c =
        let (e, q, s) = fills color (r ∷ rs) d c in (e, rw (ready, q) refl, s)

    module _ (direct : a.have_front_buffer ≡ false) where
      -- With a framebuffer and no front buffer, RectCopy copies every rectangle of a list that is
      -- not empty, in order.
      pub blit_copy_lem :
          (r : CopyRect) (rs : List CopyRect) (d : Device H)
          → CanStream host fuel d 7
          → (e : Device H) × (blit_copy host fuel a (r ∷ rs) d ≡ some (success, e))
            × Streamed d (wire copy_code (r ∷ rs)) e
      unfolding blit_copy
      blit_copy_lem r rs d c =
          let (e, q, s) = copies (r ∷ rs) d c in (e, rw (direct, ready, q) refl, s)

      by_rects :
          (dest_x dest_y : ℕ) (b : Rect) (rs : List Rect) (d : Device H)
          → a.region_bounds_copy ≡ false
          → CanStream host fuel d 7
          → (e : Device H) × (s : Status) × (copy_region host fuel a dest_x dest_y
                (some (record { bounds = b; rects = rs }))
                d
              ≡ some (s, e))
            × Streamed d (wire copy_code (map (moved dest_x dest_y b) rs)) e
            × (rs ≡ [] → s ≡ unset)
            × (rs ≢ [] → s ≡ success)
      unfolding copy_region copy_rects
      by_rects dest_x dest_y b [] d piecewise c =
          let (e, q, s) = copies [] d c in
          (
            d,
            unset,
            rw (direct, ready, piecewise) refl,
            none-Streamed d c,
            λ e. refl,
            λ h. absurd (h refl),
          )
      by_rects dest_x dest_y b (r ∷ rs) d piecewise c =
          let (e, q, s) = copies (map (moved dest_x dest_y b) (r ∷ rs)) d c in
          (
            e,
            success,
            rw (direct, ready, piecewise, q) refl,
            s,
            λ h. absurd (ground arith),
            λ h. refl,
          )

      -- With a framebuffer, no front buffer and without the option for bounds, CopyRegion moves every
      -- rectangle of a region that has some by the way from the bounds to the destination, in order:
      -- the copy of a rectangle goes to its corner plus the destination less the corner of the bounds,
      -- in 32 bits. For a region that has none it sends nothing, and what it returns was never set.
      pub copy_region_lem :
          (dest_x dest_y : ℕ) (region : Region) (d : Device H)
          → a.region_bounds_copy ≡ false
          → CanStream host fuel d 7
          → (e : Device H) × (s : Status) × (copy_region host fuel a dest_x dest_y (some region) d
              ≡ some (s, e))
            × Streamed d (wire (shifted_code dest_x dest_y region.bounds) region.rects) e
            × (region.rects ≡ [] → s ≡ unset)
            × (region.rects ≢ [] → s ≡ success)
      copy_region_lem dest_x dest_y region d piecewise c =
          rw (← wire-moved dest_x dest_y region.bounds region.rects)
            (by_rects dest_x dest_y region.bounds region.rects d piecewise c)
