-- ===== src/Accel.antt =====
-- kexts/VMsvga2/AC/VMsvga2Accel.cpp: the 2D blits of the accelerator, from which the methods of
-- SVGADevice are called one rectangle at a time.
pub mod Blits
pub mod Regions
pub mod Surfaces
pub mod Vram
pub mod Chain
pub mod Tests
use docker_macos.Base.{
  ℕ, ◌+◌, ◌-◌, ◌*◌, ◌%◌, ◌/◌, ◌^◌, Bool, true, false, not, Option, none, some, List, [], ◌∷◌, map,
  ltb, ◌==◌, if◌then◌else◌,
}
use docker_macos.Base.Word.{u32, add32, sub32}
use docker_macos.Svga.{Host, Device}
use docker_macos.Svga.Fifo.{Wait}
use docker_macos.Svga.Fifo.Stream.{each}
use docker_macos.Svga.Commands.{Rect, CopyRect, rect_copy, rect_fill, update_framebuffer2}
use docker_macos.Svga.Fence.{ring_doorbell}

-- kIOReturnSuccess and the errors. `unset` is the value of a variable that was not assigned.
pub data Status : Type 0 where
  success bad_argument no_device no_memory unset : Status

-- What HaveFrontBuffer, the pointer to the framebuffer and the option for bounds say.
pub record Accel : Type 0 where
  pub have_front_buffer : Bool
  pub has_framebuffer : Bool
  pub region_bounds_copy : Bool

-- A region of the window server. Coordinates are int16_t, here by their values as uint32_t.
pub record Region : Type 0 where
  pub bounds : Rect
  pub rects : List Rect

-- `static_cast<int16_t>`, back as a uint32_t.
abbrev pub int16 : ℕ → ℕ
int16 v = let low = v % 2 ^ 16 in if ltb low (2 ^ 15) then low else u32 - 2 ^ 16 + low

abbrev pub short_rect : (x y w h : ℕ) → Rect
short_rect x y w h = record { x = int16 x; y = int16 y; w = int16 w; h = int16 h }

unfoldable pub set_region : (x y w h : ℕ) → Region
set_region x y w h = record { bounds = short_rect x y w h; rects = short_rect x y w h ∷ [] }

-- `rc ? kIOReturnSuccess : kIOReturnNoMemory`
abbrev pub answer : {H : Type 0} → Option (Bool × Device H) → Option (Status × Device H)
answer none = none
answer (some (true, d)) = some (success, d)
answer (some (false, d)) = some (no_memory, d)

-- The rectangle that is copied: from `rect` to where it lies when the bounds are moved.
abbrev pub moved : (dest_x dest_y : ℕ) → Rect → Rect → CopyRect
moved dest_x dest_y bounds rect = record {
  src_x = rect.x;
  src_y = rect.y;
  dest_x = add32 rect.x (sub32 dest_x bounds.x);
  dest_y = add32 rect.y (sub32 dest_y bounds.y);
  w = rect.w;
  h = rect.h;
}

abbrev pub moved_bounds : (dest_x dest_y : ℕ) → Rect → CopyRect
moved_bounds dest_x dest_y bounds = record {
  src_x = bounds.x;
  src_y = bounds.y;
  dest_x = dest_x;
  dest_y = dest_y;
  w = bounds.w;
  h = bounds.h;
}

module _ {H : Type 0} (host : Host H) (fuel : ℕ) (a : Accel) where
  -- The loop over the rectangles leaves `rc` unset when there are none.
  unfoldable pub copy_rects : (dest_x dest_y : ℕ) → Region → Wait H Status
  copy_rects dest_x dest_y region d = elim region.rects [
    | [] ↦ some (unset, d)
    | r ∷ rs ↦
        answer (each (rect_copy host fuel) (map (moved dest_x dest_y region.bounds) (r ∷ rs)) d)
  ]

  -- `none` is a null pointer or a size that is too small.
  unfoldable pub copy_region : (dest_x dest_y : ℕ) → Option Region → Wait H Status
  copy_region dest_x dest_y none d = some (bad_argument, d)
  copy_region dest_x dest_y (some region) d =
      if a.have_front_buffer
      then some (success, d)
      else if not a.has_framebuffer
      then some (no_device, d)
      else if a.region_bounds_copy
      then answer (rect_copy host fuel (moved_bounds dest_x dest_y region.bounds) d)
      else copy_rects dest_x dest_y region d

  -- With a front buffer, the rectangles go through CopyRegion; the first error ends the loop.
  unfoldable pub copy_regions : List CopyRect → Wait H Status
  copy_regions [] d = some (success, d)
  copy_regions (r ∷ rs) d =
      elim (copy_region r.dest_x r.dest_y (some (set_region r.src_x r.src_y r.w r.h)) d) [
        | none ↦ none
        | some (success, e) ↦ copy_regions rs e
        | some (s, e) ↦ some (s, e)
      ]

  -- RectCopy; the list is empty too where the pointer is null.
  unfoldable pub blit_copy : List CopyRect → Wait H Status
  blit_copy [] d = some (bad_argument, d)
  blit_copy (r ∷ rs) d =
      if a.have_front_buffer
      then copy_regions (r ∷ rs) d
      else if not a.has_framebuffer
      then some (no_device, d)
      else answer (each (rect_copy host fuel) (r ∷ rs) d)

  -- RectFill
  unfoldable pub blit_fill : (color : ℕ) → List Rect → Wait H Status
  blit_fill color [] d = some (bad_argument, d)
  blit_fill color (r ∷ rs) d =
      if not a.has_framebuffer
      then some (no_device, d)
      else answer (each (rect_fill host fuel color) (r ∷ rs) d)

  -- What UpdateFramebuffer2 answers is not looked at.
  unfoldable pub update_framebuffer_auto_ring : Option Rect → Wait H Status
  update_framebuffer_auto_ring none d = some (bad_argument, d)
  update_framebuffer_auto_ring (some rect) d =
      if a.have_front_buffer
      then some (success, d)
      else if not a.has_framebuffer
      then some (no_device, d)
      else elim (update_framebuffer2 host fuel rect d) [
        | none ↦ none
        | some (rc, e) ↦ some (success, ring_doorbell host e)
      ]
