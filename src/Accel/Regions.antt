-- ===== src/Accel/Regions.antt =====
-- createGMR2, destroyGMR and destroyGMR2 of VMsvga2Accel.cpp: guest memory regions by lists of pages.
use docker_macos.Base.{
  ℕ, zero, suc, ◌+◌, ◌-◌, ◌*◌, get_or, ◌/◌, ◌%◌, ◌^◌, ◌<◌, ◌≡◌, Bool, true, false, not, Option,
  none, some, List, [], ◌∷◌, ◌++◌, ltb, leb, ◌==◌, if◌then◌else◌,
}
use docker_macos.Base.Word.{u32}
use docker_macos.Svga.{Host, Device, has_capability}
use docker_macos.Svga.Regs.{cap_gmr, cap_gmr2}
use docker_macos.Svga.Fifo.{Wait}
use docker_macos.Svga.Commands.{define_gmr, define_gmr2, remap_gmr2}

pub data GmrStatus : Type 0 where
  success bad_argument no_device unsupported no_memory device_error : GmrStatus

-- A physical segment of a memory descriptor: its address and its length.
abbrev pub Segment : Type 0
Segment = ℕ × ℕ

abbrev pub count_from : (first count : ℕ) → List ℕ
count_from first zero = []
count_from first (suc n) = (first % u32) ∷ count_from (first + 1) n

-- The pages that a segment touches.
abbrev pub segment_pages : Segment → ℕ
segment_pages (phys, len) = (len + phys % 4096 + 4095) / 4096

abbrev pub total : List Segment → ℕ
total [] = 0
total ((phys, len) ∷ ss) = len + total ss

-- The loop over the segments: the page numbers, or `none` for an address of more than 44 bits.
unfoldable pub page_list : List Segment → Option (List ℕ)
page_list [] = some []
page_list ((phys, len) ∷ ss) =
    let rest = page_list ss in
    if leb (2 ^ 44) phys then none else elim rest [
      | none ↦ none
      | some ps ↦ some (count_from (phys / 4096) (segment_pages (phys, len)) ++ ps)
    ]

-- What createGMR2 finds: the pointer to the framebuffer, the limit on pages, and whether IOMalloc
-- gives it the list.
pub record Setting : Type 0 where
  pub has_framebuffer : Bool
  pub max_gmr_pages : ℕ
  pub allocated : Bool

module _ {H : Type 0} (host : Host H) (fuel : ℕ) (setting : Setting) where
  -- Define, then map all pages; what RemapGMR2 answers is not looked at.
  unfoldable pub define_and_remap : (gmr_id num_pages : ℕ) → List ℕ → Wait H GmrStatus
  define_and_remap gmr_id num_pages ppns d = elim (define_gmr2 host fuel gmr_id num_pages d) [
    | none ↦ none
    | some (false, e) ↦ some (device_error, e)
    | some (true, e) ↦
        elim (remap_gmr2 host fuel gmr_id 0 0 num_pages (some ppns) (4 * num_pages) e) [
          | none ↦ none
          | some (rc, f) ↦ some (success, f)
        ]
  ]

  -- `none` is a null pointer; else the length of the descriptor with its segments.
  unfoldable pub create_gmr2 : (gmr_id : ℕ) → Option (ℕ × List Segment) → Wait H GmrStatus
  create_gmr2 gmr_id none d = some (bad_argument, d)
  create_gmr2 gmr_id (some (bytes, segments)) d =
      let num_pages = (bytes + 4095) / 4096 in
      if not setting.has_framebuffer
      then some (no_device, d)
      else if not (has_capability d cap_gmr2)
      then some (unsupported, d)
      else if num_pages == 0
      then some (bad_argument, d)
      else if ltb setting.max_gmr_pages num_pages
      then some (unsupported, d)
      else if not setting.allocated
      then some (no_memory, d)
      else elim (page_list segments) [
        | none ↦ some (unsupported, d)
        | some ppns ↦ define_and_remap gmr_id num_pages ppns d
      ]

  unfoldable pub destroy_gmr : (gmr_id : ℕ) → Device H → GmrStatus × Device H
  destroy_gmr gmr_id d =
      if not setting.has_framebuffer
      then (no_device, d)
      else if not (has_capability d cap_gmr)
      then (unsupported, d)
      else (success, (define_gmr host gmr_id 0 d).1)

  unfoldable pub destroy_gmr2 : (gmr_id : ℕ) → Wait H GmrStatus
  destroy_gmr2 gmr_id d =
      if not setting.has_framebuffer
      then some (no_device, d)
      else if not (has_capability d cap_gmr2)
      then some (unsupported, d)
      else elim (define_gmr2 host fuel gmr_id 0 d) [
        | none ↦ none
        | some (rc, e) ↦ some (success, e)
      ]

-- Whole pages below 16 TB, but for the end of the last segment.
abbrev pub IsPaged : List Segment → Type 0
IsPaged [] = 0 ≡ zero
IsPaged ((phys, len) ∷ []) = (phys % 4096 ≡ 0) × (phys < 2 ^ 44)
IsPaged ((phys, len) ∷ (s ∷ ss)) =
    (phys % 4096 ≡ 0) × (phys < 2 ^ 44) × (len % 4096 ≡ 0) × IsPaged (s ∷ ss)

-- The physical address of a byte of the memory, by its distance from the start.
abbrev pub physical : List Segment → ℕ → ℕ
physical [] i = 0
physical ((phys, len) ∷ ss) i = if ltb i len then phys + i else physical ss (i - len)

-- The page at each place of the list is that of the byte at that page of the memory.
abbrev pub Pages : List Segment → (n : ℕ) → List ℕ → Type 0
Pages ss n ps = (i : ℕ) → i < n → get_or ps i 0 ≡ physical ss (4096 * i) / 4096 % u32
