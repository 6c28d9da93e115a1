-- ===== src/Accel/Chain.antt =====
-- createGMR of VMsvga2Accel.cpp: a guest memory region by pages of descriptors, each of which ends
-- with a link to the next.
pub mod Fill
pub mod Read
pub mod Tests
use docker_macos.Base.{
  ℕ, zero, suc, ◌+◌, ◌-◌, ◌*◌, ◌/◌, ◌%◌, ◌^◌, ◌≤◌, ◌<◌, ◌≡◌, ◌≢◌, Bool, true, false, not, ◌||◌,
  Option, none, some, List, [], ◌∷◌, length, ltb, leb, ◌==◌, if◌then◌else◌,
}
use docker_macos.Base.Word.{u32}
use docker_macos.Svga.{Host, Device, has_capability}
use docker_macos.Svga.Regs.{cap_gmr}
use docker_macos.Svga.Commands.{define_gmr}
use docker_macos.Accel.Regions.{Segment}

-- kIOReturnSuccess and the errors; `other` is a code of IOKit's.
pub data ChainStatus : Type 0 where
  success bad_argument no_device unsupported no_resources : ChainStatus
  other : ℕ → ChainStatus

-- SVGAGuestMemDescriptor: the number of the first page, and the number of pages.
abbrev pub Descriptor : Type 0
Descriptor = ℕ × ℕ

-- Memory of descriptors, by their index.
abbrev pub Table : Type 0
Table = ℕ → Descriptor

abbrev pub put_at : Table → ℕ → Descriptor → Table
put_at t p d i = if i == p then d else t i

abbrev pub descriptor : Segment → Descriptor
descriptor (phys, len) = (phys / 4096 % u32, (len + phys % 4096 + 4095) / 4096 % u32)

-- No segment is without pages.
abbrev pub IsFull : List Segment → Type 0
IsFull [] = Unit
IsFull (s ∷ ss) = ((descriptor s).1 ≢ 0) × IsFull ss

-- The loop over the segments. `helper` is what getPhysicalSegment answers for the memory of the
-- descriptors, by page: the number of the page, and how many pages go on from it without a gap. The
-- lengths are in pages, and helper_ppn, which the mask of the memory keeps to 32 bits, does not wrap.
unfoldable pub fill_chain :
    List Segment
    → (helper : ℕ → ℕ × ℕ) (num_pages helper_ppn helper_length next_page in_page_count ptr : ℕ)
    → Table
    → Table
fill_chain [] helper num_pages helper_ppn helper_length next_page in_page_count ptr t = t
fill_chain (s ∷ ss) helper num_pages helper_ppn helper_length next_page in_page_count ptr t =
    let t1 = put_at t ptr (descriptor s) in
    let ppn = if ltb 0 helper_length then helper_ppn else (helper next_page).0 in
    let len = if ltb 0 helper_length then helper_length else (helper next_page).1 in
    let stay =
      fill_chain ss helper num_pages helper_ppn helper_length next_page (in_page_count - 1)
        (ptr + 1) t1 in
    let turn =
      fill_chain ss helper num_pages (ppn + 1) (len - 1) (next_page + 1) 511 (next_page * 512)
        (put_at t1 (ptr + 1) (ppn, 0)) in
    if not (in_page_count - 1 == 0)
    then stay
    else if ltb 0 helper_length || ltb next_page num_pages
    then turn
    else t1

-- From the first page on, over cleared memory.
unfoldable pub chain : List Segment → (helper : ℕ → ℕ × ℕ) (num_pages : ℕ) → Table
chain ss helper num_pages =
    fill_chain ss helper num_pages ((helper 0).0 + 1) ((helper 0).1 - 1) 1 511 0 (λ i. (0, 0))

-- What the adapter reads, as svga_reg.h describes it, from a page and a slot on: a descriptor without pages is a link, or the
-- end if it is zero. `none` is that it is still reading.
unfoldable pub read_chain :
    (fuel : ℕ) (contents : ℕ → Table) (ppn slot : ℕ) → Option (List Descriptor)
read_chain zero contents ppn slot = none
read_chain (suc fuel) contents ppn slot =
    let d = contents ppn slot in
    let more = read_chain fuel contents ppn (slot + 1) in
    let other = read_chain fuel contents d.0 0 in
    if not (d.1 == 0)
    then (elim more [ none ↦ none | some ds ↦ some (d ∷ ds) ])
    else if d.0 == 0
    then some []
    else other

-- What createGMR finds: the pointer to the framebuffer, the limit on descriptors, whether there is
-- memory for them, what prepare answers, and where the pages of the memory are.
pub record Surroundings : Type 0 where
  pub has_framebuffer : Bool
  pub max_descriptor_length : ℕ
  pub allocated : Bool
  pub prepared : Option ℕ
  pub helper : ℕ → ℕ × ℕ

-- An address of more than 44 bits.
abbrev pub is_high : List Segment → Bool
is_high [] = false
is_high (s ∷ ss) = leb (2 ^ 44) s.0 || is_high ss

-- The pages of descriptors, 511 to a page beside the link.
abbrev pub chain_pages : List Segment → ℕ
chain_pages ss = (length ss + 510) / 511

-- With the answer, the memory of the descriptors as the adapter finds it when it is told of it.
-- A null pointer is `none`; else it is the segments that getPhysicalSegment gives, up to the first
-- address of 0. `prepared` is an error of prepare, or `none`.
unfoldable pub create_gmr :
    {H : Type 0}
    → Host H
    → Surroundings
    → (gmr_id : ℕ) → Option (List Segment)
    → Device H
    → ChainStatus × Option Table × Device H
create_gmr host around gmr_id none d = (bad_argument, none, d)
create_gmr host around gmr_id (some segments) d =
    let num_pages = chain_pages segments in
    if not around.has_framebuffer
    then (no_device, none, d)
    else if not (has_capability d cap_gmr)
    then (unsupported, none, d)
    else if is_high segments
    then (unsupported, none, d)
    else if length segments == 0
    then (bad_argument, none, d)
    else if ltb around.max_descriptor_length (length segments + num_pages)
    then (no_resources, none, d)
    else if not around.allocated
    then (no_resources, none, d)
    else elim around.prepared [
      | some rc ↦ (other rc, none, d)
      | none ↦ (
        success,
        some (chain segments around.helper num_pages),
        (define_gmr host gmr_id (around.helper 0).0 d).1,
      )
    ]

-- getPhysicalSegment answers with the pages' own numbers, and with runs that stay inside the `n`
-- pages of the memory.
abbrev pub IsRuns : (helper : ℕ → ℕ × ℕ) (n : ℕ) (phys : ℕ → ℕ) → Type 0
IsRuns helper n phys =
    (i : ℕ)
    → i < n
    → ((helper i).0 ≡ phys i)
      × (0 < (helper i).1)
      × (i + (helper i).1 ≤ n)
      × ((k : ℕ) → k < (helper i).1 → phys (i + k) ≡ (helper i).0 + k)
