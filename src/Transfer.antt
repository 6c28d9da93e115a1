-- ===== src/Transfer.antt =====
-- kexts/VMsvga2/AC/VendorTransferBuffer.h, VendorTransferBuffer.cpp and FenceTracker.h: buffers that
-- hold a guest memory region while they are prepared, and the ring of the last fences.
pub mod Regions
pub mod Held
pub mod Fences
pub mod Tests
use docker_macos.Base.{
  ℕ, ◌+◌, ◌-◌, ◌^◌, Bool, true, false, not, Option, none, some, ltb, ◌==◌, if◌then◌else◌,
}
use docker_macos.Base.Mem.{Mem, update}
use docker_macos.Base.Word.{u32}
use docker_macos.Ids.{Ids, alloc_gmr_id, free_gmr_id}

-- `has_md` says whether the pointer to the memory descriptor is set.
pub record Buffer : Type 0 where
  pub has_md : Bool
  pub gmr_id : ℕ
  pub fence : ℕ

-- What a buffer asks of IOKit's memory descriptor and of the accelerator, beside identifiers: return
-- codes, of which 0 is kIOReturnSuccess, and changes of the world.
pub record Provider (W : Type 0) : Type 0 where
  pub md_prepare : W → ℕ × W
  pub md_complete : W → W
  pub md_release : W → W
  pub create_gmr : ℕ → W → ℕ × W
  pub drop_gmr : ℕ → W → W
  pub wait_for_fence : ℕ → W → W

pub record State (W : Type 0) : Type 0 where
  pub buffer : Buffer
  pub ids : Ids
  pub world : W

abbrev pub success : ℕ
success = 0

abbrev pub not_ready : ℕ
not_ready = 0xe000_02d8

abbrev pub out_of_regions : ℕ
out_of_regions = 0xe000_02be

-- SVGA_ID_INVALID, and what AllocGMRID answers when it has no identifier.
abbrev pub id_invalid : ℕ
id_invalid = u32 - 1

-- `static_cast<int>(id) >= 0`
abbrev pub is_id_valid : ℕ → Bool
is_id_valid id = ltb id (2 ^ 31)

abbrev pub with_id : {W : Type 0} → ℕ → State W → State W
with_id id s = record s { buffer = record s.buffer { gmr_id = id } }

unfoldable pub init_buffer : Buffer → Buffer
init_buffer b = record b { gmr_id = id_invalid }

module _ {W : Type 0} where
  -- The label clean1.
  abbrev pub give_up : (id rc : ℕ) → State W → ℕ × State W
  give_up id rc s = (rc, with_id id_invalid (record s { ids = free_gmr_id id s.ids }))

  -- After AllocGMRID has given an identifier.
  unfoldable pub prepare_with : Provider W → ℕ → State W → ℕ × State W
  prepare_with p id s =
      let (rc, w) = p.md_prepare s.world in
      let (rc', w') = p.create_gmr id w in
      if not (rc == success)
      then give_up id rc (record s { world = w })
      else if not (rc' == success)
      then give_up id rc' (record s { world = p.md_complete w' })
      else (success, record s { world = w' })

  -- `none` is a null pointer to the accelerator.
  unfoldable pub prepare : Option (Provider W) → State W → ℕ × State W
  prepare none s = (not_ready, s)
  prepare (some p) s =
      let (r, ids') = alloc_gmr_id s.ids in
      if is_id_valid s.buffer.gmr_id
      then (success, s)
      else if not s.buffer.has_md
      then (not_ready, s)
      else elim r [
        | none ↦ (out_of_regions, with_id id_invalid (record s { ids = ids' }))
        | some id ↦ prepare_with p id (with_id id (record s { ids = ids' }))
      ]

  unfoldable pub sync : Option (Provider W) → State W → State W
  sync none s = s
  sync (some p) s = if s.buffer.fence == 0 then s else record s {
    world = p.wait_for_fence s.buffer.fence s.world;
    buffer = record s.buffer { fence = 0 };
  }

  unfoldable pub complete : Option (Provider W) → State W → State W
  complete none s = s
  complete (some p) old =
      let s = sync (some p) old in
      let w = p.drop_gmr s.buffer.gmr_id s.world in
      let w' = if s.buffer.has_md then p.md_complete w else w in
      if not (is_id_valid s.buffer.gmr_id)
      then s
      else with_id id_invalid (record s { world = w'; ids = free_gmr_id s.buffer.gmr_id s.ids })

  unfoldable pub discard : Provider W → State W → State W
  discard p s =
      if not s.buffer.has_md
      then s
      else record s { world = p.md_release s.world; buffer = record s.buffer { has_md = false } }

-- FenceTracker: the array of `n` fences, and the index of the oldest.
pub record Tracker : Type 0 where
  pub counter : ℕ
  pub fences : Mem

-- `bzero` clears the array.
unfoldable pub init_tracker : (n : ℕ) → Tracker → Tracker
init_tracker n t = record t { counter = 0; fences = λ i. if ltb i n then 0 else t.fences i }

unfoldable pub before : Tracker → ℕ
before t = t.fences t.counter

unfoldable pub after : (n fence : ℕ) → Tracker → Tracker
after n fence t =
    let next = t.counter + 1 in
    record t { fences = update t.fences t.counter fence; counter = if next == n then 0 else next }
