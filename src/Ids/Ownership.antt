-- ===== src/Ids/Ownership.antt =====
-- Identifiers of surfaces and of memory regions: an identifier that is given out was free.
use docker_macos.Base.{
  ℕ, ◌+◌, ◌*◌, ◌<◌, ◌≡◌, refl, sym, ap, ◌∙◌, ◌⊎◌, inl, inr, true, false, ◌&&◌, length, Option, some,
  List, [], ◌∷◌, ◌==◌, ltb, if◌then◌else◌, arith, Bool-cases, ==_refl,
}
use docker_macos.Base.Word.{add32}
use docker_macos.Ids.{
  Word, Ids, alloc_from, alloc_surface_id, free_surface_id, alloc_gmr_id, alloc_context_id,
  find_bit_in_array64, only,
}
use docker_macos.Ids.Masks.{bit, find_bit-Found, full, at}
use docker_macos.Ids.Alloc.{IsMask, Allocated, exhausted, given, alloc_from_lem}
use docker_macos.Ids.Free.{free_into_lem}

abbrev pub IsValid : Ids → Type 0
IsValid s = IsMask 4 s.surface_id_mask s.surface_id_idx × IsMask 2 s.gmr_id_mask s.gmr_id_idx

Allocated-IsMask :
    {n : ℕ} {mask : List Word} {r : Option ℕ} {mask' : List Word} {idx' : ℕ}
    → Allocated n mask r mask' idx'
    → IsMask n mask' idx'
Allocated-IsMask (exhausted e same all m) = m
Allocated-IsMask (given id e l b c u m) = m

-- Of a well formed state, AllocGMRID gives the least identifier below 128 that is not in use and
-- marks it, or answers -1 when all are in use; the state stays well formed.
pub alloc_gmr_lem :
    (s : Ids)
    → IsValid s
    → let (r, s') = alloc_gmr_id s in
      IsValid s' × Allocated 2 s.gmr_id_mask r s'.gmr_id_mask s'.gmr_id_idx
unfolding alloc_gmr_id
alloc_gmr_lem s (v, g) =
    let a = alloc_from_lem 2 s.gmr_id_mask s.gmr_id_idx g in ((v, Allocated-IsMask a), a)

-- Of a well formed state with fewer than 2 ^ 32 - 256 identifiers beyond the mask, AllocSurfaceID
-- gives an identifier below 256 that was not in use and marks it, or one from 256 on when all below
-- are in use; the state stays well formed, and FreeSurfaceID restores which identifiers are in use.
pub alloc_surface_lem :
    (s : Ids)
    → IsValid s
    → s.surface_ids_unmanaged < 0xffff_ff00
    → let (sid, s') = alloc_surface_id s in
      IsValid s'
      × (((sid < 256) × (bit s.surface_id_mask sid ≡ false) × (bit s'.surface_id_mask sid ≡ true))
          ⊎ ((sid ≡ 256 + s.surface_ids_unmanaged) × ((j : ℕ) → bit s.surface_id_mask j ≡ true)))
      × ((j : ℕ) → bit (free_surface_id sid s').surface_id_mask j ≡ bit s.surface_id_mask j)
unfolding alloc_surface_id free_surface_id
alloc_surface_lem s (v, g) small = elim (alloc_from_lem 4 s.surface_id_mask s.surface_id_idx v) [
  | exhausted e same all m ↦
      let mask' = (alloc_from 4 s.surface_id_mask s.surface_id_idx).1 in
      let idx' = (alloc_from 4 s.surface_id_mask s.surface_id_idx).2 in
      let sid = add32 256 s.surface_ids_unmanaged in
      let whole : sid ≡ 256 + s.surface_ids_unmanaged = omega arith in
      let out : ltb sid (64 * 4) ≡ false = ground (arith, whole) in
      rw (e, alloc_surface_id)
        (
          (m, g),
          inr (whole, all),
          λ j.
              (free_into_lem 4 sid mask' idx' m).1 j
              ∙ rw out (beyond mask' sid j)
              ∙ ap (λ zs. bit zs j) same,
        )
  | given id e l b c u m ↦
      let mask' = (alloc_from 4 s.surface_id_mask s.surface_id_idx).1 in
      let idx' = (alloc_from 4 s.surface_id_mask s.surface_id_idx).2 in
      let inside : ltb id (64 * 4) ≡ true = ground arith in
      let self : (id == id) ≡ true = ==_refl id in
      rw (e, alloc_surface_id)
        (
          (m, g),
          inl (omega arith, b, u id ∙ rw self refl),
          λ j. (free_into_lem 4 id mask' idx' m).1 j ∙ rw inside (restored mask' id b (λ i. u i) j),
        )
]
  where
    beyond :
        (mask' : List Word) (sid j : ℕ)
        → (if (j == sid) && false then false else bit mask' j) ≡ bit mask' j
    beyond mask' sid j = elim (Bool-cases (j == sid)) [ inl q ↦ rw q refl | inr q ↦ rw q refl ]

    restored :
        (mask' : List Word) (id : ℕ)
        → bit s.surface_id_mask id ≡ false
        → ((i : ℕ) → bit mask' i ≡ (if i == id then true else bit s.surface_id_mask i))
        → (j : ℕ) → (if (j == id) && true then false else bit mask' j) ≡ bit s.surface_id_mask j
    restored mask' id b u j = elim (Bool-cases (j == id)) [
      | inl q ↦
          let same : j ≡ id = ground arith in rw q (sym b ∙ ap (bit s.surface_id_mask) (sym same))
      | inr q ↦ rw q (u j ∙ rw q refl)
    ]

only-bit : (ys : List Word) (j : ℕ) → length ys ≡ 1 → bit (only ys ∷ []) j ≡ bit ys j
only-bit [] j h = absurd (omega arith)
only-bit (y ∷ []) j h = refl
only-bit (y ∷ z ∷ zs) j h = absurd (omega arith)

-- If the mask of contexts has 64 bits and fewer than 2 ^ 32 - 64 contexts lie beyond it, then
-- AllocContextID gives the least context that is not in use and marks it and no other, or one from
-- 64 on when all in the mask are in use.
pub alloc_context_lem :
    (s : Ids)
    → length s.context_id_mask ≡ 64
    → s.context_ids_unmanaged < 0xffff_ffc0
    → let (cid, s') = alloc_context_id s in
      ((cid < 64)
        × (bit (s.context_id_mask ∷ []) cid ≡ false)
        × ((j : ℕ) → j < cid → bit (s.context_id_mask ∷ []) j ≡ true)
        × ((j : ℕ)
            → bit (s'.context_id_mask ∷ []) j
              ≡ (if j == cid then true else bit (s.context_id_mask ∷ []) j)))
      ⊎ ((cid ≡ 64 + s.context_ids_unmanaged)
          × ((j : ℕ) → bit (s.context_id_mask ∷ []) j ≡ true)
          × (s'.context_id_mask ≡ s.context_id_mask))
unfolding alloc_context_id find_bit_in_array64
alloc_context_lem s n small = elim (find_bit-Found 0 (s.context_id_mask ∷ []) (n, refl)) [
  | full e same all ↦
      rw (e, alloc_context_id, find_bit_in_array64) (inr (omega arith, all, ap only same))
  | at k e l b c u a q ↦
      let zero_first : some (0 + k) ≡ some k = ap some (omega arith) in
      rw (e ∙ zero_first, alloc_context_id, find_bit_in_array64)
        (inl (omega arith, b, c, λ j. only-bit _ j q ∙ u j))
]
