-- ===== src/Transfer/Regions.antt =====
-- A transfer buffer never loses an identifier of a memory region.
use docker_macos.Base.{
  ℕ, ◌<◌, ◌≡◌, ◌≢◌, refl, sym, ap, ◌∙◌, inl, inr, Bool, true, false, not, ◌&&◌, some, ◌==◌, ltb,
  if◌then◌else◌, arith, Bool-cases,
}
use docker_macos.Ids.{Ids, alloc_gmr_id, free_gmr_id}
use docker_macos.Ids.Masks.{bit}
use docker_macos.Ids.Alloc.{Allocated, exhausted, given}
use docker_macos.Ids.Free.{free_into_lem}
use docker_macos.Ids.Ownership.{IsValid, alloc_gmr_lem}
use docker_macos.Transfer.{
  Provider, State, success, id_invalid, is_id_valid, with_id, prepare_with, prepare, sync, complete,
}

-- FreeGMRID frees the identifier, if it is one of the mask, and no other.
free_gmr_lem :
    (id : ℕ) (s : Ids)
    → IsValid s
    → IsValid (free_gmr_id id s)
      × ((j : ℕ)
          → bit (free_gmr_id id s).gmr_id_mask j
            ≡ (if (j == id) && ltb id 128 then false else bit s.gmr_id_mask j))
unfolding free_gmr_id
free_gmr_lem id s (v, g) =
    let (m, b) = free_into_lem 2 id s.gmr_id_mask s.gmr_id_idx g in ((v, m), b)

-- The state of the identifiers is what it was, or only `id`, which was free, is in use now.
abbrev pub Unchanged : Ids → Ids → Type 0
Unchanged a b = IsValid b × ((j : ℕ) → bit b.gmr_id_mask j ≡ bit a.gmr_id_mask j)

abbrev pub Taken : ℕ → Ids → Ids → Type 0
Taken id a b =
    IsValid b
    × (id < 128)
    × (bit a.gmr_id_mask id ≡ false)
    × ((j : ℕ) → bit b.gmr_id_mask j ≡ (if j == id then true else bit a.gmr_id_mask j))

-- What AllocGMRID took and FreeGMRID gives back is as before.
pub freed-Unchanged : (id : ℕ) (a b : Ids) → Taken id a b → Unchanged a (free_gmr_id id b)
freed-Unchanged id a b (v, low, was, u) = let (w, f) = free_gmr_lem id b v in (w, λ j. f j ∙ same j)
  where
    same :
        (j : ℕ)
        → (if (j == id) && ltb id 128 then false else bit b.gmr_id_mask j) ≡ bit a.gmr_id_mask j
    same j = elim (Bool-cases (j == id)) [
      | inl q ↦
          let e : j ≡ id = ground arith in
          let inside : ltb id 128 ≡ true = ground arith in
          rw (q, inside) (sym was ∙ ap (bit a.gmr_id_mask) (sym e))
      | inr q ↦ rw q (u j ∙ rw q refl)
    ]

module _ {W : Type 0} (p : Provider W) where
  -- How a call of `prepare` on a buffer without a region may end.
  pub data Prepared (s : State W) (r : ℕ × State W) : Type 0 where
    ready :
        r.0 ≡ success
        → Taken r.1.buffer.gmr_id s.ids r.1.ids
        → r.1.buffer.fence ≡ s.buffer.fence
        → Prepared s r
    failed :
        r.0 ≢ success
        → is_id_valid r.1.buffer.gmr_id ≡ false
        → Unchanged s.ids r.1.ids
        → Prepared s r

  prepare_with-Prepared :
      (id : ℕ) (s t : State W)
      → Taken id s.ids t.ids
      → t.buffer.fence ≡ s.buffer.fence
      → Prepared s (prepare_with p id (with_id id t))
  unfolding prepare_with
  prepare_with-Prepared id s t h f = elim (Bool-cases ((p.md_prepare t.world).0 == success)) [
    | inr bad ↦
        rw (bad, prepare_with) (failed (λ e. ground arith) refl (freed-Unchanged id s.ids t.ids h))
    | inl good ↦ elim (Bool-cases ((p.create_gmr id (p.md_prepare t.world).1).0 == success)) [
      | inr bad ↦
          rw (good, bad, prepare_with)
            (failed (λ e. ground arith) refl (freed-Unchanged id s.ids t.ids h))
      | inl fine ↦ rw (good, fine, prepare_with) (ready refl h f)
    ]
  ]

  with_md :
      (s : State W) (b : Bool) (x y : ℕ × State W)
      → b ≡ true
      → Prepared s y
      → Prepared s (if not b then x else y)
  with_md s true x y e h = h
  with_md s false x y e h = absurd (ground arith)

  -- On a buffer without a region, `prepare` either succeeds, and the buffer holds an identifier that
  -- was free and is the only one that changed; or it fails, the buffer holds none, and every
  -- identifier is as free as before: no error path loses one.
  pub prepare_lem :
      (s : State W)
      → IsValid s.ids
      → is_id_valid s.buffer.gmr_id ≡ false
      → Prepared s (prepare (some p) s)
  unfolding prepare
  prepare_lem s v none_held = elim (Bool-cases s.buffer.has_md) [
    | inr nothing ↦
        rw (none_held, nothing, prepare) (failed (λ e. ground arith) none_held (v, λ j. refl))
    | inl md ↦ go md (alloc_gmr_lem s.ids v).0 (alloc_gmr_lem s.ids v).1
  ]
    where
      go :
          s.buffer.has_md ≡ true
          → IsValid (alloc_gmr_id s.ids).1
          → Allocated 2 s.ids.gmr_id_mask
              (alloc_gmr_id s.ids).0
              (alloc_gmr_id s.ids).1.gmr_id_mask
              (alloc_gmr_id s.ids).1.gmr_id_idx
          → Prepared s (prepare (some p) s)
      go md w (exhausted e same all m) =
          rw (none_held, prepare)
            (with_md s s.buffer.has_md _ _ md
              (rw e (failed (λ x. ground arith) refl (w, λ j. ap (λ zs. bit zs j) same))))
      go md w (given id e l b c u m) =
          rw (none_held, prepare)
            (with_md s s.buffer.has_md _ _ md (
              rw e (
                prepare_with-Prepared id s (record s { ids = (alloc_gmr_id s.ids).1 })
                  (w, omega arith, b, u) refl)))

  pub completed :
      (t : State W)
      → is_id_valid t.buffer.gmr_id ≡ true
      → ((complete (some p) t).buffer.gmr_id ≡ id_invalid)
        × ((complete (some p) t).buffer.fence ≡ 0)
        × ((complete (some p) t).ids ≡ free_gmr_id t.buffer.gmr_id t.ids)
  unfolding complete sync
  completed t held = elim (Bool-cases (t.buffer.fence == 0)) [
    | inl done ↦ simp (done, held, complete, sync) (refl, ground arith, refl)
    | inr waits ↦ simp (waits, held, complete, sync) (refl, refl, refl)
  ]

  -- A buffer that `prepare` has given a region, when it is completed, holds none, has no fence to
  -- wait for, and every identifier is as free as before `prepare`.
  pub complete-prepare :
      (s : State W)
      → IsValid s.ids
      → is_id_valid s.buffer.gmr_id ≡ false
      → (prepare (some p) s).0 ≡ success
      → let t = complete (some p) (prepare (some p) s).1 in
        (t.buffer.gmr_id ≡ id_invalid) × (t.buffer.fence ≡ 0) × Unchanged s.ids t.ids
  complete-prepare s v none_held done = elim (prepare_lem s v none_held) [
    | failed bad i u ↦ absurd (bad done)
    | ready e h f ↦
        let t = (prepare (some p) s).1 in
        let held : is_id_valid t.buffer.gmr_id ≡ true = let low = h.1 in ground arith in
        let (a, b, c) = completed t held in
        (a, b, rw c (freed-Unchanged t.buffer.gmr_id s.ids t.ids h))
  ]
