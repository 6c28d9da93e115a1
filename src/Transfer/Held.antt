-- ===== src/Transfer/Held.antt =====
-- Transfer buffers of which it is not known whether they hold a region.
use docker_macos.Base.{
  ℕ, ◌≡◌, ◌≢◌, refl, sym, ap, ◌∙◌, inl, inr, Bool, true, false, some, ◌==◌, ◌⊎◌, if◌then◌else◌,
  arith,
}
use docker_macos.Ids.{Ids}
use docker_macos.Transfer.{
  Provider, State, success, is_id_valid, prepare_with, prepare, sync, complete, discard,
}
use docker_macos.Transfer.Regions.{
  Unchanged, Taken, ready, failed, prepare_lem, completed, freed-Unchanged,
}

-- With the memory descriptor the identifier is that of a region, which is the only one in use now
-- that was not in use in `a`; without it there is none.
abbrev pub Holds : Bool → ℕ → Ids → Ids → Type 0
Holds true id a b = Taken id a b
Holds false id a b = Unchanged a b × (is_id_valid id ≡ false)

pub Unchanged-Taken : (id : ℕ) (a b c : Ids) → Unchanged a b → Taken id b c → Taken id a c
Unchanged-Taken id a b c (v, u) (w, low, was, t) =
    (w, low, sym (u id) ∙ was, λ j. t j ∙ ap (λ x. if j == id then true else x) (u j))

pub Unchanged-trans : (a b c : Ids) → Unchanged a b → Unchanged b c → Unchanged a c
Unchanged-trans a b c (v, u) (w, t) = (w, λ j. t j ∙ u j)

pub Taken-valid : (id : ℕ) (a b : Ids) → Taken id a b → is_id_valid id ≡ true
Taken-valid id a b (v, low, was, t) = ground arith

module _ {W : Type 0} (p : Provider W) where
  prepare-has_md : (s : State W) → (prepare (some p) s).1.buffer.has_md ≡ s.buffer.has_md
  unfolding prepare prepare_with
  prepare-has_md s = ground arith

  complete-has_md : (s : State W) → (complete (some p) s).buffer.has_md ≡ s.buffer.has_md
  unfolding complete sync
  complete-has_md s = ground arith

  idle :
      (s : State W)
      → is_id_valid s.buffer.gmr_id ≡ false
      → ((complete (some p) s).buffer.gmr_id ≡ s.buffer.gmr_id)
        × ((complete (some p) s).ids ≡ s.ids)
  unfolding complete sync
  idle s h = ground arith

  -- Completed and discarded, a buffer holds nothing, and what it held is free again.
  pub discard-complete :
      (a : Ids) (s : State W)
      → Holds s.buffer.has_md s.buffer.gmr_id a s.ids
      → let t = discard p (complete (some p) s) in
        (t.buffer.has_md ≡ false) × Holds false t.buffer.gmr_id a t.ids
  unfolding discard
  discard-complete a s h = go s.buffer.has_md refl h
    where
      t : State W
      t = complete (some p) s

      shut :
          (b : Bool)
          → t.buffer.has_md ≡ b
          → Unchanged a t.ids
          → is_id_valid t.buffer.gmr_id ≡ false
          → ((discard p t).buffer.has_md ≡ false)
            × Holds false (discard p t).buffer.gmr_id a (discard p t).ids
      shut true e u f = simp (e, discard) (refl, (u, f))
      shut false e u f = simp (e, discard) (refl, (u, f))

      go :
          (b : Bool)
          → s.buffer.has_md ≡ b
          → Holds b s.buffer.gmr_id a s.ids
          → ((discard p t).buffer.has_md ≡ false)
            × Holds false (discard p t).buffer.gmr_id a (discard p t).ids
      go true e u =
          let (g, f, i) = completed p s (Taken-valid s.buffer.gmr_id a s.ids u) in
          shut true (complete-has_md s ∙ e) (rw i (freed-Unchanged s.buffer.gmr_id a s.ids u))
            (rw g refl)
      go false e (u, none_held) =
          let (g, i) = idle s none_held in
          shut false (complete-has_md s ∙ e) (rw i u) (rw g none_held)

  -- A buffer that has just been given its descriptor, when it is prepared, holds a region; or it
  -- holds nothing, and the descriptor is all that is left.
  pub prepare_held :
      (a : Ids) (s : State W)
      → Holds false s.buffer.gmr_id a s.ids
      → let r = prepare (some p) s in
        (r.1.buffer.has_md ≡ s.buffer.has_md)
        × ((r.0 ≡ success) × Taken r.1.buffer.gmr_id a r.1.ids
            ⊎ (r.0 ≢ success) × Holds false r.1.buffer.gmr_id a r.1.ids)
  prepare_held a s (u, none_held) = (
    prepare-has_md s,
    elim (prepare_lem p s u.0 none_held) [
      | ready e h f ↦ inl (
        e,
        Unchanged-Taken (prepare (some p) s).1.buffer.gmr_id a s.ids (prepare (some p) s).1.ids u h,
      )
      | failed bad i w ↦ inr (bad, (Unchanged-trans a s.ids (prepare (some p) s).1.ids u w, i))
    ],
  )
