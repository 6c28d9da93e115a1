-- ===== src/Patcher/Queried.antt =====
-- The modes that a framebuffer has been asked about, by the bits of gModesQueriedMask.
use docker_macos.Base.{ℕ, suc, ◌<◌, ◌≡◌, ◌↔◌, ◌⊎◌, inl, inr, true, none, some, List, [], ◌∷◌, arith}
use docker_macos.QemuDisplay.{ModeInfo}
use docker_macos.Patcher.{
  IoKit, Globals, modes, find_index, count_call, mark, patched_get_information,
}

-- A history of queries.
abbrev pub ask : IoKit → List ℕ → Globals → Globals
ask k [] g = g
ask k (id ∷ ids) g = ask k ids (patched_get_information k id true g).1

-- Whether an identifier is in a history.
abbrev pub Asked : ℕ → List ℕ → Type 0
Asked id [] = ⊥
Asked id (i ∷ is) = (i ≡ id) ⊎ Asked id is

find_index-Listed :
    (id : ℕ)
    → (find_index modes 0 id ≡ none) × ((id ≡ 0) ⊎ (8 < id))
      ⊎ ((i : ℕ) × (m : ModeInfo) × (find_index modes 0 id ≡ some (i, m)) × (id ≡ suc i) × (i < 8))
unfolding find_index
find_index-Listed id = ground arith

mark_step :
    (k : IoKit) (id j : ℕ) (g : Globals)
    → ((patched_get_information k id true g).1.modes_queried j ≡ true)
      ↔ ((g.modes_queried j ≡ true) ⊎ ((id ≡ suc j) × (j < 8)))
unfolding patched_get_information count_call mark
mark_step k id j g = elim (find_index-Listed id) [
  | inl (e, h) ↦ rw e (ground arith)
  | inr (i, m, e, h, l) ↦ rw e (ground arith)
]

-- The bit of a mode is set after a history of queries exactly when it was set before, or the mode
-- is one of the eight and was asked about; the mode with index j has the identifier j + 1.
pub queried_lem :
    (k : IoKit) (ids : List ℕ) (j : ℕ) (g : Globals)
    → ((ask k ids g).modes_queried j ≡ true)
      ↔ ((g.modes_queried j ≡ true) ⊎ (Asked (suc j) ids × (j < 8)))
queried_lem k [] j g = ground arith
queried_lem k (id ∷ ids) j g =
    let step = mark_step k id j g in
    let rest = queried_lem k ids j (patched_get_information k id true g).1 in
    (
      λ h. elim (rest.0 h) [
        | inl b ↦ elim (step.0 b) [ inl old ↦ inl old | inr (e, l) ↦ inr (inl e, l) ]
        | inr (a, l) ↦ inr (inr a, l)
      ],
      λ h. elim h [
        | inl old ↦ rest.1 (inl (step.1 (inl old)))
        | inr (inl e, l) ↦ rest.1 (inl (step.1 (inr (e, l))))
        | inr (inr a, l) ↦ rest.1 (inr (a, l))
      ],
    )
