-- ===== src/Accel/Chain/Read.antt =====
-- What the adapter reads from the descriptors that createGMR has filled.
use docker_macos.Base.{
  ℕ, zero, suc, ◌+◌, ◌-◌, ◌*◌, ◌≤◌, ◌<◌, ◌≡◌, ◌≢◌, refl, sym, ap, ◌∙◌, inl, inr, Bool, true, false,
  ◌||◌, Option, none, some, List, [], ◌∷◌, map, length, ltb, ◌==◌, if◌then◌else◌, arith, Bool-cases,
  ==-false, ltb→lt,
}
use docker_macos.Svga.{Host, Device, has_capability}
use docker_macos.Svga.Regs.{cap_gmr}
use docker_macos.Svga.Commands.{define_gmr}
use docker_macos.Accel.Regions.{Segment}
use docker_macos.Accel.Chain.{
  Descriptor, Table, IsFull, IsRuns, Surroundings, put_at, descriptor, fill_chain, chain,
  read_chain, is_high, chain_pages, create_gmr, success,
}
use docker_macos.Accel.Chain.Fill.{
  next_ppn, next_length, fill_chain-stay, fill_chain-turn, fill_chain-stop, fill_chain-here,
  fill_chain-link, put_at_ne,
}

read_chain-node :
    (fuel : ℕ) (contents : ℕ → Table) (ppn slot : ℕ) (d : Descriptor) (ds : List Descriptor)
    → contents ppn slot ≡ d
    → d.1 ≢ 0
    → read_chain fuel contents ppn (slot + 1) ≡ some ds
    → read_chain (suc fuel) contents ppn slot ≡ some (d ∷ ds)
unfolding read_chain
read_chain-node fuel contents ppn slot d ds e nz h = rw (e, ==-false d.1 0 nz, h, e)

read_chain-link :
    (fuel : ℕ) (contents : ℕ → Table) (ppn slot q : ℕ)
    → contents ppn slot ≡ (q, 0)
    → q ≢ 0
    → read_chain (suc fuel) contents ppn slot ≡ read_chain fuel contents q 0
unfolding read_chain
read_chain-link fuel contents ppn slot q e nz = rw (e, ==-false q 0 nz)

read_chain-end :
    (fuel : ℕ) (contents : ℕ → Table) (ppn slot : ℕ)
    → contents ppn slot ≡ (0, 0)
    → read_chain (suc fuel) contents ppn slot ≡ some []
unfolding read_chain
read_chain-end fuel contents ppn slot e = rw (e)

module _ (helper : ℕ → ℕ × ℕ) (n : ℕ) where
  -- What is left of a run, at the page `next`.
  abbrev IsRun : (phys : ℕ → ℕ) (hp hl next : ℕ) → Type 0
  IsRun phys hp hl next = (next + hl ≤ n) × ((k : ℕ) → k < hl → phys (next + k) ≡ hp + k)

  IsRun-suc :
      (phys : ℕ → ℕ) (ppn len next : ℕ)
      → 0 < len
      → IsRun phys ppn len next
      → (next < n) × (ppn ≡ phys next) × IsRun phys (ppn + 1) (len - 1) (next + 1)
  IsRun-suc phys ppn len next pos (top, run) = (
    omega arith,
    sym (ap phys (omega arith) ∙ run 0 pos ∙ omega arith),
    (omega arith, λ k h. ap phys (omega arith) ∙ run (k + 1) (omega arith) ∙ omega arith),
  )

  IsRun-next :
      (phys : ℕ → ℕ) (hp hl next : ℕ) (b : Bool)
      → IsRuns helper n phys
      → IsRun phys hp hl next
      → (b ≡ true → 0 < hl)
      → (b ≡ false → next < n)
      → (next < n)
        × ((if b then hp else (helper next).0) ≡ phys next)
        × IsRun phys
            ((if b then hp else (helper next).0) + 1)
            ((if b then hl else (helper next).1) - 1)
            (next + 1)
  IsRun-next phys hp hl next true runs run f g = IsRun-suc phys hp hl next (f refl) run
  IsRun-next phys hp hl next false runs run f g =
      let (same, pos, top, rest) = runs next (g refl) in
      IsRun-suc phys (helper next).0 (helper next).1 next pos (top, rest)

  map-none_left :
      (l : List Segment) (r : Option (List Descriptor))
      → length l ≡ 0
      → r ≡ some []
      → r ≡ some (map descriptor l)
  map-none_left [] r h e = e
  map-none_left (s ∷ l) r h e = absurd (omega arith)

  -- The adapter reads from slot `j` of page `c` on.
  read_chain-fill :
      (phys : ℕ → ℕ) (contents : ℕ → Table)
      → IsRuns helper n phys
      → ((i : ℕ) → i < n → phys i ≢ 0)
      → (ss : List Segment) (c j fuel hp hl next room ptr : ℕ) (t : Table) → next ≡ c + 1
      → ptr ≡ c * 512 + j
      → room + j ≡ 511
      → 0 < room
      → next ≤ n
      → IsRun phys hp hl next
      → length ss ≤ room + (n - next) * 511
      → IsFull ss
      → ((i : ℕ) → ptr ≤ i → t i ≡ (0, 0))
      → ((d i : ℕ)
          → d < n
          → i < 512
          → contents (phys d) i ≡ fill_chain ss helper n hp hl next room ptr t (d * 512 + i))
      → 2 * length ss < fuel
      → read_chain fuel contents (phys c) j ≡ some (map descriptor ss)
  unfolding fill_chain
  read_chain-fill phys contents runs nz ss c j zero hp hl next room ptr t en ep er r0 top run fits
        full clear mem fe =
      absurd (omega arith)
  read_chain-fill phys contents runs nz [] c j (suc fuel) hp hl next room ptr t en ep er r0 top run
        fits full clear mem fe =
      read_chain-end fuel contents (phys c) j (
        mem c j (omega arith) (omega arith)
        ∙ ap (fill_chain [] helper n hp hl next room ptr t) (sym ep)
        ∙ clear ptr (omega arith))
  read_chain-fill phys contents runs nz (s ∷ ss) c j (suc zero) hp hl next room ptr t en ep er r0
        top run fits full clear mem fe =
      absurd (omega arith)
  read_chain-fill phys contents runs nz (s ∷ ss) c j (suc (suc fuel)) hp hl next room ptr t en ep er
        r0 top run fits (here, full) clear mem fe =
      read_chain-node (suc fuel) contents (phys c) j (descriptor s) (map descriptor ss)
        (mem c j (omega arith) (omega arith)
          ∙ ap (fill_chain (s ∷ ss) helper n hp hl next room ptr t) (sym ep)
          ∙ fill_chain-here helper n s ss hp hl next room ptr t r0 (omega arith))
        here
        (elim (Bool-cases (room - 1 == 0)) [
          | inr e ↦
              read_chain-fill phys contents runs nz ss c (j + 1) (suc fuel) hp hl next (room - 1)
                (ptr + 1) (put_at t ptr (descriptor s)) en (omega arith) (omega arith)
                (ground arith) top run (omega arith) full
                (λ i h.
                  put_at_ne helper n t ptr (descriptor s) i (omega arith) ∙ clear i (omega arith))
                (λ d i hd hi.
                  mem d i hd hi
                  ∙ ap (λ u. u (d * 512 + i))
                      (fill_chain-stay helper n s ss hp hl next room ptr t e))
                (omega arith)
          | inl e ↦ elim (Bool-cases (ltb 0 hl || ltb next n)) [
            | inl f ↦
                let (inside, same, again) =
                  IsRun-next phys hp hl next (ltb 0 hl) runs run (ltb→lt 0 hl)
                    (λ g. ground arith) in
                read_chain-link fuel contents (phys c) (j + 1) (next_ppn helper n hp hl next)
                  (mem c (j + 1) (omega arith) (omega arith)
                    ∙ ap (fill_chain (s ∷ ss) helper n hp hl next room ptr t) (omega arith)
                    ∙ fill_chain-link helper n s ss hp hl next room ptr t e f (omega arith))
                  (λ z. nz next inside (sym same ∙ z))
                ∙ ap (λ q. read_chain fuel contents q 0) same
                ∙ read_chain-fill phys contents runs nz ss next 0 fuel
                    (next_ppn helper n hp hl next + 1) (next_length helper n hl next - 1) (next + 1)
                    511 (next * 512)
                    (put_at (put_at t ptr (descriptor s)) (ptr + 1)
                      (next_ppn helper n hp hl next, 0))
                    refl (omega arith) (omega arith) (omega arith) (omega arith) again
                    (ground arith) full
                    (λ i h.
                      put_at_ne helper n (put_at t ptr (descriptor s)) (ptr + 1)
                        (next_ppn helper n hp hl next, 0) i (omega arith)
                      ∙ put_at_ne helper n t ptr (descriptor s) i (omega arith)
                      ∙ clear i (omega arith))
                    (λ d i hd hi.
                      mem d i hd hi
                      ∙ ap (λ u. u (d * 512 + i))
                          (fill_chain-turn helper n s ss hp hl next room ptr t e f))
                    (omega arith)
            | inr f ↦
                map-none_left ss (read_chain (suc fuel) contents (phys c) (j + 1)) (ground arith) (
                  read_chain-end fuel contents (phys c) (j + 1) (
                    mem c (j + 1) (omega arith) (omega arith)
                    ∙ ap (fill_chain (s ∷ ss) helper n hp hl next room ptr t) (omega arith)
                    ∙ ap (λ u. u (ptr + 1))
                        (fill_chain-stop helper n s ss hp hl next room ptr t e f)
                    ∙ put_at_ne helper n t ptr (descriptor s) (ptr + 1) (omega arith)
                    ∙ clear (ptr + 1) (omega arith)))
          ]
        ])

le→not_ltb : (a b : ℕ) → b ≤ a → ltb a b ≡ false
le→not_ltb a b h = ground arith

-- For an adapter with guest memory regions, a framebuffer, memory for the descriptors whose physical
-- segments are its pages in runs that stay inside, and at least one segment, each of at least one
-- page and below 16 TB, within the limit of the adapter, createGMR succeeds and tells the adapter of
-- the first page of the descriptors; and an adapter that finds the pages of the descriptors at their
-- places, none of them page 0, reads from there exactly the descriptors of the segments in their
-- order, following a link at the end of each full page, and comes to an end.
pub read_chain-create_gmr :
    {H : Type 0} (host : Host H) (around : Surroundings) (gmr_id : ℕ) (ss : List Segment)
    (d : Device H) (phys : ℕ → ℕ) (contents : ℕ → Table) (fuel : ℕ)
    → around.has_framebuffer ≡ true
    → has_capability d cap_gmr ≡ true
    → is_high ss ≡ false
    → 0 < length ss
    → length ss + chain_pages ss ≤ around.max_descriptor_length
    → around.allocated ≡ true
    → around.prepared ≡ none
    → IsFull ss
    → IsRuns around.helper (chain_pages ss) phys
    → ((i : ℕ) → i < chain_pages ss → phys i ≢ 0)
    → ((page i : ℕ)
        → page < chain_pages ss
        → i < 512
        → contents (phys page) i ≡ chain ss around.helper (chain_pages ss) (page * 512 + i))
    → 2 * length ss < fuel
    → (create_gmr host around gmr_id (some ss) d ≡ (
      success,
      some (chain ss around.helper (chain_pages ss)),
      (define_gmr host gmr_id (phys 0) d).1,
    ))
      × (read_chain fuel contents (phys 0) 0 ≡ some (map descriptor ss))
unfolding create_gmr chain
read_chain-create_gmr host around gmr_id ss d phys contents fuel framebuffer able low pos fits
      allocated prepared full runs nz mem fe =
    let (same, inside, top, run) = runs 0 (omega arith) in
    (
      rw (
        framebuffer,
        able,
        low,
        allocated,
        prepared,
        ==-false (length ss) 0 (omega arith),
        le→not_ltb around.max_descriptor_length (length ss + chain_pages ss) fits,
        same,
      ),
      read_chain-fill around.helper (chain_pages ss) phys contents runs nz ss 0 0 fuel
          ((around.helper 0).0 + 1) ((around.helper 0).1 - 1) 1 511 0 (λ i. (0, 0)) refl refl refl
          (omega arith) (omega arith)
          (IsRun-suc around.helper (chain_pages ss) phys (around.helper 0).0 (around.helper 0).1 0
            inside (top, run)).2
          (omega arith) full (λ i h. refl) mem fe,
    )
