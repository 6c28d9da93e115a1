-- ===== src/Accel/Chain/Tests.antt =====
-- The chain of descriptors of a region of 600 pages, which takes two pages of descriptors.
use docker_macos.Base.{
  ℕ, zero, suc, ◌+◌, ◌-◌, ◌*◌, ◌%◌, ◌≡◌, refl, ap, true, false, none, some, List, [], ◌∷◌, map,
  length, arith,
}
use docker_macos.Svga.{has_capability}
use docker_macos.Svga.Commands.{define_gmr}
use docker_macos.Svga.Tests.{reader}
use docker_macos.Accel.Tests.{able}
use docker_macos.Accel.Regions.{Segment}
use docker_macos.Accel.Chain.{
  Table, IsFull, Surroundings, descriptor, chain, read_chain, is_high, chain_pages, create_gmr,
  success, bad_argument, fill_chain,
}
use docker_macos.Accel.Chain.Read.{read_chain-create_gmr}

-- One page each, with a gap behind every page.
abbrev pieces : (n : ℕ) → List Segment
pieces zero = []
pieces (suc n) = (8192 * (n % 1024) + 4096, 4096) ∷ pieces n

abbrev region : List Segment
region = pieces 600

length-pieces : (n : ℕ) → length (pieces n) ≡ n
length-pieces zero = refl
length-pieces (suc n) = ap suc (length-pieces n)

pieces-IsFull : (n : ℕ) → IsFull (pieces n)
pieces-IsFull zero = tt
pieces-IsFull (suc n) = (λ e. omega arith, pieces-IsFull n)

pieces-low : (n : ℕ) → is_high (pieces n) ≡ false
pieces-low zero = refl
pieces-low (suc n) = ground (arith, pieces-low n)

-- The two pages of descriptors stand apart, in the other order.
abbrev place : ℕ → ℕ
place i = 101 - i

abbrev around : Surroundings
around = record {
  has_framebuffer = true;
  max_descriptor_length = 1000;
  allocated = true;
  prepared = none;
  helper = λ i. (place i, 1);
}

abbrev contents : ℕ → Table
contents ppn i = chain region around.helper (chain_pages region) ((101 - ppn) * 512 + i)

read_chain-create_gmr_example :
    (create_gmr reader around 3 (some region) able ≡ (
      success,
      some (chain region around.helper (chain_pages region)),
      (define_gmr reader 3 101 able).1,
    ))
    × (read_chain 1201 contents 101 0 ≡ some (map descriptor region))
unfolding has_capability
read_chain-create_gmr_example =
    read_chain-create_gmr reader around 3 region able place contents 1201 refl refl (pieces-low 600)
      (omega (arith, length-pieces 600)) (omega (arith, length-pieces 600)) refl refl
      (pieces-IsFull 600) (λ i h. (refl, omega arith, omega arith, λ k g. omega arith))
      (λ i h e. omega (arith, length-pieces 600))
      (λ page i h g.
        ap (λ k. chain region around.helper (chain_pages region) (k * 512 + i))
          (omega (arith, length-pieces 600)))
      (omega (arith, length-pieces 600))

-- A run over three segments, and what it leaves behind them.
filled : chain (pieces 3) around.helper 1 2 ≡ (1, 1)
unfolding chain fill_chain
filled = refl

behind : chain (pieces 3) around.helper 1 3 ≡ (0, 0)
unfolding chain fill_chain
behind = refl

-- The last slot of the first page holds the link.
linked : chain region around.helper 2 511 ≡ (100, 0)
unfolding chain fill_chain
linked = refl

-- A null pointer, and a descriptor without segments.
refused :
    (create_gmr reader around 3 none able ≡ (bad_argument, none, able))
    × (create_gmr reader around 3 (some []) able ≡ (bad_argument, none, able))
unfolding create_gmr has_capability
refused = (refl, refl)
