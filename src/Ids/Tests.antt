-- ===== src/Ids/Tests.antt =====
-- The theorems on identifiers at a concrete state, and runs of the methods on it.
use docker_macos.Base.{
  ℕ, zero, suc, ◌<◌, ◌≡◌, ◌⊎◌, refl, true, false, ◌&&◌, some, [], ◌∷◌, ◌==◌, ltb, if◌then◌else◌,
  arith,
}
use docker_macos.Ids.{
  Word, Ids, alloc_surface_id, free_surface_id, free_into, alloc_stream_id, free_stream_id,
  free_context_id, free_gmr_id, find_bit, find_bit_in_array32, log_2_32,
}
use docker_macos.Ids.Masks.{bit}
use docker_macos.Ids.Alloc.{IsMask}
use docker_macos.Ids.Free.{free_into_lem}
use docker_macos.Ids.Ownership.{IsValid, alloc_surface_lem}

-- A word with the lowest `k` of its `n` bits set.
abbrev ones : ℕ → ℕ → Word
ones zero k = []
ones (suc n) zero = false ∷ ones n zero
ones (suc n) (suc k) = true ∷ ones n k

abbrev word : Word
word = ones 64 2

-- Two identifiers of every kind are in use.
abbrev state : Ids
state = record {
  surface_id_mask = word ∷ ones 64 0 ∷ ones 64 0 ∷ ones 64 0 ∷ [];
  surface_id_idx = 0;
  surface_ids_unmanaged = 0;
  context_id_mask = word;
  context_ids_unmanaged = 0;
  stream_id_mask = ones 32 2;
  gmr_id_mask = word ∷ ones 64 0 ∷ [];
  gmr_id_idx = 0;
}

surfaces-IsMask : IsMask 4 state.surface_id_mask 0
surfaces-IsMask = record {
  size = refl;
  words = (refl, (refl, (refl, (refl, refl))));
  bound = omega arith;
  low = λ j h. absurd (omega arith);
}

regions-IsMask : IsMask 2 state.gmr_id_mask 0
regions-IsMask = record {
  size = refl;
  words = (refl, (refl, refl));
  bound = omega arith;
  low = λ j h. absurd (omega arith);
}

free_into_lem_example :
    IsMask 2 (free_into 2 1 state.gmr_id_mask 0).0 (free_into 2 1 state.gmr_id_mask 0).1
    × ((j : ℕ)
        → bit (free_into 2 1 state.gmr_id_mask 0).0 j
          ≡ (if (j == 1) && ltb 1 128 then false else bit state.gmr_id_mask j))
free_into_lem_example = free_into_lem 2 1 state.gmr_id_mask 0 regions-IsMask

alloc_surface_lem_example :
    IsValid (alloc_surface_id state).1
    × ((((alloc_surface_id state).0 < 256)
          × (bit state.surface_id_mask (alloc_surface_id state).0 ≡ false)
          × (bit (alloc_surface_id state).1.surface_id_mask (alloc_surface_id state).0 ≡ true))
        ⊎ (((alloc_surface_id state).0 ≡ 256) × ((j : ℕ) → bit state.surface_id_mask j ≡ true)))
    × ((j : ℕ)
        → bit
            (free_surface_id (alloc_surface_id state).0 (alloc_surface_id state).1).surface_id_mask
            j
          ≡ bit state.surface_id_mask j)
alloc_surface_lem_example = alloc_surface_lem state (surfaces-IsMask, regions-IsMask) (omega arith)

-- Identifier 2 is the first stream that is free, and it is free again when it is released.
stream_test :
    ((alloc_stream_id state).0 ≡ some 2)
    × ((free_stream_id 2 (alloc_stream_id state).1).stream_id_mask ≡ state.stream_id_mask)
unfolding alloc_stream_id free_stream_id find_bit_in_array32 find_bit log_2_32
stream_test = (refl, refl)

-- Releasing context 1 and memory region 1 leaves only number 0 in use.
release_test :
    ((free_context_id 1 state).context_id_mask ≡ ones 64 1)
    × ((free_gmr_id 1 state).gmr_id_mask ≡ ones 64 1 ∷ ones 64 0 ∷ [])
unfolding free_context_id free_gmr_id free_into
release_test = (refl, refl)
