-- ===== src/Transfer/Tests.antt =====
-- Transfer buffers and fences at concrete states.
use docker_macos.Base.{ℕ, zero, suc, ◌+◌, ◌≡◌, refl, true, false, some, [], ◌∷◌, arith}
use docker_macos.Ids.{
  Word, Ids, alloc_gmr_id, alloc_from, find_bit_in_array64, find_bit, log_2_64, log_2_32,
}
use docker_macos.Ids.Ownership.{IsValid}
use docker_macos.Transfer.{
  Provider, State, Tracker, id_invalid, prepare, prepare_with, complete, discard, init_buffer,
  init_tracker, before, after, success,
}
use docker_macos.Transfer.Regions.{Prepared, Unchanged, prepare_lem, complete-prepare}

-- No identifier is in use.
abbrev pub unused : ℕ → Word
unused zero = []
unused (suc n) = false ∷ unused n

abbrev pub ids : Ids
ids = record {
  surface_id_mask = unused 64 ∷ unused 64 ∷ unused 64 ∷ unused 64 ∷ [];
  surface_id_idx = 0;
  surface_ids_unmanaged = 0;
  context_id_mask = unused 64;
  context_ids_unmanaged = 0;
  stream_id_mask = unused 32;
  gmr_id_mask = unused 64 ∷ unused 64 ∷ [];
  gmr_id_idx = 0;
}

pub ids-IsValid : IsValid ids
ids-IsValid = (
  record {
    size = refl;
    words = (refl, (refl, (refl, (refl, refl))));
    bound = omega arith;
    low = λ j h. absurd (omega arith);
  },
  record {
    size = refl;
    words = (refl, (refl, refl));
    bound = omega arith;
    low = λ j h. absurd (omega arith);
  },
)

-- The world counts calls; the accelerator refuses every region from the second on.
abbrev pub provider : Provider ℕ
provider = record {
  md_prepare = λ w. (0, w + 1);
  md_complete = λ w. w + 1;
  md_release = λ w. w + 1;
  create_gmr = λ id w. ((elim w [ zero ↦ 1 | suc zero ↦ 0 | suc (suc n) ↦ 1 ]), w + 1);
  drop_gmr = λ id w. w + 1;
  wait_for_fence = λ fence w. w + 1;
}

abbrev state : State ℕ
state = record {
  buffer = record { has_md = true; gmr_id = id_invalid; fence = 7 };
  ids = ids;
  world = 0;
}

prepare_lem_example : Prepared provider state (prepare (some provider) state)
prepare_lem_example = prepare_lem provider state ids-IsValid refl

prepared : (prepare (some provider) state).0 ≡ success
unfolding prepare prepare_with alloc_gmr_id alloc_from find_bit_in_array64 find_bit log_2_64
    log_2_32
prepared = refl

complete-prepare_example :
    ((complete (some provider) (prepare (some provider) state).1).buffer.gmr_id ≡ id_invalid)
    × ((complete (some provider) (prepare (some provider) state).1).buffer.fence ≡ 0)
    × Unchanged ids (complete (some provider) (prepare (some provider) state).1).ids
complete-prepare_example = complete-prepare provider state ids-IsValid refl prepared

discarded : (discard provider state).buffer.has_md ≡ false
unfolding discard
discarded = refl

initialised : (init_buffer state.buffer).gmr_id ≡ 4294967295
unfolding init_buffer
initialised = refl

-- Three fences, after the first was replaced.
abbrev tracker : Tracker
tracker = after 3 8 (record { counter = 0; fences = λ i. i + 5 })

cleared_tracker : before (init_tracker 3 tracker) ≡ 0
unfolding before init_tracker
cleared_tracker = refl
