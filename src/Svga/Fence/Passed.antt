-- ===== src/Svga/Fence/Passed.antt =====
-- Fences: the numbers that InsertFence gives out, and the test of HasFencePassed against an
-- unbounded count of fences.
use docker_macos.Base.{ℕ, ◌^◌, ◌+◌, ◌%◌, ◌≤◌, ◌<◌, ◌≡◌, refl, ◌≢◌, true, some, [], ◌∷◌, arith, leb}
use docker_macos.Base.Word.{add32, u32}
use docker_macos.Svga.{Host, Device, Pointer, has_fifo_cap}
use docker_macos.Svga.Fifo.{fifo_reserve, fifo_commit_all, put}
use docker_macos.Svga.Fifo.Send.{Sent, CanSend, sent_lem}
use docker_macos.Svga.Fifo.Counted.{sent-next}
use docker_macos.Svga.Fence.{passed_unguarded, next_fence_id, has_fence_passed, insert_fence}

module _ {H : Type 0} where
  -- If the device has the fence capability and has reached the fence number `reached`, counted
  -- without bound, then HasFencePassed tells for every fence number `fence` less than 2 ^ 31 away,
  -- whose 32 bits are not 0, whether the device has reached it; both numbers are stored by their
  -- lowest 32 bits.
  pub has_fence_passed_lem :
      (d : Device H) (reached fence : ℕ)
      → has_fifo_cap d 1 ≡ true
      → d.fifo 6 ≡ reached % u32
      → fence % u32 ≢ 0
      → reached < fence + 0x8000_0000
      → fence ≤ reached + 0x8000_0000
      → has_fence_passed d (fence % u32) ≡ leb fence reached
  unfolding has_fence_passed passed_unguarded
  has_fence_passed_lem d reached fence cap e nz above below = rw (cap, e) (ground arith)

  -- The number of a fence is not 0, which stands for no fence.
  pub next_fence_id-positive : (d : Device H) → d.next_fence < u32 → 0 < next_fence_id d
  unfolding next_fence_id
  next_fence_id-positive d h = ground arith

  next_fence_id-same : (d : Device H) → d.next_fence ≢ 0 → next_fence_id d ≡ d.next_fence
  unfolding next_fence_id
  next_fence_id-same d h = ground arith

  next_fence_id-zero : (d : Device H) → d.next_fence ≡ 0 → next_fence_id d ≡ 1
  unfolding next_fence_id
  next_fence_id-zero d h = ground arith

  -- If a fence command of two dwords can be sent and the device has the fence capability, then
  -- InsertFence gives out the number of the next fence, or 1 in place of 0, sends SVGA_CMD_FENCE with
  -- it, and the number of the next fence is one more, in 32 bits.
  pub insert_fence_lem :
      (host : Host H) (fuel : ℕ) (d : Device H)
      → CanSend host fuel d 2
      → has_fifo_cap d 1 ≡ true
      → (fence : ℕ) × (e : Device H) × (insert_fence host fuel d ≡ some (fence, e))
        × Sent d (30 ∷ fence ∷ []) e
        × (d.next_fence ≢ 0 → fence ≡ d.next_fence)
        × (d.next_fence ≡ 0 → fence ≡ 1)
        × (e.next_fence ≡ (fence + 1) % 2 ^ 32)
  unfolding insert_fence
  insert_fence_lem host fuel d c cap =
      let d1 = record d { next_fence = add32 (next_fence_id d) 1 } in
      let c1 : CanSend host fuel d1 2 = record {
        drains = c.drains;
        valid = c.valid;
        idle = c.idle;
        fuel_enough = c.fuel_enough;
        small = c.small;
        fit = c.fit;
      } in
      finish (sent_lem host fuel 8 (30 ∷ next_fence_id d ∷ []) d1 c1 (λ e. omega arith) refl)
    where
      finish :
          let d1 = record d { next_fence = add32 (next_fence_id d) 1 } in
          ((p : Pointer) × (d' : Device H) × (fifo_reserve host fuel 8 d1 ≡ some (some p, d'))
            × Sent d1
                (30 ∷ next_fence_id d ∷ [])
                (fifo_commit_all (put p (30 ∷ next_fence_id d ∷ []) d')))
          → (fence : ℕ) × (e : Device H) × (insert_fence host fuel d ≡ some (fence, e))
            × Sent d (30 ∷ fence ∷ []) e
            × (d.next_fence ≢ 0 → fence ≡ d.next_fence)
            × (d.next_fence ≡ 0 → fence ≡ 1)
            × (e.next_fence ≡ (fence + 1) % 2 ^ 32)
      finish (p, d', q, sent) = (
        next_fence_id d,
        fifo_commit_all (put p (30 ∷ next_fence_id d ∷ []) d'),
        rw (cap, q, insert_fence),
        record {
          valid = sent.valid;
          idle = sent.idle;
          ring = sent.ring;
          read = sent.read;
          rest = sent.rest;
          before = sent.before;
          after = sent.after;
        },
        next_fence_id-same d,
        next_fence_id-zero d,
        sent-next host fuel 8 (30 ∷ next_fence_id d ∷ []) p
            (record d { next_fence = add32 (next_fence_id d) 1 }) d' q,
      )
