-- ===== src/Surface/Sound/Locked.antt =====
-- The locks keep to the rules of the memory.
use docker_macos.Base.{ℕ, ◌≡◌, refl, ap, inl, inr, true, false, some, ◌==◌, arith, Bool-cases}
use docker_macos.Ids.{Ids}
use docker_macos.Transfer.{sync}
use docker_macos.Surface.{
  Kernel, Surface, Locks, is_backing_valid, in_world, release_map1, release_map0, alloc_backing,
}
use docker_macos.Surface.Backing.{IsBacked}
use docker_macos.Surface.Backing.Alloc.{
  mapped, alloc_backing_lem, map_backing0-IsBacked, map_backing1-IsBacked,
}
use docker_macos.Surface.Kept.{Kept, Kept-IsBacked}
use docker_macos.Surface.Lock.{
  set_read, set_write, set_context, map_memory, map_for_context, surface_read_lock, finish_write,
  write_locked, surface_write_lock, setup_trick_buffer, show_black, black_pixel, clear_yuv_to_black,
  context_lock_memory, context_unlock_memory,
}
use docker_macos.Surface.Sound.Reshaped.{map0-valid, map1-valid}

module _ {W : Type 0} (k : Kernel W) (a : Ids) where
  pub map_memory_lem :
      (s : Surface W)
      → IsBacked a s
      → let r = map_memory k s in IsBacked a r.1 × (r.0 ≡ true → is_backing_valid r.1 ≡ true)
  unfolding map_memory
  map_memory_lem s v =
      let m = alloc_backing_lem k a s v in
      elim (Bool-cases (alloc_backing k s).0) [
        | inl ok ↦
            simp (ok, map_memory)
              (
                map_backing0-IsBacked k a s.owning_task (alloc_backing k s).1 m.0 (m.1 ok),
                λ h. map0-valid k s.owning_task (alloc_backing k s).1 (m.1 ok),
              )
        | inr bad ↦ simp (bad, map_memory) (m.0, λ h. cc)
      ]

  map_for_context_lem :
      (task : ℕ) (s : Surface W)
      → IsBacked a s
      → let r = map_for_context k task s in
        IsBacked a r.1 × (r.0 ≡ true → is_backing_valid r.1 ≡ true)
  unfolding map_for_context
  map_for_context_lem task s v =
      let m = alloc_backing_lem k a s v in
      elim (Bool-cases (alloc_backing k s).0) [
        | inl ok ↦
            simp (ok, map_for_context)
              (
                map_backing1-IsBacked k a task (alloc_backing k s).1 m.0 (m.1 ok),
                λ h. map1-valid k task (alloc_backing k s).1 (m.1 ok),
              )
        | inr bad ↦ simp (bad, map_for_context) (m.0, λ h. cc)
      ]

  sync-Kept : (s : Surface W) → Kept s (record s { transfer = sync (some k.provider) s.transfer })
  unfolding sync
  sync-Kept s = ground arith

  finish-IsBacked : (s : Surface W) → IsBacked a s → IsBacked a (finish_write k s).2
  unfolding finish_write
  finish-IsBacked s v =
      let t = record s { transfer = sync (some k.provider) s.transfer } in
      elim (Bool-cases (s.scale.buffer_offset == 0)) [
        | inl waits ↦ simp (waits, finish_write) (Kept-IsBacked a s t (sync-Kept s) v)
        | inr packed ↦ simp (packed, finish_write) v
      ]

  pub lock-IsBacked :
      (l : Locks) (s : Surface W) → IsBacked a s → IsBacked a (record s { locks = l })
  lock-IsBacked l s v = record {
    region = v.region;
    either = v.either;
    vram = v.vram;
    client = v.client;
    unmapped = v.unmapped;
  }

  pub read_lock-IsBacked :
      (s : Surface W) → IsBacked a s → IsBacked a (surface_read_lock k true s).2
  unfolding surface_read_lock
  read_lock-IsBacked s v =
      let r = map_memory k (set_read true s) in
      let m = (map_memory_lem (set_read true s) (lock-IsBacked (set_read true s).locks s v)).0 in
      ground (
        arith,
        v,
        m,
        lock-IsBacked (set_read true s).locks s v,
        lock-IsBacked (set_read false r.1).locks r.1 m,
      )

  write_locked-IsBacked : (s : Surface W) → IsBacked a s → IsBacked a (write_locked k s).2
  unfolding write_locked
  write_locked-IsBacked s v =
      let r = map_memory k s in
      let m = (map_memory_lem s v).0 in
      ground (
        arith,
        finish-IsBacked s v,
        finish-IsBacked r.1 m,
        lock-IsBacked (set_write false r.1).locks r.1 m,
      )

  pub write_lock-IsBacked :
      (s : Surface W) → IsBacked a s → IsBacked a (surface_write_lock k true s).2
  unfolding surface_write_lock
  write_lock-IsBacked s v =
      let skipped = record s { flags = record s.flags { skip_write_lock_once = false } } in
      let w : IsBacked a skipped = record {
        region = v.region;
        either = v.either;
        vram = v.vram;
        client = v.client;
        unmapped = v.unmapped;
      } in
      ground (
        arith,
        v,
        write_locked-IsBacked skipped w,
        write_locked-IsBacked (set_write true s) (lock-IsBacked (set_write true s).locks s v),
      )

  cleared :
      (m n : ℕ) (s : Surface W)
      → let t = clear_yuv_to_black k m n s in
        (t.transfer.buffer ≡ s.transfer.buffer)
        × (t.transfer.ids ≡ s.transfer.ids)
        × (t.memory ≡ s.memory)
  unfolding clear_yuv_to_black black_pixel
  cleared m n s = ground arith

  black-IsBacked :
      (m : ℕ) (w : W) (s : Surface W)
      → IsBacked a s
      → is_backing_valid s ≡ true
      → IsBacked a (show_black k m (in_world w s)).1
  unfolding show_black release_map0
  black-IsBacked m w s v h =
      let (b, i, e) = cleared m s.memory.size (in_world w s) in
      mapped k a s (show_black k m (in_world w s)).1 v h b i (ap (λ x. x.self) e)
        (ap (λ x. x.gart_ptr) e)

  trick-IsBacked : (s : Surface W) → IsBacked a s → IsBacked a (setup_trick_buffer k s).1
  unfolding setup_trick_buffer
  trick-IsBacked s v = elim (Bool-cases (is_backing_valid s)) [
    | inr bare ↦ simp (bare, setup_trick_buffer) v
    | inl backed ↦ ground (
      arith,
      v,
      black-IsBacked
          (k.pageable_map 0
            (k.pageable_prepare (k.pageable_md s.memory.size s.transfer.world).1).1).0
          (k.pageable_map 0
            (k.pageable_prepare (k.pageable_md s.memory.size s.transfer.world).1).1).1
          s v backed,
    )
  ]

  pub context_lock-IsBacked :
      (task : ℕ) (s : Surface W) → IsBacked a s → IsBacked a (context_lock_memory k true task s).2
  unfolding context_lock_memory
  context_lock-IsBacked task s v =
      let t = (map_for_context k task (set_context true s)).1 in
      let m =
        (map_for_context_lem task (set_context true s)
          (lock-IsBacked (set_context true s).locks s v)).0 in
      ground (arith, v, m, trick-IsBacked t m, lock-IsBacked (set_context false t).locks t m)

  pub context_unlock-IsBacked :
      (s : Surface W) → IsBacked a s → IsBacked a (context_unlock_memory k s).1
  unfolding context_unlock_memory release_map1
  context_unlock-IsBacked s v = record {
    region = v.region;
    either = v.either;
    vram = v.vram;
    client = v.client;
    unmapped = λ z n. ((v.unmapped z n).0, refl);
  }
