-- ===== src/Surface/Exclusion/Outcome.antt =====
-- How a request for the lock ends.
use docker_macos.Base.{
  ◌≡◌, ◌≢◌, refl, ◌∙◌, ◌⊎◌, inl, inr, Bool, true, false, not, ◌&&◌, Option, none, if◌then◌else◌,
  arith, Bool-cases,
}
use docker_macos.Ids.{Ids}
use docker_macos.Transfer.{sync}
use docker_macos.Surface.Backing.{IsBacked}
use docker_macos.Surface.{
  Kernel, Surface, Status, no_memory, is_backing_valid, success, cannot_lock,
}
use docker_macos.Surface.Shape.{is_source_valid, is_client_backing_valid}
use docker_macos.Surface.Lock.{
  Info, set_write, map_memory, finish_write, write_locked, surface_write_lock,
}
use docker_macos.Surface.Sound.Locked.{map_memory_lem, lock-IsBacked}
use docker_macos.Surface.Exclusion.Unmoved.{map_memory-Still}

module _ {W : Type 0} (k : Kernel W) where
  -- How a request for the lock ends, once the lock is taken: `unasked` if it was not asked for.
  pub data WriteLocked (unasked : Bool) (s : Surface W) (r : Status × Option Info × Surface W)
      : Type 0 where
    locked :
        r.0 ≡ success
        → r.1 ≢ none
        → r.2.locks ≡ (if unasked then s.locks else record s.locks { write = true })
        → ((s.client.addr ≢ 0) ⊎ (is_backing_valid r.2 ≡ true))
        → WriteLocked unasked s r
    unlocked :
        r.0 ≡ no_memory
        → r.1 ≡ none
        → s.client.addr ≡ 0
        → r.2.locks ≡ record s.locks { write = false }
        → WriteLocked unasked s r

  synced-valid :
      (s : Surface W) → is_backing_valid s ≡ true → is_backing_valid (finish_write k s).2 ≡ true
  unfolding finish_write sync is_backing_valid
  synced-valid s h = ground arith

  finish-locks : (s : Surface W) → (finish_write k s).2.locks ≡ s.locks
  unfolding finish_write
  finish-locks s = ground arith

  finish-success :
      (s : Surface W) → ((finish_write k s).0 ≡ success) × ((finish_write k s).1 ≢ none)
  unfolding finish_write
  finish-success s = (refl, λ e. cc)

  write_locked_lem :
      (a : Ids) (b : Bool) (s t : Surface W)
      → IsBacked a t
      → t.client ≡ s.client
      → t.locks ≡ (if b then s.locks else record s.locks { write = true })
      → WriteLocked b s (write_locked k t)
  unfolding write_locked
  write_locked_lem a b s t v c l =
      let m = map_memory_lem k a t v in
      let u = (map_memory k t).1 in
      let e = map_memory-Still k t in
      elim (Bool-cases (is_client_backing_valid t)) [
        | inl client ↦
            simp (client, write_locked)
              (locked (finish-success t).0 (finish-success t).1 (finish-locks t ∙ l)
                (inl (ground arith)))
        | inr kernel ↦ elim (Bool-cases (map_memory k t).0) [
          | inl ok ↦
              simp (kernel, ok, write_locked)
                (locked (finish-success u).0 (finish-success u).1 (finish-locks u ∙ e.locks ∙ l)
                  (inr (synced-valid u (m.1 ok))))
          | inr bad ↦
              simp (kernel, bad, write_locked) (unlocked refl refl (ground arith) (ground arith))
        ]
      ]

  ends :
      (s : Surface W) (unasked held : Bool) (x y : Status × Option Info × Surface W)
      → WriteLocked true s x
      → WriteLocked false s y
      → let r = if unasked then x else if held then (cannot_lock, none, s) else y in
        (if held && not unasked then (r ≡ (cannot_lock, none, s)) else WriteLocked unasked s r)
  ends s true true x y p q = p
  ends s true false x y p q = p
  ends s false true x y p q = refl
  ends s false false x y p q = q

  -- A request for the lock on a surface with an identifier and a source is refused, and changes
  -- nothing, exactly when the surface is locked for writing and the next lock is not to go unasked.
  -- Any other gives out the memory, of the client or backed, and leaves the surface locked, or as it
  -- was if the lock goes unasked; or there is no memory, and the surface is not locked any more. The
  -- other two locks stay as they are.
  pub write_lock_lem :
      (a : Ids) (s : Surface W)
      → IsBacked a s
      → (s.flags.have_id && is_source_valid s) ≡ true
      → let r = surface_write_lock k true s in
        let unasked = s.flags.skip_write_lock_once in
        (if s.locks.write && not unasked
          then (r ≡ (cannot_lock, none, s))
          else WriteLocked unasked s r)
  unfolding surface_write_lock
  write_lock_lem a s v ready =
      let skipped = record s { flags = record s.flags { skip_write_lock_once = false } } in
      rw (ready, surface_write_lock)
        (ends s s.flags.skip_write_lock_once s.locks.write (write_locked k skipped)
          (write_locked k (set_write true s))
          (write_locked_lem a true s skipped
            (record {
              region = v.region;
              either = v.either;
              vram = v.vram;
              client = v.client;
              unmapped = v.unmapped;
            })
            refl refl)
          (write_locked_lem a false s (set_write true s)
            (lock-IsBacked k a (set_write true s).locks s v) refl refl))
