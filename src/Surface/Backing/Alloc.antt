-- ===== src/Surface/Backing/Alloc.antt =====
-- allocBacking and mapBacking keep to the rules.
use docker_macos.Base.{ℕ, ◌≤◌, ◌≡◌, refl, inl, inr, true, false, ◌==◌, ltb, arith, Bool-cases}
use mathlib.Core.Path.{subst}
use docker_macos.Ids.{Ids}
use docker_macos.Transfer.Held.{Holds}
use docker_macos.Surface.{
  Kernel, Surface, is_backing_valid, classify_backing, release_backing, release_map0, release_map1,
  wrap_client_backing, drop_region, alloc_backing, map_backing0, map_backing1,
}
use docker_macos.Surface.Backing.{
  IsBacked, IsBare, release_backing-IsBare, drop_region-IsBare, wrap_new-Made, alloc_new-Made,
  has_md-valid,
}

module _ {W : Type 0} (k : Kernel W) (a : Ids) where
  kernel-no_client : (s : Surface W) → IsBacked a s → classify_backing s ≡ 1 → s.memory.gart_ptr ≡ 0
  unfolding classify_backing
  kernel-no_client s v h = ground (arith, v.client, v.either)

  unbacked :
      (s : Surface W)
      → IsBacked a s
      → (classify_backing s ≡ 1 → ⊥)
      → (classify_backing s ≡ 2 → ⊥)
      → (s.memory.self ≡ 0) × (s.transfer.buffer.has_md ≡ false)
  unfolding classify_backing
  unbacked s v h g = ground arith

  unbacked-IsBare :
      (s : Surface W)
      → IsBacked a s
      → s.memory.self ≡ 0
      → s.transfer.buffer.has_md ≡ false
      → IsBare a s
  unbacked-IsBare s v e n =
      let none_mapped = v.unmapped e n in
      let no_client : s.memory.gart_ptr ≡ 0 = ground (arith, v.client) in
      let held : Holds false s.transfer.buffer.gmr_id a s.transfer.ids =
        subst (λ x. Holds x s.transfer.buffer.gmr_id a s.transfer.ids) n v.region in
      record {
        region = held;
        no_md = n;
        no_client = no_client;
        no_map0 = none_mapped.0;
        no_map1 = none_mapped.1;
      }

  client-has_md : (s : Surface W) → classify_backing s ≡ 2 → s.transfer.buffer.has_md ≡ true
  unfolding classify_backing
  client-has_md s h = ground arith

  classified-valid : (s : Surface W) → classify_backing s ≡ 1 → is_backing_valid s ≡ true
  unfolding classify_backing is_backing_valid
  classified-valid s h = ground arith

  pub wrap_client-Made :
      (s : Surface W)
      → IsBacked a s
      → let r = wrap_client_backing k s in
        IsBacked a r.1 × (r.0 ≡ true → is_backing_valid r.1 ≡ true)
  unfolding wrap_client_backing
  wrap_client-Made s v =
      let (b, e) = release_backing-IsBare k a s v in
      let m = wrap_new-Made k a (release_backing k s) b e in
      elim (Bool-cases (classify_backing s == 1)) [
        | inl kernel ↦ simp (kernel, wrap_client_backing) (m.backed, m.valid)
        | inr no_kernel ↦ elim (Bool-cases (classify_backing s == 2)) [
          | inl client ↦ elim (Bool-cases (s.memory.gart_ptr == 1)) [
            | inl same ↦
                simp (no_kernel, client, same, wrap_client_backing)
                  (v, λ h. has_md-valid k a s (client-has_md s (ground arith)))
            | inr changed ↦
                simp (no_kernel, client, changed, wrap_client_backing) (m.backed, m.valid)
          ]
          | inr no_client ↦
              let (z, n) = unbacked s v (λ h. ground arith) (λ h. ground arith) in
              let w = wrap_new-Made k a s (unbacked-IsBare s v z n) z in
              simp (no_kernel, no_client, wrap_client_backing) (w.backed, w.valid)
        ]
      ]

  -- allocBacking, on every branch.
  pub alloc_backing_lem :
      (s : Surface W)
      → IsBacked a s
      → let r = alloc_backing k s in
        IsBacked a r.1
        × (r.0 ≡ true → is_backing_valid r.1 ≡ true)
        × (r.0 ≡ true → s.client.addr ≡ 0 → s.scale.byte_size ≤ r.1.memory.size)
  unfolding alloc_backing
  alloc_backing_lem s v = elim (Bool-cases (s.client.addr == 0)) [
    | inr wrap ↦
        let (b, m) = wrap_client-Made s v in
        simp (wrap, alloc_backing) (b, m, λ h z. absurd (ground arith))
    | inl own ↦ elim (Bool-cases (classify_backing s == 1)) [
      | inl kernel ↦
          let is : classify_backing s ≡ 1 = ground arith in
          elim (Bool-cases (ltb s.memory.size s.scale.byte_size)) [
            | inl grown ↦
                let m =
                  alloc_new-Made k a (drop_region k s)
                    (drop_region-IsBare k a s v (kernel-no_client s v is)) in
                simp (own, kernel, grown, alloc_backing)
                  (
                    m.backed,
                    m.valid,
                    λ h z. unfold drop_region release_map0 release_map1 in m.fits h,
                  )
            | inr fits ↦
                simp (own, kernel, fits, alloc_backing)
                  (v, λ h. classified-valid s is, λ h z. ground arith)
          ]
      | inr no_kernel ↦ elim (Bool-cases (classify_backing s == 2)) [
        | inl client ↦
            let m = alloc_new-Made k a (release_backing k s) (release_backing-IsBare k a s v).0 in
            simp (own, no_kernel, client, alloc_backing)
              (m.backed, m.valid, λ h z. unfold release_backing in m.fits h)
        | inr no_client ↦
            let (z, n) = unbacked s v (λ h. ground arith) (λ h. ground arith) in
            let m = alloc_new-Made k a s (unbacked-IsBare s v z n) in
            simp (own, no_kernel, no_client, alloc_backing) (m.backed, m.valid, λ h z. m.fits h)
      ]
    ]
  ]

  -- A map changes neither, and there is backing to map.
  pub mapped :
      (s t : Surface W)
      → IsBacked a s
      → is_backing_valid s ≡ true
      → t.transfer.buffer ≡ s.transfer.buffer
      → t.transfer.ids ≡ s.transfer.ids
      → t.memory.self ≡ s.memory.self
      → t.memory.gart_ptr ≡ s.memory.gart_ptr
      → IsBacked a t
  unfolding is_backing_valid
  mapped s t v h eb ei es eg = record {
    region = rw (eb, ei) v.region;
    either = rw (eb, es) v.either;
    vram = rw (eb, es) v.vram;
    client = rw (eb, eg) v.client;
    unmapped = rw (eb, es) (λ z n. absurd (ground arith));
  }

  pub map_backing0-IsBacked :
      (task : ℕ) (s : Surface W)
      → IsBacked a s
      → is_backing_valid s ≡ true
      → IsBacked a (map_backing0 k task s).1
  unfolding map_backing0
  map_backing0-IsBacked task s v h = elim (Bool-cases (s.memory.map0 == 0)) [
    | inl new ↦ simp (new, map_backing0) (mapped s _ v h refl refl refl refl)
    | inr old ↦ simp (old, map_backing0) v
  ]

  pub map_backing1-IsBacked :
      (task : ℕ) (s : Surface W)
      → IsBacked a s
      → is_backing_valid s ≡ true
      → IsBacked a (map_backing1 k task s).1
  unfolding map_backing1
  map_backing1-IsBacked task s v h = elim (Bool-cases (s.memory.map1 == 0)) [
    | inl new ↦ simp (new, map_backing1) (mapped s _ v h refl refl refl refl)
    | inr old ↦ simp (old, map_backing1) v
  ]
