-- ===== src/Surface/Backing.antt =====
-- What the memory behind a surface keeps to, whichever way it is made, changed and released.
pub mod Alloc
pub mod Leak
use docker_macos.Base.{
  ℕ, ◌-◌, ◌%◌, ◌≤◌, ◌<◌, ◌≡◌, ◌≢◌, ◌⊎◌, refl, sym, ap, ◌∙◌, inl, inr, Bool, true, false, not, ◌||◌,
  some, none, ◌==◌, ltb, if◌then◌else◌, arith, Bool-cases,
}
use mathlib.Core.Path.{subst}
use docker_macos.Ids.{Ids}
use docker_macos.Transfer.{State, init_buffer, success, is_id_valid, prepare, complete, discard}
use docker_macos.Transfer.Regions.{Unchanged, Taken}
use docker_macos.Transfer.Held.{Holds, discard-complete, prepare_held}
use docker_macos.Surface.{
  Kernel, Surface, gmr_vram, is_backing_valid, classify_backing, release_backing, release_map0,
  release_map1, adopt, wrap_new, wrap_client_backing, alloc_gmr_backing, alloc_new, drop_region,
  alloc_backing, map_backing0, map_backing1, in_world,
}

module _ {W : Type 0} where
  -- The backing is video memory or a memory descriptor or neither, never both. The descriptor has a
  -- region, which is the only identifier in use that was not in use in `a`; video memory goes under
  -- the identifier of the framebuffer. Without backing nothing is mapped.
  pub record IsBacked (a : Ids) (s : Surface W) : Type 0 where
    pub region : Holds s.transfer.buffer.has_md s.transfer.buffer.gmr_id a s.transfer.ids
    pub either : s.memory.self ≢ 0 → s.transfer.buffer.has_md ≡ false
    pub vram : s.memory.self ≢ 0 → s.transfer.buffer.gmr_id ≡ gmr_vram
    pub client : s.memory.gart_ptr ≢ 0 → s.transfer.buffer.has_md ≡ true
    pub unmapped :
        s.memory.self ≡ 0
        → s.transfer.buffer.has_md ≡ false
        → (s.memory.map0 ≡ 0) × (s.memory.map1 ≡ 0)

  -- Nothing is held.
  pub record IsBare (a : Ids) (s : Surface W) : Type 0 where
    pub region : Holds false s.transfer.buffer.gmr_id a s.transfer.ids
    pub no_md : s.transfer.buffer.has_md ≡ false
    pub no_client : s.memory.gart_ptr ≡ 0
    pub no_map0 : s.memory.map0 ≡ 0
    pub no_map1 : s.memory.map1 ≡ 0

abbrev with_md : {W : Type 0} → State W → State W
with_md t = record t { buffer = record t.buffer { has_md = true } }

module _ {W : Type 0} (k : Kernel W) (a : Ids) where
  pub release_backing-IsBare :
      (s : Surface W)
      → IsBacked a s
      → IsBare a (release_backing k s) × ((release_backing k s).memory.self ≡ 0)
  unfolding release_backing init_buffer
  release_backing-IsBare s v =
      let d = discard-complete k.provider a _ v.region in
      (
        record {
          region = (d.1.0, refl);
          no_md = refl;
          no_client = refl;
          no_map0 = refl;
          no_map1 = refl;
        },
        refl,
      )

  pub drop_region-IsBare :
      (s : Surface W) → IsBacked a s → s.memory.gart_ptr ≡ 0 → IsBare a (drop_region k s)
  unfolding drop_region release_map0 release_map1
  drop_region-IsBare s v g =
      let d = discard-complete k.provider a _ v.region in
      record { region = d.1; no_md = d.0; no_client = g; no_map0 = refl; no_map1 = refl }

  adopt-IsBacked :
      (gart : ℕ) (s : Surface W)
      → IsBare a s
      → s.memory.self ≡ 0
      → let r = adopt k gart s in
        IsBacked a r.1
        × (r.0 ≡ true → r.1.transfer.buffer.has_md ≡ true)
        × (r.1.memory.size ≡ s.memory.size)
  unfolding adopt
  adopt-IsBacked gart s b e =
      let (md, r) = prepare_held k.provider a (with_md s.transfer) b.region in
      elim r [
        | inl (ok, t) ↦
            let tested : ((prepare (some k.provider) (with_md s.transfer)).0 == success) ≡ true =
              ground arith in
            rw (tested, adopt)
              (
                record {
                  region = rw md t;
                  either = λ n. absurd (n e);
                  vram = λ n. absurd (n e);
                  client = λ n. md;
                  unmapped = λ z n. cc;
                },
                λ x. md,
                refl,
              )
        | inr (bad, t) ↦
            let tested : ((prepare (some k.provider) (with_md s.transfer)).0 == success) ≡ false =
              ground arith in
            rw (tested, adopt)
              (
                record {
                  region = t;
                  either = λ n. refl;
                  vram = λ n. absurd (n e);
                  client = λ n. absurd (n b.no_client);
                  unmapped = λ z n. (b.no_map0, b.no_map1);
                },
                λ x. cc,
                refl,
              )
      ]

  -- What is left when backing was asked for: the state is sound; if the answer is true, there is
  -- backing, of at least the size that was asked for.
  pub record Made (size : ℕ) (r : Bool × Surface W) : Type 0 where
    pub backed : IsBacked a r.1
    pub valid : r.0 ≡ true → is_backing_valid r.1 ≡ true
    pub fits : r.0 ≡ true → size ≤ r.1.memory.size

  pub has_md-valid : (s : Surface W) → s.transfer.buffer.has_md ≡ true → is_backing_valid s ≡ true
  unfolding is_backing_valid
  has_md-valid s h = rw h (ground arith)

  adopt-Made :
      (gart : ℕ) (s : Surface W)
      → IsBare a s
      → s.memory.self ≡ 0
      → Made s.memory.size (adopt k gart s)
  adopt-Made gart s b e =
      let (v, md, z) = adopt-IsBacked gart s b e in
      record {
        backed = v;
        valid = λ h. has_md-valid (adopt k gart s).1 (md h);
        fits = λ h. omega (arith, z);
      }

  pub bare-IsBacked : (s : Surface W) → IsBare a s → s.memory.self ≡ 0 → IsBacked a s
  bare-IsBacked s b e = record {
    region = rw b.no_md b.region;
    either = λ n. b.no_md;
    vram = λ n. absurd (n e);
    client = λ n. absurd (n b.no_client);
    unmapped = λ z n. (b.no_map0, b.no_map1);
  }

  pub wrap_new-Made :
      (s : Surface W) → IsBare a s → s.memory.self ≡ 0 → Made s.scale.byte_size (wrap_new k s)
  unfolding wrap_new
  wrap_new-Made s b e =
      elim (Bool-cases
        (k.client_md (s.client.addr - s.client.addr % 4096) s.scale.byte_size s.transfer.world).0) [
          | inl ok ↦
              simp (ok, wrap_new)
                (adopt-Made 1 _
                  (record {
                    region = b.region;
                    no_md = b.no_md;
                    no_client = b.no_client;
                    no_map0 = b.no_map0;
                    no_map1 = b.no_map1;
                  })
                  e)
          | inr bad ↦
              simp (bad, wrap_new)
                (record {
                  backed =
                      bare-IsBacked _
                        (record {
                          region = b.region;
                          no_md = b.no_md;
                          no_client = b.no_client;
                          no_map0 = b.no_map0;
                          no_map1 = b.no_map1;
                        })
                        e;
                  valid = λ h. cc;
                  fits = λ h. cc;
                })
        ]

  rebare :
      (s t : Surface W)
      → IsBare a s
      → t.transfer.buffer ≡ s.transfer.buffer
      → t.transfer.ids ≡ s.transfer.ids
      → t.memory.gart_ptr ≡ s.memory.gart_ptr
      → t.memory.map0 ≡ s.memory.map0
      → t.memory.map1 ≡ s.memory.map1
      → IsBare a t
  rebare s t b eb ei eg e0 e1 = record {
    region = rw (eb, ei) b.region;
    no_md = ap (λ x. x.has_md) eb ∙ b.no_md;
    no_client = eg ∙ b.no_client;
    no_map0 = e0 ∙ b.no_map0;
    no_map1 = e1 ∙ b.no_map1;
  }

  alloc_gmr-Made :
      (s : Surface W) → IsBare a s → s.memory.self ≡ 0 → Made s.memory.size (alloc_gmr_backing k s)
  unfolding alloc_gmr_backing
  alloc_gmr-Made s b e = elim (Bool-cases (k.kernel_md s.memory.size s.transfer.world).0) [
    | inl ok ↦
        simp (ok, alloc_gmr_backing) (adopt-Made 0 _ (rebare s _ b refl refl refl refl refl) e)
    | inr bad ↦
        simp (bad, alloc_gmr_backing)
          (record {
            backed = bare-IsBacked _ (rebare s _ b refl refl refl refl refl) e;
            valid = λ h. cc;
            fits = λ h. cc;
          })
  ]

  pub alloc_new-Made : (s : Surface W) → IsBare a s → Made s.scale.byte_size (alloc_new k s)
  unfolding alloc_new
  alloc_new-Made s b =
      let p = (k.vram_realloc s.memory.self s.scale.byte_size s.transfer.world).0 in
      elim (Bool-cases (p == 0)) [
        | inl null ↦
            simp (null, alloc_new)
              (alloc_gmr-Made _ (rebare s _ b refl refl refl refl refl) (ground arith))
        | inr block ↦
            simp (block, alloc_new)
              (record {
                backed = record {
                  region = rw b.no_md (b.region.0, refl);
                  either = λ n. b.no_md;
                  vram = λ n. refl;
                  client = λ n. absurd (n b.no_client);
                  unmapped = λ z n. (b.no_map0, b.no_map1);
                };
                valid = λ h. (unfold is_backing_valid in ground arith);
                fits = λ h. omega arith;
              })
      ]
