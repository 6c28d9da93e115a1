-- ===== src/Surface/Sound/Reshaped.antt =====
-- A new shape keeps to the rules of the memory.
use docker_macos.Base.{
  ◌%◌, ℕ, ◌≡◌, refl, inl, inr, Bool, true, false, not, ◌&&◌, Option, none, some, ltb, ◌==◌,
  if◌then◌else◌, arith, Bool-cases,
}
use docker_macos.Ids.{Ids}
use docker_macos.Base.Word.{u32}
use docker_macos.Surface.{
  Kernel, Surface, Client, no_client, is_backing_valid, in_world, map_backing0, map_backing1,
}
use docker_macos.Surface.Backing.{IsBacked}
use docker_macos.Surface.Kept.{
  Kept, Kept-IsBacked, Kept-trans, same_masks, video_reshape-Kept, clear_last_region-Kept,
}
use docker_macos.Surface.Shape.{is_region_empty, clear_last_region, calculate_scale_parameters}
use docker_macos.Surface.Overlays.{video_reshape}
use docker_macos.Surface.Reshape.{
  Request, client_size, set_client, identity_scale, adopt_shape, copy_shape, set_shape,
}

module _ {W : Type 0} (k : Kernel W) where
  identity_scale-Kept : (q : Request) (s : Surface W) → Kept s (identity_scale k q s)
  unfolding identity_scale calculate_scale_parameters
  identity_scale-Kept q s = ground arith

  abbrev shaped : Request → Surface W → Surface W
  shaped q s = record s {
    last_region = some q.region;
    framebuffer_index = q.framebuffer_index % u32;
  }

  scaled-Kept :
      (b : Bool) (q : Request) (s : Surface W)
      → Kept s (if b then identity_scale k q (shaped q s) else shaped q s)
  scaled-Kept true q s =
      Kept-trans s (shaped q s) (identity_scale k q (shaped q s))
        (record { memory = refl; has_md = refl; gmr_id = refl; masks = same_masks s.transfer.ids })
        (identity_scale-Kept q (shaped q s))
  scaled-Kept false q s = record {
    memory = refl;
    has_md = refl;
    gmr_id = refl;
    masks = same_masks s.transfer.ids;
  }

  flagged-Kept :
      (b : Bool) (s t : Surface W)
      → Kept s t
      → Kept s
          (if b then record t { flags = record t.flags { skip_write_lock_once = true } } else t)
  flagged-Kept true s t e = record {
    memory = e.memory;
    has_md = e.has_md;
    gmr_id = e.gmr_id;
    masks = e.masks;
  }
  flagged-Kept false s t e = e

  pub map0-valid :
      (task : ℕ) (s : Surface W)
      → is_backing_valid s ≡ true
      → is_backing_valid (map_backing0 k task s).1 ≡ true
  unfolding map_backing0 is_backing_valid
  map0-valid task s h = ground arith

  pub map1-valid :
      (task : ℕ) (s : Surface W)
      → is_backing_valid s ≡ true
      → is_backing_valid (map_backing1 k task s).1 ≡ true
  unfolding map_backing1 is_backing_valid
  map1-valid task s h = ground arith

  adopt_shape-Kept : (q : Request) (s : Surface W) → Kept s (adopt_shape k q s)
  unfolding adopt_shape
  adopt_shape-Kept q s =
      let u = if q.identity_scale then identity_scale k q (shaped q s) else shaped q s in
      let v = video_reshape k u in
      flagged-Kept ((v.format.w_id == 1) && (q.options == 5)) s v
        (Kept-trans s u v (scaled-Kept q.identity_scale q s) (video_reshape-Kept k u))

  copy_shape-Kept : (q : Request) (s : Surface W) → Kept s (copy_shape k q s).1
  unfolding copy_shape
  copy_shape-Kept q s = elim (Bool-cases (k.shape_bytes s.transfer.world).0) [
    | inl ok ↦
        let t = record (in_world (k.shape_bytes s.transfer.world).1 s) { has_last_shape = true } in
        simp (ok, copy_shape)
          (Kept-trans s t (adopt_shape k q t)
            (record {
              memory = refl;
              has_md = refl;
              gmr_id = refl;
              masks = same_masks s.transfer.ids;
            })
            (adopt_shape-Kept q t))
    | inr bad ↦
        simp (bad, copy_shape)
          (record {
            memory = refl;
            has_md = refl;
            gmr_id = refl;
            masks = same_masks s.transfer.ids;
          })
  ]

module _ {W : Type 0} (k : Kernel W) (a : Ids) where
  marked :
      (c : Client) (s : Surface W)
      → IsBacked a s
      → IsBacked a (record s {
        client = c;
        memory = record s.memory { gart_ptr = if not (s.memory.gart_ptr == 0) then 2 else 0 };
      })
  marked c s v = record {
    region = v.region;
    either = v.either;
    vram = v.vram;
    client = λ n. v.client (ground arith);
    unmapped = v.unmapped;
  }

  -- A request that is not refused.
  abbrev Accepted : Option (Surface W) → Type 0
  Accepted none = Unit {0}
  Accepted (some u) = IsBacked a u

  set_client-Accepted : (q : Request) (s : Surface W) → IsBacked a s → Accepted (set_client q s)
  unfolding set_client
  set_client-Accepted q s v = elim (Bool-cases (q.backing == 0)) [
    | inl own ↦ simp (own, set_client) v
    | inr given ↦
        sized
          (client_size q.region.bounds.w q.region.bounds.h s.format.bytes_per_pixel q.row_bytes
            q.backing_length)
          refl given
  ]
    where
      sized :
          (o : Option (ℕ × ℕ))
          → client_size q.region.bounds.w q.region.bounds.h s.format.bytes_per_pixel q.row_bytes
              q.backing_length
            ≡ o
          → (q.backing == 0) ≡ false
          → Accepted (set_client q s)
      sized none e given = simp (given, e, set_client) tt
      sized (some (row, size)) e given = simp (given, e, set_client) (marked _ s v)

  pub set_shape-IsBacked :
      (q : Request) (s : Surface W) → IsBacked a s → IsBacked a (set_shape k q s).1
  unfolding set_shape
  set_shape-IsBacked q s v =
      let t = record (clear_last_region s) { client = no_client } in
      let w = Kept-IsBacked a s (clear_last_region s) (clear_last_region-Kept s) v in
      let u : IsBacked a t = record {
        region = w.region;
        either = w.either;
        vram = w.vram;
        client = w.client;
        unmapped = w.unmapped;
      } in
      elim (Bool-cases q.fits) [
        | inr small ↦ simp (small, set_shape) v
        | inl fits ↦ elim (Bool-cases (ltb 4096 q.region_size)) [
          | inl large ↦ simp (fits, large, set_shape) v
          | inr sane ↦ elim (Bool-cases (not s.flags.video_mode && is_region_empty q.region)) [
            | inl empty ↦ simp (fits, sane, empty, set_shape) u
            | inr full ↦ elim (Bool-cases s.flags.have_id) [
              | inr no_id ↦ simp (fits, sane, full, no_id, set_shape) u
              | inl id ↦
                  taken t (set_client q t) refl (set_client-Accepted q t u) u fits sane full id
            ]
          ]
        ]
      ]
    where
      taken :
          (t : Surface W) (o : Option (Surface W))
          → set_client q (record (clear_last_region s) { client = no_client }) ≡ o
          → Accepted o
          → IsBacked a (record (clear_last_region s) { client = no_client })
          → q.fits ≡ true
          → ltb 4096 q.region_size ≡ false
          → (not s.flags.video_mode && is_region_empty q.region) ≡ false
          → s.flags.have_id ≡ true
          → IsBacked a (set_shape k q s).1
      taken t none e f u fits sane full id = simp (fits, sane, full, id, e, set_shape) u
      taken t (some n) e f u fits sane full id =
          simp (fits, sane, full, id, e, set_shape)
            (Kept-IsBacked a n (copy_shape k q n).1 (copy_shape-Kept k q n) f)
