-- ===== src/Surface/Life.antt =====
-- A surface from its start to its end.
use docker_macos.Base.{◌≡◌, refl, sym, ap, ◌∙◌, false, List, arith}
use docker_macos.Ids.{Ids}
use docker_macos.Ids.Ownership.{IsValid}
use docker_macos.Transfer.{is_id_valid, id_invalid}
use docker_macos.Transfer.Regions.{Unchanged}
use docker_macos.Transfer.Held.{Holds}
use mathlib.Core.Path.{subst}
use docker_macos.Surface.{Kernel, Surface, bare_memory, release_backing}
use docker_macos.Surface.Backing.{IsBacked, release_backing-IsBare}
use docker_macos.Surface.Overlays.{surface_video_off, cleanup_3d}
use docker_macos.Surface.Shape.{clear_last_region}
use docker_macos.Surface.Kept.{Kept-IsBacked, Kept-trans, cleanup_3d-Kept, video_off-Kept}
use docker_macos.Surface.Calls.{Call, perform_all, cleanup}
use docker_macos.Surface.Returned.{Handle, Logs, holding, release_backing-given, ended-given}
use docker_macos.Surface.Sound.{perform_all-IsBacked}

-- A surface that has just been made: no memory, and a transfer buffer after its `init`.
pub record IsNew {W : Type 0} (s : Surface W) : Type 0 where
  pub valid : IsValid s.transfer.ids
  pub memory : s.memory ≡ bare_memory
  pub no_md : s.transfer.buffer.has_md ≡ false
  pub no_region : s.transfer.buffer.gmr_id ≡ id_invalid

module _ {W : Type 0} (k : Kernel W) where
  pub new-IsBacked : (s : Surface W) → IsNew s → IsBacked s.transfer.ids s
  new-IsBacked s n =
      let none_held : is_id_valid s.transfer.buffer.gmr_id ≡ false = ground (arith, n.no_region) in
      let bare : s.memory.self ≡ 0 = ap (λ m. m.self) n.memory in
      let kernel : s.memory.gart_ptr ≡ 0 = ap (λ m. m.gart_ptr) n.memory in
      record {
        region =
            subst (λ b. Holds b s.transfer.buffer.gmr_id s.transfer.ids s.transfer.ids)
              (sym n.no_md) ((n.valid, λ j. refl), none_held);
        either = λ h. n.no_md;
        vram = λ h. absurd (h bare);
        client = λ h. absurd (h kernel);
        unmapped = λ z h. (ap (λ m. m.map0) n.memory, ap (λ m. m.map1) n.memory);
      }

  cleared :
      (s : Surface W)
      → ((clear_last_region s).transfer ≡ s.transfer) × ((clear_last_region s).memory ≡ s.memory)
  unfolding clear_last_region
  cleared s = ground arith

  released : (s : Surface W) → (release_backing k s).memory ≡ bare_memory
  unfolding release_backing
  released s = refl

  cleanup-Unchanged :
      (a : Ids) (s : Surface W)
      → IsBacked a s
      → let t = cleanup k s in
        Unchanged a t.transfer.ids × (t.memory ≡ bare_memory) × (t.transfer.buffer.has_md ≡ false)
  unfolding cleanup
  cleanup-Unchanged a s v =
      let t = (surface_video_off k (cleanup_3d k s)).1 in
      let e =
        Kept-trans s (cleanup_3d k s) t (cleanup_3d-Kept k s) (video_off-Kept k (cleanup_3d k s)) in
      let (b, z) = release_backing-IsBare k a t (Kept-IsBacked a s t e v) in
      let (ct, cm) = cleared (release_backing k t) in
      (rw ct b.region.0, cm ∙ released t, rw ct b.no_md)

  cleanup-given :
      (given : W → List Handle) (l : Logs k given) (s : Surface W)
      → given (cleanup k s).transfer.world
        ≡ holding s.memory s.transfer.buffer.has_md (given s.transfer.world)
  unfolding cleanup
  cleanup-given given l s =
      let t = (surface_video_off k (cleanup_3d k s)).1 in
      let (e, m, b) = ended-given k given l s in
      ap (λ x. given x.world) (cleared (release_backing k t)).0
      ∙ release_backing-given k given l t
      ∙ cc (e, m, b)

  -- A new surface, after any calls and its cleanup, has given back every identifier of a memory region
  -- that it took; and the cleanup gives back just what the surface still holds: the maps that are not
  -- null, the descriptor if there is one, and the block of video memory if there is one.
  pub cleanup-perform_all :
      (given : W → List Handle) (l : Logs k given) (cs : List Call) (s : Surface W)
      → IsNew s
      → let u = perform_all k cs s in
        let t = cleanup k u in
        Unchanged s.transfer.ids t.transfer.ids
        × (given t.transfer.world
            ≡ holding u.memory u.transfer.buffer.has_md (given u.transfer.world))
        × (t.memory ≡ bare_memory)
        × (t.transfer.buffer.has_md ≡ false)
  cleanup-perform_all given l cs s n =
      let (ids, memory, no_md) =
        cleanup-Unchanged s.transfer.ids (perform_all k cs s)
          (perform_all-IsBacked k s.transfer.ids cs s (new-IsBacked s n)) in
      (ids, cleanup-given given l (perform_all k cs s), memory, no_md)
