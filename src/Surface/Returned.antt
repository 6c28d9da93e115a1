-- ===== src/Surface/Returned.antt =====
-- What a surface gives back of maps, memory descriptors and video memory when it ends.
use docker_macos.Base.{
  ℕ, ◌≡◌, refl, ap, ◌∙◌, Bool, true, false, not, some, List, [], ◌∷◌, ◌++◌, ◌==◌, if◌then◌else◌,
  arith,
}
use docker_macos.Transfer.{State, complete, discard, sync}
use docker_macos.Surface.{Kernel, Surface, Memory, release_backing, drop_map}
use docker_macos.Surface.Overlays.{surface_video_off, cleanup_3d}

pub data Handle : Type 0 where
  a_map : (map : ℕ) → Handle
  a_block : (ptr : ℕ) → Handle
  a_descriptor : Handle

-- `given` is the history of what was given back, the last first.
pub record Logs {W : Type 0} (k : Kernel W) (given : W → List Handle) : Type 0 where
  pub release_map : (map : ℕ) (w : W) → given (k.release_map map w) ≡ a_map map ∷ given w
  pub vram_free : (ptr : ℕ) (w : W) → given (k.vram_free ptr w) ≡ a_block ptr ∷ given w
  pub md_release : (w : W) → given (k.provider.md_release w) ≡ a_descriptor ∷ given w
  pub md_complete : (w : W) → given (k.provider.md_complete w) ≡ given w
  pub drop_gmr : (id : ℕ) (w : W) → given (k.provider.drop_gmr id w) ≡ given w
  pub wait_for_fence : (fence : ℕ) (w : W) → given (k.provider.wait_for_fence fence w) ≡ given w
  pub video_set_reg :
      (stream_id register_id value : ℕ) (w : W)
      → given (k.video_set_reg stream_id register_id value w) ≡ given w
  pub release_master_surface : (w : W) → given (k.release_master_surface w) ≡ given w

abbrev pub one_if : Bool → Handle → List Handle
one_if true h = h ∷ []
one_if false h = []

-- What a surface with such memory, and with a descriptor or without, holds, before the rest of a
-- history.
abbrev pub holding : Memory → (has_md : Bool) → List Handle → List Handle
holding m has_md rest =
    one_if (not (m.self == 0)) (a_block m.self)
    ++ (one_if has_md a_descriptor
        ++ (one_if (not (m.map1 == 0)) (a_map m.map1)
            ++ (one_if (not (m.map0 == 0)) (a_map m.map0) ++ rest)))

module _ {W : Type 0} (k : Kernel W) (given : W → List Handle) (l : Logs k given) where
  if-given :
      (b : Bool) (h : Handle) (v w : W)
      → given v ≡ h ∷ given w
      → given (if b then v else w) ≡ one_if b h ++ given w
  if-given true h v w e = e
  if-given false h v w e = refl

  drop_map-given :
      (m : ℕ) (w : W) → given (drop_map k m w) ≡ one_if (not (m == 0)) (a_map m) ++ given w
  drop_map-given m w = if-given (not (m == 0)) (a_map m) (k.release_map m w) w (l.release_map m w)

  sync-given : (s : State W) → given (sync (some k.provider) s).world ≡ given s.world
  unfolding sync
  sync-given s = ground (arith, l.wait_for_fence s.buffer.fence s.world)

  complete-given : (s : State W) → given (complete (some k.provider) s).world ≡ given s.world
  unfolding complete
  complete-given s =
      let t = sync (some k.provider) s in
      ground (
        arith,
        sync-given s,
        l.drop_gmr t.buffer.gmr_id t.world,
        l.md_complete (k.provider.drop_gmr t.buffer.gmr_id t.world),
      )

  complete-has_md : (s : State W) → (complete (some k.provider) s).buffer.has_md ≡ s.buffer.has_md
  unfolding complete sync
  complete-has_md s = ground arith

  discard-given :
      (s : State W)
      → given (discard k.provider s).world ≡ one_if s.buffer.has_md a_descriptor ++ given s.world
  unfolding discard
  discard-given s = split s.buffer.has_md s
    where
      split :
          (b : Bool) (t : State W)
          → given
              (if not b then t else (record t {
                world = k.provider.md_release t.world;
                buffer = record t.buffer { has_md = false };
              })).world
            ≡ one_if b a_descriptor ++ given t.world
      split true t = l.md_release t.world
      split false t = refl

  pub release_backing-given :
      (s : Surface W)
      → given (release_backing k s).transfer.world
        ≡ holding s.memory s.transfer.buffer.has_md (given s.transfer.world)
  unfolding release_backing
  release_backing-given s =
      let w = drop_map k s.memory.map0 s.transfer.world in
      let w' = drop_map k s.memory.map1 w in
      let t = record s.transfer { world = w' } in
      let c = complete (some k.provider) t in
      let d = (discard k.provider c).world in
      let block = one_if (not (s.memory.self == 0)) (a_block s.memory.self) in
      let md = one_if s.transfer.buffer.has_md a_descriptor in
      let map1 = one_if (not (s.memory.map1 == 0)) (a_map s.memory.map1) in
      if-given (not (s.memory.self == 0)) (a_block s.memory.self) (k.vram_free s.memory.self d) d
        (l.vram_free s.memory.self d)
      ∙ ap (λ r. block ++ r)
          (discard-given c
            ∙ ap (λ b. one_if b a_descriptor ++ given c.world) (complete-has_md t)
            ∙ ap (λ r. md ++ r)
                (complete-given t
                  ∙ drop_map-given s.memory.map1 w
                  ∙ ap (λ r. map1 ++ r) (drop_map-given s.memory.map0 s.transfer.world)))

  -- The end of the overlay and of the master surface gives none of it back.
  pub ended-given :
      (s : Surface W)
      → let t = (surface_video_off k (cleanup_3d k s)).1 in
        (given t.transfer.world ≡ given s.transfer.world)
        × (t.memory ≡ s.memory)
        × (t.transfer.buffer ≡ s.transfer.buffer)
  unfolding surface_video_off cleanup_3d
  ended-given s = ground (
    arith,
    l.release_master_surface s.transfer.world,
    l.video_set_reg s.video.stream_id 0 0 s.transfer.world,
    l.video_set_reg s.video.stream_id 0 0 (k.release_master_surface s.transfer.world),
  )
