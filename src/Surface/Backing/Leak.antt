-- ===== src/Surface/Backing/Leak.antt =====
-- What allocBacking does with a block of video memory that cannot grow.
use docker_macos.Base.{ℕ, ◌≡◌, Bool}
use docker_macos.Ids.{Ids}
use docker_macos.Surface.{Kernel, Surface}

-- `in_use` says of a block of video memory whether it is out. What has nothing to do with video
-- memory does not change it, nor does VRAMRealloc when it gives no block.
pub record Leaves {W : Type 0} (k : Kernel W) (in_use : W → Bool) : Type 0 where
  pub md_prepare : (w : W) → in_use (k.provider.md_prepare w).1 ≡ in_use w
  pub md_complete : (w : W) → in_use (k.provider.md_complete w) ≡ in_use w
  pub md_release : (w : W) → in_use (k.provider.md_release w) ≡ in_use w
  pub create_gmr : (id : ℕ) (w : W) → in_use (k.provider.create_gmr id w).1 ≡ in_use w
  pub drop_gmr : (id : ℕ) (w : W) → in_use (k.provider.drop_gmr id w) ≡ in_use w
  pub wait_for_fence : (fence : ℕ) (w : W) → in_use (k.provider.wait_for_fence fence w) ≡ in_use w
  pub release_map : (map : ℕ) (w : W) → in_use (k.release_map map w) ≡ in_use w
  pub kernel_md : (size : ℕ) (w : W) → in_use (k.kernel_md size w).1 ≡ in_use w
  pub refused :
      (p size : ℕ) (w : W)
      → (k.vram_realloc p size w).0 ≡ 0
      → in_use (k.vram_realloc p size w).1 ≡ in_use w
