-- ===== src/Svga3d/Version.antt =====
-- SVGA3D::Init: the versions of the adapter that are accepted.
use docker_macos.Base.{◌≤◌, ◌≡◌, ◌↔◌, true, if◌then◌else◌, arith, ◌<◌, Bool-cases, inl, inr}
use docker_macos.Svga.{Device, has_capability, has_fifo_cap}
use docker_macos.Svga3d.{get_3d_hw_version, init}

-- Init accepts a device exactly when it has the extended FIFO, the FIFO has the registers up to that
-- of the guest's version, and the version of the adapter, of which the revised one counts where it
-- is there, is at least 0x20000.
pub init_version_lem :
    {H : Type 0} (d : Device H)
    → (init d ≡ true) ↔ (
        (has_capability d 0x8000 ≡ true)
        × (1152 < d.fifo 0)
        × (0x20000 ≤ (if has_fifo_cap d 256 then d.fifo 17 else d.fifo 7)))
unfolding init get_3d_hw_version
init_version_lem d = elim (Bool-cases (has_capability d 0x8000)) [
  | inr none_of_it ↦ rw (none_of_it, init) (ground arith)
  | inl capable ↦ elim (Bool-cases (has_fifo_cap d 256)) [
    | inl revised ↦ rw (capable, revised, init) (ground arith)
    | inr plain ↦ rw (capable, plain, init) (ground arith)
  ]
]
