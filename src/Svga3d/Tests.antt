-- ===== src/Svga3d/Tests.antt =====
-- The theorems on SVGA3D applied to the device of the FIFO's tests.
use docker_macos.Base.{ℕ, ◌≡◌, ◌≢◌, ◌⊎◌, refl, ◌%◌, true, some, [], ◌∷◌, arith}
use docker_macos.Svga.{Device, Pointer}
use docker_macos.Svga.Fifo.{put, fifo_commit_all}
use docker_macos.Svga.Fifo.Send.{Sent}
use docker_macos.Svga.Tests.{reader, device, device-CanSend}
use docker_macos.Svga3d.Sent.{set_zrange_cmd, perform, perform_lem}
use docker_macos.Svga3d.Begin.{present, begin, begin_lem}
use docker_macos.Svga3d.Shader.{success, bad_argument, define_shader, define_shader_lem}

perform_lem_example :
    (e : Device ℕ) × (perform reader 4 (set_zrange_cmd 7 0 1) device ≡ some (true, e))
    × Sent device (1048 ∷ 12 ∷ 7 ∷ 0 ∷ 1 ∷ []) e
perform_lem_example =
    perform_lem reader 4 (set_zrange_cmd 7 0 1) device (device-CanSend 5 (omega arith))

begin_lem_example :
    (q : Pointer) × (e : Device ℕ) × (begin reader 4 (present 9 1) device ≡ some (some q, e))
    × Sent device
        (1058 ∷ 28 ∷ 9 ∷ 1 ∷ 2 ∷ 3 ∷ 4 ∷ 5 ∷ 6 ∷ [])
        (fifo_commit_all (put q (1 ∷ 2 ∷ 3 ∷ 4 ∷ 5 ∷ 6 ∷ []) e))
begin_lem_example =
    begin_lem reader 4 (present 9 1) (1 ∷ 2 ∷ 3 ∷ 4 ∷ 5 ∷ 6 ∷ []) device refl
      (device-CanSend 9 (omega arith))

define_shader_lem_example :
    ((8 % 4 ≢ 0) × (define_shader reader 4 1 2 3 (λ i. i) 8 device ≡ some (bad_argument, device)))
    ⊎ (e : Device ℕ) × (define_shader reader 4 1 2 3 (λ i. i) 8 device ≡ some (success, e))
      × Sent device (1059 ∷ 20 ∷ 1 ∷ 2 ∷ 3 ∷ 0 ∷ 1 ∷ []) e
define_shader_lem_example =
    define_shader_lem reader 4 1 2 3 (λ i. i) 8 device (device-CanSend 7 (omega arith))
