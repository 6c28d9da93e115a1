-- ===== src/Svga3d/Shader.antt =====
-- SVGA3D::DefineShader and SetShaderConst, which answer with an IOReturn.
use docker_macos.Base.{
  ℕ, zero, suc, ◌+◌, ◌/◌, ◌%◌, ◌≡◌, ◌≢◌, ◌⊎◌, inl, inr, refl, ap, true, ◌||◌, not, Option, none,
  some, List, [], ◌∷◌, ◌++◌, length, ◌==◌, if◌then◌else◌, arith, Bool-cases, ◌≤◌,
}
use docker_macos.Base.Mem.{Mem}
use docker_macos.Svga.{Host, Device, Pointer}
use docker_macos.Svga.Fifo.{Wait, put, fifo_commit, fifo_commit_all}
use docker_macos.Svga.Fifo.Send.{Sent, CanSend, CanSend-eq}
use docker_macos.Svga3d.{dwords, reserve}
use docker_macos.Svga3d.Begin.{reserve_lem}

pub data Code : Type 0 where
  success bad_argument no_memory : Code

-- The contents are written behind the header, and the command is committed.
abbrev pub finish_shader :
    {H : Type 0} → List ℕ → Option (Option Pointer × Device H) → Option (Code × Device H)
finish_shader ws none = none
finish_shader ws (some (none, d)) = some (no_memory, d)
finish_shader ws (some (some p, d)) = some (success, fifo_commit_all (put p ws d))

-- A constant of a type that is not known is given up with FIFOCommit(0).
abbrev pub finish_const :
    {H : Type 0} → List ℕ → ℕ → Mem → Option (Option Pointer × Device H) → Option (Code × Device H)
finish_const ws ctype value none = none
finish_const ws ctype value (some (none, d)) = some (no_memory, d)
finish_const ws ctype value (some (some p, d)) =
    if ctype == 0 || ctype == 1
    then some (success, fifo_commit_all (put p (ws ++ dwords 4 0 value) d))
    else (if ctype == 2
        then some (success, fifo_commit_all (put p (ws ++ (value 0 ∷ 0 ∷ 0 ∷ 0 ∷ [])) d))
        else some (bad_argument, fifo_commit 0 (put p ws d)))

pub length-dwords : (n i : ℕ) (m : Mem) → length (dwords n i m) ≡ n
length-dwords zero i m = refl
length-dwords (suc n) i m = ap suc (length-dwords n (i + 1) m)

module _ {H : Type 0} (host : Host H) where
  -- The length of the byte code counts bytes.
  pub define_shader : (fuel cid shid type : ℕ) (bytecode : Mem) (bytecode_len : ℕ) → Wait H Code
  define_shader fuel cid shid type bytecode bytecode_len d =
      if not (bytecode_len % 4 == 0)
      then some (bad_argument, d)
      else finish_shader (cid ∷ shid ∷ type ∷ dwords (bytecode_len / 4) 0 bytecode)
          (reserve host fuel 1059 (12 + bytecode_len) d)

  pub set_shader_const : (fuel cid reg type ctype : ℕ) (value : Mem) → Wait H Code
  set_shader_const fuel cid reg type ctype value d =
      finish_const (cid ∷ reg ∷ type ∷ ctype ∷ []) ctype value (reserve host fuel 1062 32 d)

  -- Byte code that is no number of dwords is refused, and nothing is reserved; else, if the command
  -- fits, DefineShader succeeds and the command with the byte code is sent.
  pub define_shader_lem :
      (fuel cid shid type : ℕ) (bytecode : Mem) (bytecode_len : ℕ) (d : Device H)
      → CanSend host fuel d (5 + bytecode_len / 4)
      → ((bytecode_len % 4 ≢ 0)
          × (define_shader fuel cid shid type bytecode bytecode_len d ≡ some (bad_argument, d)))
        ⊎ (e : Device H) × (define_shader fuel cid shid type bytecode bytecode_len d
            ≡ some (success, e))
          × Sent d
              (1059
                ∷ (12 + bytecode_len)
                ∷ cid
                ∷ shid
                ∷ type
                ∷ dwords (bytecode_len / 4) 0 bytecode)
              e
  unfolding define_shader
  define_shader_lem fuel cid shid type bytecode bytecode_len d c =
      elim (Bool-cases (bytecode_len % 4 == 0)) [
        | inr odd ↦ inl (ground arith, rw (odd, define_shader))
        | inl whole ↦
            let ws = cid ∷ shid ∷ type ∷ dwords (bytecode_len / 4) 0 bytecode in
            let n : bytecode_len % 4 ≡ 0 = ground arith in
            let m : length (dwords (bytecode_len / 4) 0 bytecode) ≡ bytecode_len / 4 =
              length-dwords (bytecode_len / 4) 0 bytecode in
            inr (
              finish whole (
                reserve_lem host fuel 1059 (12 + bytecode_len) (12 + bytecode_len) ws d
                  (CanSend-eq (omega (arith, m)) c) (omega (arith, m)) (omega (arith, c.small))))
      ]
    where
      finish :
          let ws = cid ∷ shid ∷ type ∷ dwords (bytecode_len / 4) 0 bytecode in
          ((bytecode_len % 4) == 0) ≡ true
          → ((q : Pointer) × (e : Device H) × (reserve host fuel 1059 (12 + bytecode_len) d
                ≡ some (some q, e))
              × Sent d (1059 ∷ (12 + bytecode_len) ∷ ws) (fifo_commit_all (put q ws e)))
          → (e : Device H) × (define_shader fuel cid shid type bytecode bytecode_len d
              ≡ some (success, e))
            × Sent d (1059 ∷ (12 + bytecode_len) ∷ ws) e
      finish whole (q, e, r, sent) = (
        fifo_commit_all (put q (cid ∷ shid ∷ type ∷ dwords (bytecode_len / 4) 0 bytecode) e),
        rw (whole, r, define_shader),
        sent,
      )

  -- If the command fits and the type of the constant is known, SetShaderConst succeeds and sends the
  -- register, the type and four values; of a Boolean constant, which is type 2, only the first is
  -- taken and the others are 0.
  pub set_shader_const_lem :
      (fuel cid reg type ctype : ℕ) (value : Mem) (d : Device H)
      → CanSend host fuel d 10
      → ctype ≤ 2
      → (e : Device H) × (set_shader_const fuel cid reg type ctype value d ≡ some (success, e))
        × Sent d
            (1062
              ∷ 32
              ∷ cid
              ∷ reg
              ∷ type
              ∷ ctype
              ∷ value 0
              ∷ (if ctype == 2 then 0 ∷ 0 ∷ 0 ∷ [] else value 1 ∷ value 2 ∷ value 3 ∷ []))
            e
  unfolding set_shader_const
  set_shader_const_lem fuel cid reg type ctype value d c known = elim (Bool-cases (ctype == 2)) [
    | inl boolean ↦
        let e : ctype ≡ 2 = ground arith in
        rw e (
          boolean_sent (
            reserve_lem host fuel 1062 32 32 (cid ∷ reg ∷ type ∷ 2 ∷ value 0 ∷ 0 ∷ 0 ∷ 0 ∷ []) d c
              (omega arith) refl))
    | inr number ↦
        let simple : ((ctype == 0) || (ctype == 1)) ≡ true = ground arith in
        rw number (
          number_sent simple (
            reserve_lem host fuel 1062 32 32
              (cid ∷ reg ∷ type ∷ ctype ∷ value 0 ∷ value 1 ∷ value 2 ∷ value 3 ∷ []) d c
              (omega arith) refl))
  ]
    where
      boolean_sent :
          let ws = cid ∷ reg ∷ type ∷ 2 ∷ value 0 ∷ 0 ∷ 0 ∷ 0 ∷ [] in
          ((q : Pointer) × (e : Device H) × (reserve host fuel 1062 32 d ≡ some (some q, e))
            × Sent d (1062 ∷ 32 ∷ ws) (fifo_commit_all (put q ws e)))
          → (e : Device H) × (set_shader_const fuel cid reg type 2 value d ≡ some (success, e))
            × Sent d (1062 ∷ 32 ∷ ws) e
      boolean_sent (q, e, r, sent) = (
        fifo_commit_all (put q (cid ∷ reg ∷ type ∷ 2 ∷ value 0 ∷ 0 ∷ 0 ∷ 0 ∷ []) e),
        rw (r, set_shader_const) refl,
        sent,
      )

      number_sent :
          let ws = cid ∷ reg ∷ type ∷ ctype ∷ value 0 ∷ value 1 ∷ value 2 ∷ value 3 ∷ [] in
          ((ctype == 0) || (ctype == 1)) ≡ true
          → ((q : Pointer) × (e : Device H) × (reserve host fuel 1062 32 d ≡ some (some q, e))
              × Sent d (1062 ∷ 32 ∷ ws) (fifo_commit_all (put q ws e)))
          → (e : Device H) × (set_shader_const fuel cid reg type ctype value d ≡ some (success, e))
            × Sent d (1062 ∷ 32 ∷ ws) e
      number_sent simple (q, e, r, sent) = (
        fifo_commit_all
            (put q (cid ∷ reg ∷ type ∷ ctype ∷ value 0 ∷ value 1 ∷ value 2 ∷ value 3 ∷ []) e),
        rw (r, simple, set_shader_const) refl,
        sent,
      )
