-- ===== src/Svga/Fifo/Init.antt =====
-- FIFOInit: the FIFO that it sets up is well formed and empty.
use docker_macos.Base.{
  ℕ, ◌+◌, ◌*◌, ◌%◌, ◌≤◌, ◌<◌, ◌≡◌, ◌≢◌, refl, sym, ap, ◌∙◌, true, some, List, [], ◌∷◌, ◌++◌, length,
  arith,
}
use docker_macos.Base.Mem.{Mem}
use docker_macos.Ring.{window}
use docker_macos.Svga.{Host, Device, write_reg}
use docker_macos.Svga.Fifo.{init_fifo, fifo_init, fifo_reserve, with_header, fill_and_commit}
use docker_macos.Svga.Fifo.Reserve.{Drains}
use docker_macos.Svga.Fifo.Send.{CanSend, send_lem}
use docker_macos.Svga.Fifo.Inv.{IsValid, held, queue}

queue_empty : (m : Mem) → held m ≡ 0 → queue m ≡ []
unfolding queue window
queue_empty m e = rw (e, window) refl

append-nil_right : (xs ys : List ℕ) → [] ≡ xs ++ ys → ys ≡ []
append-nil_right [] ys e = sym e
append-nil_right (x ∷ xs) ys e = absurd (ground arith)

-- The positions of the FIFO, which are all that these look at.
positions-IsValid :
    (m n : Mem) → ((i : ℕ) → i < 4 → n i ≡ m i) → IsValid m → held m ≡ 0 → IsValid n × (held n ≡ 0)
positions-IsValid m n same v z =
    let a : n 0 ≡ m 0 = same 0 (omega arith) in
    let b : n 1 ≡ m 1 = same 1 (omega arith) in
    let c : n 2 ≡ m 2 = same 2 (omega arith) in
    let e : n 3 ≡ m 3 = same 3 (omega arith) in (rw (a, b, c, e) v, rw (a, b, c, e) z)

module _ {H : Type 0} where
  init_fifo-bounds :
      (d : Device H) → ((init_fifo d).fifo 0 ≡ 1164) × ((init_fifo d).fifo 1 ≡ d.fifo_size)
  unfolding init_fifo
  init_fifo-bounds d = (refl, refl)

  init_fifo-IsValid :
      (d : Device H)
      → d.fifo_size % 4 ≡ 0
      → 1164 < d.fifo_size
      → d.fifo_size < 0x8000_0000
      → IsValid (init_fifo d).fifo × (held (init_fifo d).fifo ≡ 0)
  unfolding init_fifo
  init_fifo-IsValid d al big small = (
    record {
      min_aligned = refl;
      max_aligned = al;
      next_aligned = refl;
      stop_aligned = refl;
      registers = omega arith;
      small = small;
      next_min = omega arith;
      next_max = big;
      stop_min = omega arith;
      stop_max = big;
    },
    refl,
  )

  -- If the FIFO memory is a number of dwords below 2 GiB and leaves room behind the registers for a
  -- first command of at most the size of the bounce buffer, the device keeps MIN, MAX, NEXT_CMD and
  -- STOP when it is told that it is configured, whatever else it then writes, reads commands, and
  -- there is fuel, then after FIFOInit the FIFO is well formed and empty, and the first command is
  -- sent and stands alone in it.
  pub fifo_init_lem :
      (host : Host H) (d : Device H) (fuel bytes : ℕ) (hs ws : List ℕ)
      → Drains host
      → ((h : H) (m : Mem) (i : ℕ) → i < 4 → (host.write h m 20 1).1 i ≡ m i)
      → d.fifo_size % 4 ≡ 0
      → d.fifo_size < 0x8000_0000
      → bytes + 1164 < d.fifo_size
      → bytes ≤ 0x1_0000
      → 0 < fuel
      → bytes ≡ 4 * length (hs ++ ws)
      → length (hs ++ ws) ≢ 0
      → let e = fifo_init host d in
        IsValid e.fifo
        × (queue e.fifo ≡ [])
        × ((f : Device H) × (fill_and_commit ws (with_header hs (fifo_reserve host fuel bytes e))
              ≡ some (true, f))
            × (queue f.fifo ≡ hs ++ ws))
  unfolding fifo_init write_reg
  fifo_init_lem host d fuel bytes hs ws dr kept al small fit bounce enough size some_words =
      let i = init_fifo d in
      let (v, z) = init_fifo-IsValid d al (omega arith) small in
      let same = kept i.host i.fifo in
      let (v', z') = positions-IsValid i.fifo (host.write i.host i.fifo 20 1).1 same v z in
      let (low, high) = init_fifo-bounds d in
      let empty = queue_empty (host.write i.host i.fifo 20 1).1 z' in
      let can : CanSend host fuel (fifo_init host d) (length (hs ++ ws)) = record {
        drains = dr;
        valid = v';
        idle = refl;
        fuel_enough = omega (arith, z');
        small = omega arith;
        fit = omega (arith, same 0 (omega arith), same 1 (omega arith));
      } in
      let (f, q, s) = send_lem host fuel bytes hs ws (fifo_init host d) can some_words size in
      (
        v',
        empty,
        (
          f,
          q,
          s.after
              ∙ ap (λ r. r ++ (hs ++ ws)) (append-nil_right s.read s.rest (sym empty ∙ s.before)),
        ),
      )
