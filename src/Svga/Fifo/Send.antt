-- ===== src/Svga/Fifo/Send.antt =====
-- Reserve, write and commit together: what a method of the driver does to send one command.
use docker_macos.Base.{
  ℕ, ◌+◌, ◌-◌, ◌*◌, ◌/◌, ◌≤◌, ◌<◌, ◌≡◌, sym, ap, ◌∙◌, ◌≢◌, true, Option, some, List, ◌++◌, arith,
  length,
}
use docker_macos.Base.Mem.{store-append}
use docker_macos.Svga.{Host, Device, Pointer, in_fifo, in_bounce}
use docker_macos.Svga.Fifo.{
  put, fifo_reserve, fifo_commit_all, with_header, fill_and_commit, ◌+ptr◌,
}
use docker_macos.Svga.Fifo.Inv.{IsValid, held, queue}
use docker_macos.Svga.Fifo.Reserve.{Ready, Drains, fifo_reserve_lem}
use docker_macos.Svga.Fifo.Commit.{fifo_commit_all_lem}

module _ {H : Type 0} where
  -- The device has read some of the commands of `d`, and holds the others and then `ws`.
  pub record Sent (d : Device H) (ws : List ℕ) (e : Device H) : Type 0 where
    pub valid : IsValid e.fifo
    pub idle : e.reserved_size ≡ 0
    pub ring : (e.fifo 0 ≡ d.fifo 0) × (e.fifo 1 ≡ d.fifo 1)
    pub read : List ℕ
    pub rest : List ℕ
    pub before : queue d.fifo ≡ read ++ rest
    pub after : queue e.fifo ≡ rest ++ ws

  -- A command of `n` dwords fits the ring and the bounce buffer, no other is being written, and
  -- there is fuel for the wait.
  pub record CanSend (host : Host H) (fuel : ℕ) (d : Device H) (n : ℕ) : Type 0 where
    pub drains : Drains host
    pub valid : IsValid d.fifo
    pub idle : d.reserved_size ≡ 0
    pub fuel_enough : held d.fifo < fuel
    pub small : 4 * n ≤ 0x10000
    pub fit : 4 * n < d.fifo 1 - d.fifo 0

  pub CanSend-eq :
      {host : Host H} {fuel : ℕ} {d : Device H} {n m : ℕ}
      → n ≡ m
      → CanSend host fuel d n
      → CanSend host fuel d m
  CanSend-eq e c = rw (sym e) c

  -- A header and what follows it are written as one list.
  pub put-append :
      (p : Pointer) (hs ws : List ℕ) (d : Device H)
      → put (p +ptr 4 * length hs) ws (put p hs d) ≡ put p (hs ++ ws) d
  unfolding put
  put-append (in_fifo p) hs ws d =
      let e : (p + 4 * length hs) / 4 ≡ p / 4 + length hs = omega arith in
      rw (e, store-append d.fifo (p / 4) hs ws)
  put-append (in_bounce p) hs ws d =
      let e : (p + 4 * length hs) / 4 ≡ p / 4 + length hs = omega arith in
      rw (e, store-append d.bounce_buffer (p / 4) hs ws)

  with_header-some :
      (hs ws : List ℕ) (p : Pointer) (d' : Device H) (o : Option (Option Pointer × Device H))
      → o ≡ some (some p, d')
      → fill_and_commit ws (with_header hs o) ≡ some (true, fifo_commit_all (put p (hs ++ ws) d'))
  with_header-some hs ws p d' o q =
      rw q (ap (λ x. some (true, fifo_commit_all x)) (put-append p hs ws d'))

  -- What is written at the pointer of a reservation and committed stands behind what was pending.
  pub sent_lem :
      (host : Host H) (fuel bytes : ℕ) (ws : List ℕ) (d : Device H)
      → CanSend host fuel d (length ws)
      → length ws ≢ 0
      → bytes ≡ 4 * length ws
      → (p : Pointer) × (d' : Device H) × (fifo_reserve host fuel bytes d ≡ some (some p, d'))
        × Sent d ws (fifo_commit_all (put p ws d'))
  sent_lem host fuel bytes ws d c some_words size = finish (
      fifo_reserve_lem host fuel bytes d c.drains c.valid (omega arith) (omega (arith, c.small))
        (omega (arith, c.fit)) c.idle c.fuel_enough)
    where
      finish :
          ((p : Pointer) × (d' : Device H) × (fifo_reserve host fuel bytes d ≡ some (some p, d'))
            × Ready bytes (record d { reserved_size = bytes }) d' p)
          → (p : Pointer) × (d' : Device H) × (fifo_reserve host fuel bytes d ≡ some (some p, d'))
            × Sent d ws (fifo_commit_all (put p ws d'))
      finish (p, d', q, r) =
          let done =
            fifo_commit_all_lem ws (record d { reserved_size = 4 * length ws }) d' p (rw size at r)
              (r.reserved ∙ size) some_words in
          (
            p,
            d',
            q,
            record {
              valid = done.0;
              idle = done.2;
              ring = (done.3 ∙ r.ring.0, done.4 ∙ r.ring.1);
              read = r.read;
              rest = queue d'.fifo;
              before = r.kept;
              after = done.1;
            },
          )

  -- If a command of at least one dword can be sent, then the call succeeds and the command stands
  -- whole behind what is left of those that were pending.
  pub send_lem :
      (host : Host H) (fuel bytes : ℕ) (hs ws : List ℕ) (d : Device H)
      → CanSend host fuel d (length (hs ++ ws))
      → length (hs ++ ws) ≢ 0
      → bytes ≡ 4 * length (hs ++ ws)
      → (e : Device H) × (fill_and_commit ws (with_header hs (fifo_reserve host fuel bytes d))
          ≡ some (true, e))
        × Sent d (hs ++ ws) e
  send_lem host fuel bytes hs ws d c some_words size =
      finish (sent_lem host fuel bytes (hs ++ ws) d c some_words size)
    where
      finish :
          ((p : Pointer) × (d' : Device H) × (fifo_reserve host fuel bytes d ≡ some (some p, d'))
            × Sent d (hs ++ ws) (fifo_commit_all (put p (hs ++ ws) d')))
          → (e : Device H) × (fill_and_commit ws (with_header hs (fifo_reserve host fuel bytes d))
              ≡ some (true, e))
            × Sent d (hs ++ ws) e
      finish (p, d', q, sent) =
          (fifo_commit_all (put p (hs ++ ws) d'), with_header-some hs ws p d' _ q, sent)
