-- ===== src/Svga/Fifo/Stream.antt =====
-- One command after the other: what the device finds in the FIFO over time.
use mathlib.Core.List.{append_assoc, append-nil}
use docker_macos.Base.{
  ℕ, ◌-◌, ◌*◌, ◌/◌, ◌≤◌, ◌<◌, ◌≡◌, refl, sym, ap, ◌∙◌, Bool, true, false, none, some, List, [], ◌∷◌,
  ◌++◌, arith,
}
use docker_macos.Svga.{Host, Device}
use docker_macos.Svga.Fifo.{Wait}
use docker_macos.Svga.Fifo.Inv.{IsValid, queue, ahead-pending}
use docker_macos.Svga.Fifo.Reserve.{Drains}
use docker_macos.Svga.Fifo.Send.{Sent, CanSend}

-- Every command in turn; the first that fails ends the loop with `false`.
unfoldable pub each : {H A : Type 0} → (A → Wait H Bool) → List A → Wait H Bool
each f [] d = some (true, d)
each f (x ∷ xs) d = elim (f x d) [
  | none ↦ none
  | some (false, e) ↦ some (false, e)
  | some (true, e) ↦ each f xs e
]

module _ {H : Type 0} where
  -- The device has read `read`, and finds the rest of what was pending and then `ws`.
  pub record Streamed (d : Device H) (ws : List ℕ) (e : Device H) : Type 0 where
    pub valid : IsValid e.fifo
    pub idle : e.reserved_size ≡ 0
    pub ring : (e.fifo 0 ≡ d.fifo 0) × (e.fifo 1 ≡ d.fifo 1)
    pub read : List ℕ
    pub order : queue d.fifo ++ ws ≡ read ++ queue e.fifo

  -- Commands of at most `n` dwords can be sent one after the other: there is fuel for a whole ring.
  pub record CanStream (host : Host H) (fuel : ℕ) (d : Device H) (n : ℕ) : Type 0 where
    pub drains : Drains host
    pub valid : IsValid d.fifo
    pub idle : d.reserved_size ≡ 0
    pub fuel_enough : d.fifo 1 / 4 ≤ fuel
    pub small : 4 * n ≤ 0x10000
    pub fit : 4 * n < d.fifo 1 - d.fifo 0

  pub CanStream-CanSend :
      {host : Host H} {fuel n : ℕ} {d : Device H} (m : ℕ)
      → m ≤ n
      → CanStream host fuel d n
      → CanSend host fuel d m
  CanStream-CanSend {d = d} m le c = record {
    drains = c.drains;
    valid = c.valid;
    idle = c.idle;
    fuel_enough =
        let (a, b) = ahead-pending (d.fifo 1) (d.fifo 0) (d.fifo 2) (d.fifo 3) c.valid in
        omega (arith, c.fuel_enough);
    small = omega (arith, c.small);
    fit = omega (arith, c.fit);
  }

  pub Sent-CanStream :
      {host : Host H} {fuel n : ℕ} {d e : Device H} {ws : List ℕ}
      → CanStream host fuel d n
      → Sent d ws e
      → CanStream host fuel e n
  Sent-CanStream c s = record {
    drains = c.drains;
    valid = s.valid;
    idle = s.idle;
    fuel_enough = rw (s.ring.1) c.fuel_enough;
    small = c.small;
    fit = rw (s.ring.0, s.ring.1) c.fit;
  }

  pub none-Streamed :
      {host : Host H} {fuel n : ℕ} (d : Device H) → CanStream host fuel d n → Streamed d [] d
  none-Streamed d c = record {
    valid = c.valid;
    idle = c.idle;
    ring = (refl, refl);
    read = [];
    order = append-nil (queue d.fifo);
  }

  pub Sent-Streamed :
      {d e f : Device H} {ws vs : List ℕ} → Sent d ws e → Streamed e vs f → Streamed d (ws ++ vs) f
  Sent-Streamed {d} {e} {f} {ws} {vs} s t = record {
    valid = t.valid;
    idle = t.idle;
    ring = (t.ring.0 ∙ s.ring.0, t.ring.1 ∙ s.ring.1);
    read = s.read ++ t.read;
    order =
        sym (append_assoc (queue d.fifo) ws vs)
        ∙ ap (λ q. (q ++ ws) ++ vs) s.before
        ∙ ap (λ q. q ++ vs) (append_assoc s.read s.rest ws)
        ∙ ap (λ q. (s.read ++ q) ++ vs) (sym s.after)
        ∙ append_assoc s.read (queue e.fifo) vs
        ∙ ap (λ q. s.read ++ q) t.order
        ∙ sym (append_assoc s.read t.read (queue f.fifo));
  }

-- The commands on the wire, one behind the other.
abbrev pub wire : {A : Type 0} → (A → List ℕ) → List A → List ℕ
wire code [] = []
wire code (x ∷ xs) = code x ++ wire code xs

-- If each command by itself is sent as its code, of at most `n` dwords, then all of them together
-- are sent: the device finds what was pending and then the codes, whole and in order.
pub each_lem :
    {H A : Type 0} (host : Host H) (fuel n : ℕ) (f : A → Wait H Bool) (code : A → List ℕ)
    → ((x : A) (d : Device H)
        → CanStream host fuel d n
        → (e : Device H) × (f x d ≡ some (true, e)) × Sent d (code x) e)
    → (xs : List A) (d : Device H) → CanStream host fuel d n
    → (e : Device H) × (each f xs d ≡ some (true, e)) × Streamed d (wire code xs) e
unfolding each
each_lem host fuel n f code one [] d c = (d, refl, none-Streamed d c)
each_lem host fuel n f code one (x ∷ xs) d c =
    let (e, q, s) = one x d c in
    let (g, r, t) = each_lem host fuel n f code one xs e (Sent-CanStream c s) in
    (g, rw (q, each) r, Sent-Streamed s t)
