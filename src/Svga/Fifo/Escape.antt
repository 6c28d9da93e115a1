-- ===== src/Svga/Fifo/Escape.antt =====
-- FIFOReserveEscape: an escape command with its payload.
use docker_macos.Base.{ℕ, ◌+◌, ◌*◌, ◌/◌, ◌≡◌, true, some, List, [], ◌∷◌, length, arith}
use docker_macos.Svga.{Host, Device}
use docker_macos.Svga.Fifo.{fill_and_commit, fifo_reserve_escape}
use docker_macos.Svga.Fifo.Send.{Sent, CanSend, send_lem}

-- If the payload is padded to dwords and the command fits, then the escape is sent with the number
-- of bytes before the padding.
pub escape_lem :
    {H : Type 0} (host : Host H) (fuel nsid bytes : ℕ) (ws : List ℕ) (d : Device H)
    → length ws ≡ (bytes + 3) / 4
    → CanSend host fuel d (length (33 ∷ nsid ∷ bytes ∷ ws))
    → (e : Device H) × (fill_and_commit ws (fifo_reserve_escape host fuel nsid bytes d)
        ≡ some (true, e))
      × Sent d (33 ∷ nsid ∷ bytes ∷ ws) e
unfolding fifo_reserve_escape
escape_lem host fuel nsid bytes ws d padded c =
    send_lem host fuel ((bytes + 3) / 4 * 4 + 12) (33 ∷ nsid ∷ bytes ∷ []) ws d c (λ e. omega arith)
      (omega (arith, padded))
