-- ===== src/Svga/Cursor.antt =====
-- The cursor of SVGADevice.cpp: its image, in two calls, and its position.
use mathlib.Core.Path.{fun_ext}
use docker_macos.Base.{
  ℕ, suc, ◌+◌, ◌*◌, ◌/◌, ◌%◌, ◌<◌, ◌≡◌, refl, sym, ap, ◌∙◌, Bool, true, false, Option, none, some,
  List, [], ◌∷◌, ◌++◌, length, if◌then◌else◌, arith, bit_or,
}
use docker_macos.Base.Mem.{Mem, update, store}
use docker_macos.Base.Word.{u32, add32}
use docker_macos.Svga.{Host, Device, Pointer, in_fifo, in_bounce, write_reg, set_fifo, has_fifo_cap}
use docker_macos.Svga.Regs.{
  reg_cursor_id, reg_cursor_x, reg_cursor_y, reg_cursor_on, fifo_cursor_on, fifo_cursor_x,
  fifo_cursor_y, fifo_cursor_count, fifo_cursor_screen_id, fifo_cap_screen_object,
  fifo_cap_screen_object_2, cmd_define_alpha_cursor,
}
use docker_macos.Svga.Fifo.{
  Wait, put, fifo_reserve, fifo_reserve_cmd, fifo_commit, fifo_commit_all, ◌+ptr◌,
}
use docker_macos.Svga.Fifo.Keep.{with_cursor, commit-with_cursor}
use docker_macos.Svga.Fifo.Reserve.{fifo_reserve_lem}
use docker_macos.Svga.Fifo.Send.{Sent, CanSend, CanSend-eq, sent_lem}

-- The size of the image, a product of three uint32_t.
abbrev pub image_bytes : (width height bytespp : ℕ) → ℕ
image_bytes width height bytespp = width * height * bytespp % u32

module _ {H : Type 0} where
  -- The stores of CURSOR_BYPASS_3.
  abbrev pub bypass : (x y : ℕ) → (visible : Bool) → Device H → Device H
  bypass x y visible d =
      let shown = set_fifo d fifo_cursor_on (if visible then 1 else 0) in
      let moved = set_fifo (set_fifo shown fifo_cursor_x x) fifo_cursor_y y in
      set_fifo moved fifo_cursor_count (add32 (moved.fifo fifo_cursor_count) 1)

  unfoldable pub set_screen_cursor_state :
      (screen_id x y : ℕ) → (visible : Bool) → Device H → Device H
  set_screen_cursor_state screen_id x y visible d = bypass x y visible (
      if has_fifo_cap d (bit_or fifo_cap_screen_object fifo_cap_screen_object_2)
      then set_fifo d fifo_cursor_screen_id screen_id
      else d)

  -- The pointer to the header is kept; a null pointer makes the call fail.
  unfoldable pub end_define_alpha_cursor :
      (width height bytespp hotspot_x hotspot_y : ℕ) → Device H → Bool × Device H
  end_define_alpha_cursor width height bytespp hotspot_x hotspot_y d = elim d.cursor_ptr [
    | none ↦ (false, d)
    | some cmd ↦
        let written = put cmd (1 ∷ hotspot_x ∷ hotspot_y ∷ width ∷ height ∷ []) d in
        let sent = fifo_commit (4 + 20 + image_bytes width height bytespp) written in
        (true, record sent { cursor_ptr = none })
  ]

module _ {H : Type 0} (host : Host H) where
  -- `bypass_2` is the option VMW_OPTION_FB_CURSOR_BYPASS_2.
  unfoldable pub set_cursor_state :
      (bypass_2 : Bool) (x y : ℕ) → (visible : Bool) → Device H → Device H
  set_cursor_state bypass_2 x y visible d =
      if bypass_2
      then write_reg host
          (write_reg host (write_reg host (write_reg host d reg_cursor_id 1) reg_cursor_x x)
            reg_cursor_y y)
          reg_cursor_on (if visible then 1 else 0)
      else bypass x y visible d

  -- The pointer that is returned is that of the image, behind the five dwords of the command.
  unfoldable pub begin_define_alpha_cursor :
      (fuel width height bytespp : ℕ) → Wait H (Option Pointer)
  begin_define_alpha_cursor fuel width height bytespp d =
      elim (fifo_reserve_cmd host fuel cmd_define_alpha_cursor
        (20 + image_bytes width height bytespp) d) [
          | none ↦ none
          | some (none, d') ↦ some (none, d')
          | some (some cmd, d') ↦ some (some (cmd +ptr 20), record d' { cursor_ptr = some cmd })
        ]

-- A store below a range and one to the range do not disturb each other.
update-store :
    (f : Mem) (p q v : ℕ) (ws : List ℕ)
    → p < q
    → update (store f q ws) p v ≡ store (update f p v) q ws
unfolding store
update-store f p q v [] h = refl
update-store f p q v (w ∷ ws) h =
    update-store (update f q w) p (q + 1) v ws (omega arith)
    ∙ ap (λ g. store g (q + 1) ws) (fun_ext λ i. ground arith)

-- What is written behind a header before the header is.
store_behind :
    (f : Mem) (p : ℕ) (hs ws : List ℕ)
    → store (store f (p + length hs) ws) p hs ≡ store f p (hs ++ ws)
unfolding store
store_behind f p [] ws = ap (λ q. store f q ws) (omega arith)
store_behind f p (h ∷ hs) ws =
    ap (λ g. store g (p + 1) hs) (update-store f p (p + suc (length hs)) h ws (omega arith))
    ∙ ap (λ q. store (store (update f p h) q ws) (p + 1) hs) (omega arith)
    ∙ store_behind (update f p h) (p + 1) hs ws

module _ {H : Type 0} where
  put_behind :
      (p : Pointer) (t : ℕ) (hs ws : List ℕ) (d : Device H)
      → put (p +ptr 4) hs (put ((p +ptr 4) +ptr 4 * length hs) ws (put p (t ∷ []) d))
        ≡ put p (t ∷ (hs ++ ws)) d
  unfolding put store
  put_behind (in_fifo a) t hs ws d =
      let e : (a + 4 + 4 * length hs) / 4 ≡ a / 4 + 1 + length hs = omega arith in
      let g : (a + 4) / 4 ≡ a / 4 + 1 = omega arith in
      rw (e, g)
        (ap (λ m. record d { fifo = m }) (store_behind (update d.fifo (a / 4) t) (a / 4 + 1) hs ws))
  put_behind (in_bounce a) t hs ws d =
      let e : (a + 4 + 4 * length hs) / 4 ≡ a / 4 + 1 + length hs = omega arith in
      let g : (a + 4) / 4 ≡ a / 4 + 1 = omega arith in
      rw (e, g)
        (ap (λ m. record d { bounce_buffer = m })
          (store_behind (update d.bounce_buffer (a / 4) t) (a / 4 + 1) hs ws))

  put_reserved :
      (p : Pointer) (ws : List ℕ) (d : Device H) → (put p ws d).reserved_size ≡ d.reserved_size
  unfolding put
  put_reserved (in_fifo a) ws d = refl
  put_reserved (in_bounce a) ws d = refl

  put-with_cursor :
      (c : Option Pointer) (p : Pointer) (ws : List ℕ) (d : Device H)
      → put p ws (with_cursor c d) ≡ with_cursor c (put p ws d)
  unfolding put
  put-with_cursor c (in_fifo a) ws d = refl
  put-with_cursor c (in_bounce a) ws d = refl

  with_cursor-Sent :
      (c : Option Pointer) (d e : Device H) (ws : List ℕ)
      → Sent d ws e
      → Sent d ws (with_cursor c e)
  with_cursor-Sent c d e ws s = record {
    valid = s.valid;
    idle = s.idle;
    ring = s.ring;
    read = s.read;
    rest = s.rest;
    before = s.before;
    after = s.after;
  }

  -- A reservation records its size.
  reserved_lem :
      (host : Host H) (fuel bytes : ℕ) (d d' : Device H) (p : Pointer)
      → CanSend host fuel d (bytes / 4)
      → bytes % 4 ≡ 0
      → fifo_reserve host fuel bytes d ≡ some (some p, d')
      → d'.reserved_size ≡ bytes
  reserved_lem host fuel bytes d d' p c even e =
      let (p', e', q, r) =
        fifo_reserve_lem host fuel bytes d c.drains c.valid even (omega (arith, c.small))
          (omega (arith, c.fit)) c.idle c.fuel_enough in
      let same : ◌≡◌ {A = Option (Option Pointer × Device H)} (some (some p', e'))
          (some (some p, d')) =
        sym q ∙ e in
      let here : e' ≡ d' = cc in rw (sym here) r.reserved

module _ (width height bytespp hotspot_x hotspot_y : ℕ) where
  abbrev fields : List ℕ
  fields = 1 ∷ hotspot_x ∷ hotspot_y ∷ width ∷ height ∷ []

  abbrev command_bytes : ℕ
  command_bytes = 4 + 20 + image_bytes width height bytespp

  module _ {H : Type 0} where
    end-with_cursor :
        (cmd : Pointer) (d : Device H)
        → end_define_alpha_cursor width height bytespp hotspot_x hotspot_y
            (with_cursor (some cmd) d)
          ≡ (true, with_cursor none (fifo_commit command_bytes (put cmd fields d)))
    unfolding end_define_alpha_cursor
    end-with_cursor cmd d =
        ap (λ x. (true, with_cursor none (fifo_commit command_bytes x)))
          (put-with_cursor (some cmd) cmd fields d)
        ∙ ap (λ x. (true, with_cursor none x))
            (commit-with_cursor (some cmd) command_bytes (put cmd fields d))

    -- The second call, after the image is written, for a command that fills the reservation.
    end_lem :
        (p : Pointer) (image : List ℕ) (d : Device H)
        → d.reserved_size ≡ command_bytes
        → end_define_alpha_cursor width height bytespp hotspot_x hotspot_y
            (put ((p +ptr 4) +ptr 20) image (with_cursor (some (p +ptr 4)) (put p (22 ∷ []) d)))
          ≡ (true, with_cursor none (fifo_commit_all (put p (22 ∷ (fields ++ image)) d)))
    unfolding fifo_commit_all
    end_lem p image d size =
        ap (λ x. end_define_alpha_cursor width height bytespp hotspot_x hotspot_y x)
          (put-with_cursor (some (p +ptr 4)) ((p +ptr 4) +ptr 20) image (put p (22 ∷ []) d))
        ∙ end-with_cursor (p +ptr 4) (put ((p +ptr 4) +ptr 20) image (put p (22 ∷ []) d))
        ∙ ap (λ x. (true, with_cursor none (fifo_commit command_bytes x)))
            (put_behind p 22 fields image d)
        ∙ ap (λ n. (true, with_cursor none (fifo_commit n (put p (22 ∷ (fields ++ image)) d))))
            (sym (put_reserved p (22 ∷ (fields ++ image)) d ∙ size))

    started :
        (host : Host H) (fuel : ℕ) (d d' : Device H) (p : Pointer)
        → fifo_reserve host fuel (20 + image_bytes width height bytespp + 4) d ≡ some (some p, d')
        → begin_define_alpha_cursor host fuel width height bytespp d
          ≡ some (some ((p +ptr 4) +ptr 20), with_cursor (some (p +ptr 4)) (put p (22 ∷ []) d'))
    unfolding begin_define_alpha_cursor fifo_reserve_cmd
    started host fuel d d' p e = rw (e, begin_define_alpha_cursor) refl

    -- A cursor's image for which there is room: the first call returns a pointer; when the image is
    -- written there, the second call sends the whole command behind what was pending, and forgets
    -- the pointer. The field `id` is 1.
    pub define_alpha_cursor_lem :
        (host : Host H) (fuel : ℕ) (image : List ℕ) (d : Device H)
        → 4 * length image ≡ image_bytes width height bytespp
        → CanSend host fuel d (6 + length image)
        → (p : Pointer) × (d' : Device H) × (e : Device H) × (begin_define_alpha_cursor host fuel
              width height bytespp d
            ≡ some (some p, d'))
          × (end_define_alpha_cursor width height bytespp hotspot_x hotspot_y (put p image d')
              ≡ (true, e))
          × (e.cursor_ptr ≡ none)
          × Sent d (22 ∷ 1 ∷ hotspot_x ∷ hotspot_y ∷ width ∷ height ∷ image) e
    define_alpha_cursor_lem host fuel image d size can =
        let n : length (22 ∷ (fields ++ image)) ≡ 6 + length image = omega arith in
        let can' = CanSend-eq (sym n) can in
        let (p, d', q, sent) =
          sent_lem host fuel (20 + image_bytes width height bytespp + 4) (22 ∷ (fields ++ image)) d
            can' (λ e. omega arith) (omega arith) in
        let w = fifo_commit_all (put p (22 ∷ (fields ++ image)) d') in
        (
          (p +ptr 4) +ptr 20,
          with_cursor (some (p +ptr 4)) (put p (22 ∷ []) d'),
          with_cursor none w,
          started host fuel d d' p q,
          end_lem p image d' (
              reserved_lem host fuel (20 + image_bytes width height bytespp + 4) d d' p
                (CanSend-eq (omega (arith, size)) can') (omega arith) q
              ∙ omega arith),
          refl,
          with_cursor-Sent none d w (22 ∷ (fields ++ image)) sent,
        )
