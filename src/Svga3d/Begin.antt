-- ===== src/Svga3d/Begin.antt =====
-- The methods of SVGA3D.cpp that reserve a command and leave its last part to the caller.
use docker_macos.Base.{
  ℕ, zero, suc, ◌+◌, ◌-◌, ◌*◌, ◌/◌, ◌%◌, ◌≤◌, ◌<◌, ◌≡◌, inl, inr, refl, sym, ap, ◌∙◌, Option, some,
  List, [], ◌∷◌, ◌++◌, length, arith, ltb, ltb→lt, Bool-cases,
}
use mathlib.Core.Path.{fun_ext}
use docker_macos.Base.Mem.{Mem, store, store_below, store_above, store_at}
use docker_macos.Base.Word.{u32}
use docker_macos.Svga.{Host, Device, Pointer, in_fifo, in_bounce}
use docker_macos.Svga.Fifo.{Wait, put, fifo_reserve, fifo_commit_all, with_header, ◌+ptr◌}
use docker_macos.Svga.Fifo.Send.{Sent, CanSend, sent_lem, put-append}
use docker_macos.Svga3d.{
  dwords, zeros, zero_at, reserve, begin_define_surface, begin_surface_dma, begin_present,
  begin_clear, begin_draw_primitives, begin_surface_copy, begin_set_texture_state,
  begin_set_render_state, begin_present_readback, begin_blit_surface_to_screen,
}

pub data Start : Type 0 where
  define_surface : (sid flags format num_mip_sizes : ℕ) → Start
  surface_dma : (guest_image host_image : Mem) (transfer num_boxes : ℕ) → Start
  present : (sid num_rects : ℕ) → Start
  clear : (cid flags color depth stencil num_rects : ℕ) → Start
  draw_primitives : (cid num_vertex_decls num_ranges : ℕ) → Start
  surface_copy : (src dest : Mem) (num_boxes : ℕ) → Start
  set_texture_state : (cid num_states : ℕ) → Start
  set_render_state : (cid num_states : ℕ) → Start
  present_readback : (num_rects : ℕ) → Start
  blit_surface_to_screen :
      (src_image src_rect : Mem) (dest_screen_id : ℕ) (dest_rect : Mem) (num_clip_rects : ℕ) → Start

-- The method for each.
unfoldable pub begin : {H : Type 0} → Host H → ℕ → Start → Wait H (Option Pointer)
begin host fuel (define_surface sid flags format num_mip_sizes) =
    begin_define_surface host fuel sid flags format num_mip_sizes
begin host fuel (surface_dma guest_image host_image transfer num_boxes) =
    begin_surface_dma host fuel guest_image host_image transfer num_boxes
begin host fuel (present sid num_rects) = begin_present host fuel sid num_rects
begin host fuel (clear cid flags color depth stencil num_rects) =
    begin_clear host fuel cid flags color depth stencil num_rects
begin host fuel (draw_primitives cid num_vertex_decls num_ranges) =
    begin_draw_primitives host fuel cid num_vertex_decls num_ranges
begin host fuel (surface_copy src dest num_boxes) = begin_surface_copy host fuel src dest num_boxes
begin host fuel (set_texture_state cid num_states) =
    begin_set_texture_state host fuel cid num_states
begin host fuel (set_render_state cid num_states) = begin_set_render_state host fuel cid num_states
begin host fuel (present_readback num_rects) = begin_present_readback host fuel num_rects
begin host fuel
      (blit_surface_to_screen src_image src_rect dest_screen_id dest_rect num_clip_rects) =
    begin_blit_surface_to_screen host fuel src_image src_rect dest_screen_id dest_rect
      num_clip_rects

-- The command number, from SVGA_3D_CMD_BASE.
abbrev pub number : Start → ℕ
number (define_surface sid flags format num_mip_sizes) = 1040
number (surface_dma guest_image host_image transfer num_boxes) = 1040 + 4
number (present sid num_rects) = 1040 + 18
number (clear cid flags color depth stencil num_rects) = 1040 + 17
number (draw_primitives cid num_vertex_decls num_ranges) = 1040 + 23
number (surface_copy src dest num_boxes) = 1040 + 2
number (set_texture_state cid num_states) = 1040 + 11
number (set_render_state cid num_states) = 1040 + 9
number (present_readback num_rects) = 1040 + 28
number (blit_surface_to_screen src_image src_rect dest_screen_id dest_rect num_clip_rects) =
    1040 + 29

-- The fields that the method writes.
abbrev pub fields : Start → List ℕ
fields (define_surface sid flags format num_mip_sizes) = sid ∷ flags ∷ format ∷ []
fields (surface_dma guest_image host_image transfer num_boxes) =
    dwords 3 0 guest_image ++ (dwords 3 0 host_image ++ (transfer ∷ []))
fields (present sid num_rects) = sid ∷ []
fields (clear cid flags color depth stencil num_rects) = cid ∷ flags ∷ color ∷ depth ∷ stencil ∷ []
fields (draw_primitives cid num_vertex_decls num_ranges) =
    cid ∷ num_vertex_decls % u32 ∷ num_ranges % u32 ∷ []
fields (surface_copy src dest num_boxes) = dwords 3 0 src ++ dwords 3 0 dest
fields (set_texture_state cid num_states) = cid ∷ []
fields (set_render_state cid num_states) = cid ∷ []
fields (present_readback num_rects) = []
fields (blit_surface_to_screen src_image src_rect dest_screen_id dest_rect num_clip_rects) =
    dwords 3 0 src_image ++ (dwords 4 0 src_rect ++ (dest_screen_id ∷ dwords 4 0 dest_rect))

-- The dwords that are left to the caller: six faces and the mip sizes, boxes of 9 dwords, copy
-- rectangles of 6, rectangles of 4, vertex declarations of 9 and ranges of 7, states of 3 and 2.
abbrev pub left : Start → ℕ
left (define_surface sid flags format num_mip_sizes) = 6 + 3 * num_mip_sizes
left (surface_dma guest_image host_image transfer num_boxes) = 9 * num_boxes
left (present sid num_rects) = 6 * num_rects
left (clear cid flags color depth stencil num_rects) = 4 * num_rects
left (draw_primitives cid num_vertex_decls num_ranges) = 9 * num_vertex_decls + 7 * num_ranges
left (surface_copy src dest num_boxes) = 9 * num_boxes
left (set_texture_state cid num_states) = 3 * num_states
left (set_render_state cid num_states) = 2 * num_states
left (present_readback num_rects) = 4 * num_rects
left (blit_surface_to_screen src_image src_rect dest_screen_id dest_rect num_clip_rects) =
    4 * num_clip_rects

-- The command on the wire, with what the caller writes.
abbrev pub encode : Start → List ℕ → List ℕ
encode c ws = number c ∷ 4 * (length (fields c) + left c) % u32 ∷ (fields c ++ ws)

length-zeros : (n : ℕ) → length (zeros n) ≡ n
length-zeros zero = refl
length-zeros (suc n) = ap suc (length-zeros n)

-- What is stored over is gone.
store-store :
    (f : Mem) (p : ℕ) (zs ws : List ℕ)
    → length zs ≤ length ws
    → store (store f p zs) p ws ≡ store f p ws
store-store f p zs ws h = fun_ext (λ i. elim (Bool-cases (ltb i p)) [
  | inl below ↦
      store_below (store f p zs) p ws i (ltb→lt i p below)
      ∙ store_below f p zs i (ltb→lt i p below)
      ∙ sym (store_below f p ws i (ltb→lt i p below))
  | inr k ↦ elim (Bool-cases (ltb i (p + length ws))) [
    | inl inside ↦
        let e : i ≡ p + (i - p) = ground arith in
        let b : i - p < length ws = ground arith in
        ap (store (store f p zs) p ws) e
        ∙ store_at (store f p zs) p ws (i - p) b
        ∙ sym (store_at f p ws (i - p) b)
        ∙ sym (ap (store f p ws) e)
    | inr above ↦
        let b : p + length ws ≤ i = ground arith in
        store_above (store f p zs) p ws i b
        ∙ store_above f p zs i (omega arith)
        ∙ sym (store_above f p ws i b)
  ]
])

module _ {H : Type 0} where
  put-zeros :
      (n : ℕ) (p : Pointer) (ws : List ℕ) (d : Device H)
      → n ≤ length ws
      → put p ws (put p (zeros n) d) ≡ put p ws d
  unfolding put
  put-zeros n (in_fifo p) ws d h =
      ap (λ m. record d { fifo = m })
        (store-store d.fifo (p / 4) (zeros n) ws (omega (arith, length-zeros n)))
  put-zeros n (in_bounce p) ws d h =
      ap (λ m. record d { bounce_buffer = m })
        (store-store d.bounce_buffer (p / 4) (zeros n) ws (omega (arith, length-zeros n)))

  -- A method that reserves a command with the fields `ks`, and then changes the device by `f`, which
  -- makes `vs` of what the caller writes.
  pub begin_with :
      (z : Option (Option Pointer × Device H) → Option (Option Pointer × Device H))
      (f : Pointer → Device H → Device H) (ws vs : List ℕ)
      → ((p : Pointer) (d : Device H) → z (some (some p, d)) ≡ some (some p, f p d))
      → ((p : Pointer) (d : Device H) → put p ws (f p d) ≡ put p vs d)
      → (host : Host H) (fuel cmd size word : ℕ) (ks : List ℕ) (d : Device H)
      → CanSend host fuel d (length (cmd ∷ word ∷ (ks ++ vs)))
      → size ≡ 4 * length (ks ++ vs)
      → size % u32 ≡ word
      → (q : Pointer) × (e : Device H) × (z (with_header ks (reserve host fuel cmd size d))
          ≡ some (some q, e))
        × Sent d (cmd ∷ word ∷ (ks ++ vs)) (fifo_commit_all (put q ws e))
  unfolding reserve
  begin_with z f ws vs hz hf host fuel cmd size word ks d c e ew = finish (
      sent_lem host fuel (8 + size) (cmd ∷ word ∷ (ks ++ vs)) d c (λ e. omega arith)
        (omega (arith, e)))
    where
      finish :
          ((p : Pointer) × (d' : Device H) × (fifo_reserve host fuel (8 + size) d
              ≡ some (some p, d'))
            × Sent d
                (cmd ∷ word ∷ (ks ++ vs))
                (fifo_commit_all (put p (cmd ∷ word ∷ (ks ++ vs)) d')))
          → (q : Pointer) × (e : Device H) × (z (with_header ks (reserve host fuel cmd size d))
              ≡ some (some q, e))
            × Sent d (cmd ∷ word ∷ (ks ++ vs)) (fifo_commit_all (put q ws e))
      finish (p, d', r, sent) =
          let q = p +ptr 8 in
          let d1 = put q ks (put p (cmd ∷ word ∷ []) d') in
          (
            q +ptr 4 * length ks,
            f (q +ptr 4 * length ks) d1,
            rw (r, ew, reserve) (hz (q +ptr 4 * length ks) d1),
            rw
                (hf (q +ptr 4 * length ks) d1
                  ∙ put-append q ks vs (put p (cmd ∷ word ∷ []) d')
                  ∙ put-append p (cmd ∷ word ∷ []) (ks ++ vs) d')
                sent,
          )

  -- SVGA3D::FIFOReserve itself, with the contents of the command written at its pointer.
  pub reserve_lem :
      (host : Host H) (fuel cmd size word : ℕ) (ws : List ℕ) (d : Device H)
      → CanSend host fuel d (length (cmd ∷ word ∷ ws))
      → size ≡ 4 * length ws
      → size % u32 ≡ word
      → (q : Pointer) × (e : Device H) × (reserve host fuel cmd size d ≡ some (some q, e))
        × Sent d (cmd ∷ word ∷ ws) (fifo_commit_all (put q ws e))
  unfolding reserve
  reserve_lem host fuel cmd size word ws d c e ew =
      finish
        (sent_lem host fuel (8 + size) (cmd ∷ word ∷ ws) d c (λ e. omega arith) (omega (arith, e)))
    where
      finish :
          ((p : Pointer) × (d' : Device H) × (fifo_reserve host fuel (8 + size) d
              ≡ some (some p, d'))
            × Sent d (cmd ∷ word ∷ ws) (fifo_commit_all (put p (cmd ∷ word ∷ ws) d')))
          → (q : Pointer) × (e : Device H) × (reserve host fuel cmd size d ≡ some (some q, e))
            × Sent d (cmd ∷ word ∷ ws) (fifo_commit_all (put q ws e))
      finish (p, d', r, sent) = (
        p +ptr 8,
        put p (cmd ∷ word ∷ []) d',
        rw (r, ew, reserve),
        rw (put-append p (cmd ∷ word ∷ []) ws d') sent,
      )

  begin_plain :
      (host : Host H) (fuel cmd size word : ℕ) (ks ws : List ℕ) (d : Device H)
      → CanSend host fuel d (length (cmd ∷ word ∷ (ks ++ ws)))
      → size ≡ 4 * length (ks ++ ws)
      → size % u32 ≡ word
      → (q : Pointer) × (e : Device H) × (with_header ks (reserve host fuel cmd size d)
          ≡ some (some q, e))
        × Sent d (cmd ∷ word ∷ (ks ++ ws)) (fifo_commit_all (put q ws e))
  begin_plain host fuel cmd size word ks ws d c e ew =
      begin_with (λ o. o) (λ p d. d) ws ws (λ p d. refl) (λ p d. refl) host fuel cmd size word ks d
        c e ew

  begin_zeroed :
      (n : ℕ) (host : Host H) (fuel cmd size word : ℕ) (ks ws : List ℕ) (d : Device H)
      → n ≤ length ws
      → CanSend host fuel d (length (cmd ∷ word ∷ (ks ++ ws)))
      → size ≡ 4 * length (ks ++ ws)
      → size % u32 ≡ word
      → (q : Pointer) × (e : Device H) × (zero_at n (with_header ks (reserve host fuel cmd size d))
          ≡ some (some q, e))
        × Sent d (cmd ∷ word ∷ (ks ++ ws)) (fifo_commit_all (put q ws e))
  begin_zeroed n host fuel cmd size word ks ws d h c e ew =
      begin_with (zero_at n) (λ p d. put p (zeros n) d) ws ws (λ p d. refl)
        (λ p d. put-zeros n p ws d h) host fuel cmd size word ks d c e ew

  -- If the caller writes as many dwords as are left to it, and the command fits, then every begin
  -- method gives a pointer, and after FIFOCommitAll the command stands whole behind those that were
  -- pending.
  pub begin_lem :
      (host : Host H) (fuel : ℕ) (c : Start) (ws : List ℕ) (d : Device H)
      → length ws ≡ left c
      → CanSend host fuel d (length (encode c ws))
      → (q : Pointer) × (e : Device H) × (begin host fuel c d ≡ some (some q, e))
        × Sent d (encode c ws) (fifo_commit_all (put q ws e))
  unfolding begin begin_define_surface begin_surface_dma begin_present begin_clear
      begin_draw_primitives begin_surface_copy begin_set_texture_state begin_set_render_state
      begin_present_readback begin_blit_surface_to_screen
  begin_lem host fuel (define_surface sid flags format num_mip_sizes) ws d h c =
      begin_zeroed (6 + 3 * num_mip_sizes) host fuel 1040 (36 + 12 * num_mip_sizes) _
        (sid ∷ flags ∷ format ∷ []) ws d (omega arith) c (omega arith) (omega arith)
  begin_lem host fuel (surface_dma guest_image host_image transfer num_boxes) ws d h c =
      begin_zeroed (9 * num_boxes) host fuel 1044 (28 + 36 * num_boxes) _
        (dwords 3 0 guest_image ++ (dwords 3 0 host_image ++ (transfer ∷ []))) ws d (omega arith) c
        (omega arith) (omega arith)
  begin_lem host fuel (present sid num_rects) ws d h c =
      begin_plain host fuel 1058 (4 + 24 * num_rects) _ (sid ∷ []) ws d c (omega arith)
        (omega arith)
  begin_lem host fuel (clear cid flags color depth stencil num_rects) ws d h c =
      begin_plain host fuel 1057 (20 + 16 * num_rects) _
        (cid ∷ flags ∷ color ∷ depth ∷ stencil ∷ []) ws d c (omega arith) (omega arith)
  begin_lem host fuel (draw_primitives cid num_vertex_decls num_ranges) ws d h c =
      begin_plain host fuel 1063 (12 + 36 * num_vertex_decls + 28 * num_ranges) _
        (cid ∷ num_vertex_decls % u32 ∷ num_ranges % u32 ∷ []) ws d c (omega arith) (omega arith)
  begin_lem host fuel (surface_copy src dest num_boxes) ws d h c =
      begin_zeroed (9 * num_boxes) host fuel 1042 (24 + 36 * num_boxes) _
        (dwords 3 0 src ++ dwords 3 0 dest) ws d (omega arith) c (omega arith) (omega arith)
  begin_lem host fuel (set_texture_state cid num_states) ws d h c =
      begin_plain host fuel 1051 (4 + 12 * num_states) _ (cid ∷ []) ws d c (omega arith)
        (omega arith)
  begin_lem host fuel (set_render_state cid num_states) ws d h c =
      begin_plain host fuel 1049 (4 + 8 * num_states) _ (cid ∷ []) ws d c (omega arith)
        (omega arith)
  begin_lem host fuel (present_readback num_rects) ws d h c =
      begin_plain host fuel 1068 (16 * num_rects) _ [] ws d c (omega arith) (omega arith)
  begin_lem host fuel
        (blit_surface_to_screen src_image src_rect dest_screen_id dest_rect num_clip_rects) ws d h
        c =
      begin_plain host fuel 1069 (48 + 16 * num_clip_rects) _
        (dwords 3 0 src_image ++ (dwords 4 0 src_rect ++ (dest_screen_id ∷ dwords 4 0 dest_rect)))
        ws d c (omega arith) (omega arith)
