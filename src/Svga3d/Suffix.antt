-- ===== src/Svga3d/Suffix.antt =====
-- SVGA3D::BeginSurfaceDMAwithSuffix: the suffix is written before the boxes.
use docker_macos.Base.{
  ℕ, ◌+◌, ◌-◌, ◌*◌, ◌/◌, ◌%◌, ◌≤◌, ◌<◌, ◌≡◌, inl, inr, refl, sym, ap, ◌∙◌, some, List, [], ◌∷◌,
  ◌++◌, length, arith, length-append, ltb, ltb→lt, Bool-cases,
}
use mathlib.Core.Path.{fun_ext}
use docker_macos.Base.Mem.{Mem, store, store_below, store_above, store_at, store-append}
use docker_macos.Svga.{Host, Device, Pointer, in_fifo, in_bounce}
use docker_macos.Svga.Fifo.{put, fifo_commit_all, ◌+ptr◌}
use docker_macos.Svga.Fifo.Send.{Sent, CanSend, CanSend-eq}
use docker_macos.Svga3d.{dwords, with_suffix, begin_surface_dma_with_suffix}
use docker_macos.Svga3d.Begin.{begin_with}

-- Two stores that do not overlap commute.
store-store_after :
    (f : Mem) (p : ℕ) (ws vs : List ℕ)
    → store (store f (p + length ws) vs) p ws ≡ store (store f p ws) (p + length ws) vs
store-store_after f p ws vs = fun_ext (λ i. elim (Bool-cases (ltb i (p + length ws))) [
  | inl before ↦ elim (Bool-cases (ltb i p)) [
    | inl below ↦
        store_below (store f (p + length ws) vs) p ws i (ltb→lt i p below)
        ∙ store_below f (p + length ws) vs i (ground arith)
        ∙ sym (store_below f p ws i (ltb→lt i p below))
        ∙ sym (store_below (store f p ws) (p + length ws) vs i (ground arith))
    | inr inside ↦
        let e : i ≡ p + (i - p) = ground arith in
        let b : i - p < length ws = ground arith in
        ap (store (store f (p + length ws) vs) p ws) e
        ∙ store_at (store f (p + length ws) vs) p ws (i - p) b
        ∙ sym (store_at f p ws (i - p) b)
        ∙ sym (ap (store f p ws) e)
        ∙ sym (store_below (store f p ws) (p + length ws) vs i (ltb→lt i (p + length ws) before))
  ]
  | inr behind ↦ elim (Bool-cases (ltb i (p + length ws + length vs))) [
    | inl inside ↦
        let e : i ≡ p + length ws + (i - (p + length ws)) = ground arith in
        let b : i - (p + length ws) < length vs = ground arith in
        store_above (store f (p + length ws) vs) p ws i (ground arith)
        ∙ ap (store f (p + length ws) vs) e
        ∙ store_at f (p + length ws) vs (i - (p + length ws)) b
        ∙ sym (store_at (store f p ws) (p + length ws) vs (i - (p + length ws)) b)
        ∙ sym (ap (store (store f p ws) (p + length ws) vs) e)
    | inr above ↦
        let b : p + length ws + length vs ≤ i = ground arith in
        store_above (store f (p + length ws) vs) p ws i (omega arith)
        ∙ store_above f (p + length ws) vs i b
        ∙ sym (store_above f p ws i (omega arith))
        ∙ sym (store_above (store f p ws) (p + length ws) vs i b)
  ]
])

module _ {H : Type 0} where
  put-suffix :
      (p : Pointer) (n : ℕ) (ws vs : List ℕ) (d : Device H)
      → n ≡ 4 * length ws
      → put p ws (put (p +ptr n) vs d) ≡ put p (ws ++ vs) d
  unfolding put
  put-suffix (in_fifo p) n ws vs d h =
      let e : (p + n) / 4 ≡ p / 4 + length ws = omega arith in
      rw e (
        ap (λ m. record d { fifo = m })
          (store-store_after d.fifo (p / 4) ws vs ∙ sym (store-append d.fifo (p / 4) ws vs)))
  put-suffix (in_bounce p) n ws vs d h =
      let e : (p + n) / 4 ≡ p / 4 + length ws = omega arith in
      rw e (
        ap (λ m. record d { bounce_buffer = m })
          (store-store_after d.bounce_buffer (p / 4) ws vs
            ∙ sym (store-append d.bounce_buffer (p / 4) ws vs)))

  -- If the caller writes nine dwords for every box, and the command fits, then the DMA command with
  -- a suffix is sent whole: header, images, transfer, boxes and suffix, in this order.
  pub begin_suffix_lem :
      (host : Host H) (fuel : ℕ) (guest_image host_image : Mem)
      (transfer num_boxes maximum_offset flags : ℕ) (boxes : List ℕ) (d : Device H)
      → length boxes ≡ 9 * num_boxes
      → CanSend host fuel d (12 + length boxes)
      → (q : Pointer) × (e : Device H) × (begin_surface_dma_with_suffix host fuel guest_image
            host_image transfer num_boxes maximum_offset flags d
          ≡ some (some q, e))
        × Sent d
            (1044
                ∷ (40 + 36 * num_boxes) % 0x1_0000_0000
                ∷ (dwords 3 0 guest_image ++ (dwords 3 0 host_image ++ (transfer ∷ [])))
              ++ (boxes ++ (12 ∷ maximum_offset ∷ flags ∷ [])))
            (fifo_commit_all (put q boxes e))
  unfolding begin_surface_dma_with_suffix
  begin_suffix_lem host fuel guest_image host_image transfer num_boxes maximum_offset flags boxes d
        h c =
      let tail = boxes ++ (12 ∷ maximum_offset ∷ flags ∷ []) in
      let n : length tail ≡ length boxes + 3 =
        length-append boxes (12 ∷ maximum_offset ∷ flags ∷ []) in
      begin_with (with_suffix num_boxes maximum_offset flags)
        (λ p d. put (p +ptr 36 * num_boxes) (12 ∷ maximum_offset ∷ flags ∷ []) d) boxes
        (boxes ++ (12 ∷ maximum_offset ∷ flags ∷ [])) (λ p d. refl)
        (λ p d.
          put-suffix p (36 * num_boxes) boxes (12 ∷ maximum_offset ∷ flags ∷ []) d (omega arith))
        host fuel 1044 (28 + 36 * num_boxes + 12) ((40 + 36 * num_boxes) % 0x1_0000_0000)
        (dwords 3 0 guest_image ++ (dwords 3 0 host_image ++ (transfer ∷ []))) d
        (CanSend-eq (omega (arith, n)) c) (omega (arith, n)) (omega arith)
