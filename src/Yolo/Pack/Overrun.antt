-- ===== src/Yolo/Pack/Overrun.antt =====
-- `pack_conv_block` for pixels that are not a whole vector, as those of the input, of three channels.
use tpa.Base.{
  ℕ, suc, ◌+◌, ◌-◌, ◌*◌, ◌≤◌, ◌<◌, ◌≡◌, ◌⊎◌, inl, inr, refl, ap, ◌∙◌, true, false, ◌&&◌, Bool-cases,
  arith,
}
use tpa.Yolo.Bytes.{Bytes, for_below, rounds, vec_copy8, vec_copy_bytes}
use tpa.Yolo.Layer.{TensorLayer}
use tpa.Yolo.Loops.{Within, for_below-after, scatter8-Within, scatter8-at, slot_le}
use tpa.Yolo.Rows.{Apart}
use tpa.Yolo.Pack.{Image, pack_taps}
use tpa.Yolo.Pack.Exact.{
  InWords, pack_taps-exact, image_bytes, pixel-inside, inside_lt, inside, exact_tap, exact_taps,
}
use tpa.Yolo.Pack.Taps.{pixel_at, tap_value}

-- A pixel of less than eight channels is copied by one vector.
copy-one :
    (dst src n : ℕ) (m : Bytes) → 0 < n → n < 8 → vec_copy_bytes dst src n m ≡ vec_copy8 dst src m
copy-one dst src n m some few =
    let e : rounds n ≡ 1 = omega arith in
    let at_dst : dst + 0 ≡ dst = omega arith in
    let at_src : src + 0 ≡ src = omega arith in
    rw e (ap (λ d. vec_copy8 d (src + 0) m) at_dst ∙ ap (λ s. vec_copy8 dst s m) at_src)

module _ (layer : TensorLayer) (img : Image) (oy ox dst_row : ℕ) (some : 0 < img.src_c)
    (few : img.src_c < 8) where
  tap-reach :
      (ky kx : ℕ)
      → Within
          (exact_tap layer img oy ox dst_row ky kx)
          (dst_row + (ky * layer.k_w + kx) * img.src_c)
          8
  tap-reach ky kx m a out =
      let y = oy * layer.stride_h + ky in
      let x = ox * layer.stride_w + kx in
      let dst = dst_row + (ky * layer.k_w + kx) * img.src_c in
      let src = img.src + ((y - layer.pad_h) * img.src_w + (x - layer.pad_w)) * img.src_c in
      let copied =
        ap (λ f. f a) (copy-one dst src img.src_c m some few)
        ∙ scatter8-Within dst (λ i. m (src + i)) m a out in
      elim (Bool-cases (inside y layer.pad_h img.src_h && inside x layer.pad_w img.src_w)) [
        | inl in_image ↦ rw in_image copied
        | inr around ↦ rw around refl
      ]

  -- A round of `ky` writes nothing below its first tap.
  rows-later :
      (ky a : ℕ) (m : Bytes)
      → a < dst_row + ky * layer.k_w * img.src_c
      → for_below layer.k_w (exact_tap layer img oy ox dst_row ky) m a ≡ m a
  rows-later ky a m below =
      for_below-after (exact_tap layer img oy ox dst_row ky) a 0 layer.k_w m (omega arith)
        (λ kx from to m'. tap-reach ky kx m' a (inl (omega (arith, below))))

  -- All the taps stay in the row and the eight bytes behind it.
  rows-reach :
      (ky n a : ℕ) (m : Bytes)
      → ky < layer.k_h
      → n ≤ layer.k_w
      → (a < dst_row) ⊎ (dst_row + layer.k_h * layer.k_w * img.src_c + 8 ≤ a)
      → for_below n (exact_tap layer img oy ox dst_row ky) m a ≡ m a
  rows-reach ky n a m in_h in_w out =
      for_below-after (exact_tap layer img oy ox dst_row ky) a 0 n m (omega arith) (λ kx from to m'.
        tap-reach ky kx m' a (
          omega (
            arith,
            out,
            pixel-inside layer.k_h layer.k_w img.src_c ky kx in_h (omega (arith, to, in_w)),
          )))

  exact_taps-overrun :
      (ky kx ch : ℕ) (m : Bytes)
      → ky < layer.k_h
      → kx + 1 < layer.k_w
      → ch < img.src_c
      → img.src_c + ch < 8
      → inside (oy * layer.stride_h + ky) layer.pad_h img.src_h ≡ true
      → 0 < img.src_w
      → ox * layer.stride_w + kx ≡ layer.pad_w + (img.src_w - 1)
      → Apart dst_row (layer.k_h * layer.k_w * img.src_c + 8) img.src (image_bytes img + 8)
      → (tap_value layer img oy ox ky (kx + 1) ch m ≡ 0)
        × (exact_taps layer img oy ox dst_row m
              (dst_row + ((ky * layer.k_w + (kx + 1)) * img.src_c + ch))
            ≡ m (
                pixel_at img
                  (oy * layer.stride_h + ky - layer.pad_h)
                  (img.src_w - 1)
                  (img.src_c + ch)))
  exact_taps-overrun ky kx ch m in_h in_w in_c in_vec in_y wide last apart =
      let y = oy * layer.stride_h + ky in
      let x = ox * layer.stride_w + kx in
      let a = dst_row + ((ky * layer.k_w + (kx + 1)) * img.src_c + ch) in
      let rows : ℕ → Bytes → Bytes =
        λ ky. for_below layer.k_w (exact_tap layer img oy ox dst_row ky) in
      let outside : (k : ℕ)
          → kx < k
          → inside (ox * layer.stride_w + k) layer.pad_w img.src_w ≡ false =
        λ k lt. ground arith in
      let inner : inside x layer.pad_w img.src_w ≡ true = ground arith in
      let column : x - layer.pad_w ≡ img.src_w - 1 = omega (arith, last) in
      let in_row = slot_le (kx + 1) layer.k_w img.src_c in_w in
      let m1 = for_below ky rows m in
      let m2 = for_below kx (exact_tap layer img oy ox dst_row ky) m1 in
      let address =
        img.src
        + ((y - layer.pad_h) * img.src_w + (x - layer.pad_w)) * img.src_c
        + (img.src_c + ch) in
      let e : a ≡ dst_row + (ky * layer.k_w + kx) * img.src_c + (img.src_c + ch) = omega arith in
      let far : (address < dst_row) ⊎ (dst_row + layer.k_h * layer.k_w * img.src_c + 8 ≤ address) =
        omega (
          arith,
          apart,
          in_vec,
          pixel-inside img.src_h img.src_w img.src_c (y - layer.pad_h) (x - layer.pad_w)
              (inside_lt y layer.pad_h img.src_h in_y) (inside_lt x layer.pad_w img.src_w inner),
        ) in
      (
        rw (in_y, outside (kx + 1) (omega arith)) refl,
        for_below-after rows a (suc ky) layer.k_h m in_h (λ j from to m'.
              rows-later j a m'
                (omega (arith, slot_le ky j (layer.k_w * img.src_c) from, in_row, in_c)))
            ∙ for_below-after (exact_tap layer img oy ox dst_row ky) a (suc kx) layer.k_w m1
                (omega arith) (λ j from to m'. rw (in_y, outside j from) refl)
            ∙ rw (in_y, inner)
                (ap (λ f. f a)
                    (copy-one (dst_row + (ky * layer.k_w + kx) * img.src_c)
                      (img.src + ((y - layer.pad_h) * img.src_w + (x - layer.pad_w)) * img.src_c)
                      img.src_c m2 some few)
                  ∙ ap
                      (vec_copy8 (dst_row + (ky * layer.k_w + kx) * img.src_c)
                        (img.src + ((y - layer.pad_h) * img.src_w + (x - layer.pad_w)) * img.src_c)
                        m2)
                      e
                  ∙ scatter8-at (dst_row + (ky * layer.k_w + kx) * img.src_c)
                      (λ i. m2 (
                        img.src
                        + ((y - layer.pad_h) * img.src_w + (x - layer.pad_w)) * img.src_c
                        + i))
                      m2 (img.src_c + ch) in_vec)
            ∙ rows-reach ky kx address m1 in_h (omega arith) far
            ∙ for_below-after rows address 0 ky m (omega arith)
                (λ j from to m'. rows-reach j layer.k_w address m' (omega arith) (omega arith) far)
            ∙ ap (λ c. m (pixel_at img (y - layer.pad_h) c (img.src_c + ch))) column,
      )

module _ (layer : TensorLayer) (img : Image) (rows columns oy ox dst_row : ℕ) (some : 0 < img.src_c)
    (few : img.src_c < 8) (words : InWords layer img rows columns) (in_rows : oy < rows)
    (in_columns : ox < columns) where
  -- The loops over the taps of one row, of `pack_conv_block`, leave wrong bytes at the right border of an
  -- image whose pixels have less than 8 channels. Where tap kx of the output pixel reads the last
  -- column of the image, the next tap falls outside of the image, and its entries should be 0; but
  -- these loops leave in them the bytes that stand behind that last column in memory, which are
  -- those of the first pixel of the next row. The entries are those that a vector of 8 bytes
  -- reaches, the row does not overlap the image, and no number wraps around.
  pub pack_taps-overrun :
      (ky kx ch : ℕ) (m : Bytes)
      → ky < layer.k_h
      → kx + 1 < layer.k_w
      → ch < img.src_c
      → img.src_c + ch < 8
      → inside (oy * layer.stride_h + ky) layer.pad_h img.src_h ≡ true
      → 0 < img.src_w
      → ox * layer.stride_w + kx ≡ layer.pad_w + (img.src_w - 1)
      → Apart dst_row (layer.k_h * layer.k_w * img.src_c + 8) img.src (image_bytes img + 8)
      → (tap_value layer img oy ox ky (kx + 1) ch m ≡ 0)
        × (pack_taps layer img oy ox dst_row m
              (dst_row + ((ky * layer.k_w + (kx + 1)) * img.src_c + ch))
            ≡ m (
                pixel_at img
                  (oy * layer.stride_h + ky - layer.pad_h)
                  (img.src_w - 1)
                  (img.src_c + ch)))
  pack_taps-overrun ky kx ch m in_h in_w in_c in_vec in_y wide last apart =
      let (blank, left) =
        exact_taps-overrun layer img oy ox dst_row some few ky kx ch m in_h in_w in_c in_vec in_y
          wide last apart in
      (
        blank,
        ap (λ f. f (dst_row + ((ky * layer.k_w + (kx + 1)) * img.src_c + ch)))
              (pack_taps-exact layer img rows columns words oy ox dst_row m in_rows in_columns)
            ∙ left,
      )
