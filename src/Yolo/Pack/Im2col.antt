-- ===== src/Yolo/Pack/Im2col.antt =====
-- The blocks of `pack_1x1_block` and `pack_conv_block` against the matrices that they stand for, for
-- channels that fill whole vectors.
use tpa.Base.{
  ℕ, ◌+◌, ◌*◌, ◌/◌, ◌%◌, ◌≤◌, ◌<◌, ◌≡◌, inl, inr, ap, ◌∙◌, arith, ltb, if◌then◌else◌, Bool-cases,
  ltb→lt, ltb→le,
}
use tpa.Yolo.Bytes.{Bytes, for_below, vec_zero_bytes}
use tpa.Yolo.Layer.{TensorLayer, pix_block}
use tpa.Yolo.Loops.{Within, for_below-Within, for_below-at, slot_le}
use tpa.Yolo.Rows.{
  Apart, vec_copy_bytes-Within, vec_copy_bytes-at, vec_zero_bytes-Within, vec_zero_bytes-at,
}
use tpa.Yolo.Pack.{Image, pack_conv_block, pack_1x1_row, pack_1x1_block}
use tpa.Yolo.Pack.Exact.{
  InWords, pack_conv_block-exact, exact_row, exact_block, image_bytes, pixel-inside,
}
use tpa.Yolo.Pack.Taps.{tap_value, tap_value-same, taps-Within, taps-at}

module _ (layer : TensorLayer) (img : Image) (dst_w pix0 dst_rowblk : ℕ) (whole : img.src_c % 8 ≡ 0)
    (whole_row : layer.k_padded % 8 ≡ 0)
    (room : layer.k_h * (layer.k_w * img.src_c) ≤ layer.k_padded) where
  row-Within :
      (r : ℕ)
      → Within
          (exact_row layer img dst_w pix0 dst_rowblk layer.k_padded r)
          (dst_rowblk + r * layer.k_padded)
          layer.k_padded
  row-Within r m a out =
      taps-Within layer img ((pix0 + r) / dst_w) ((pix0 + r) % dst_w)
        (dst_rowblk + r * layer.k_padded) whole
        (vec_zero_bytes (dst_rowblk + r * layer.k_padded) layer.k_padded m) a
        (omega (arith, room, out))
      ∙ vec_zero_bytes-Within (dst_rowblk + r * layer.k_padded) layer.k_padded whole_row m a out

  exact_block-at :
      (m : Bytes) (r ky kx ch : ℕ)
      → r < pix_block
      → ky < layer.k_h
      → kx < layer.k_w
      → ch < img.src_c
      → Apart dst_rowblk (pix_block * layer.k_padded) img.src (image_bytes img)
      → exact_block layer img dst_w pix0 dst_rowblk layer.k_padded m
          (dst_rowblk + r * layer.k_padded + ((ky * layer.k_w + kx) * img.src_c + ch))
        ≡ tap_value layer img ((pix0 + r) / dst_w) ((pix0 + r) % dst_w) ky kx ch m
  exact_block-at m r ky kx ch in_block in_h in_w in_c apart =
      let rows = exact_row layer img dst_w pix0 dst_rowblk layer.k_padded in
      let dst_row = dst_rowblk + r * layer.k_padded in
      let before = for_below r rows m in
      let blank = vec_zero_bytes dst_row layer.k_padded before in
      let slot = slot_le r pix_block layer.k_padded in_block in
      let fits = pixel-inside layer.k_h layer.k_w img.src_c ky kx in_h in_w in
      for_below-at rows dst_rowblk layer.k_padded row-Within pix_block r
        ((ky * layer.k_w + kx) * img.src_c + ch) m in_block (omega (arith, room, fits, in_c))
      ∙ taps-at layer img ((pix0 + r) / dst_w) ((pix0 + r) % dst_w) dst_row whole ky kx ch blank
          in_c (omega (arith, room, slot, apart)) in_h in_w
          (λ i lt. vec_zero_bytes-at dst_row layer.k_padded before i (omega (arith, room, lt)))
      ∙ tap_value-same layer img ((pix0 + r) / dst_w) ((pix0 + r) % dst_w) ky kx ch blank m in_c
          (λ b from to.
            vec_zero_bytes-Within dst_row layer.k_padded whole_row before b
              (omega (arith, slot, apart, from, to))
            ∙ for_below-Within rows dst_rowblk layer.k_padded row-Within r m b
                (omega (arith, slot, apart, from, to)))

  exact_block-Within :
      Within
        (exact_block layer img dst_w pix0 dst_rowblk layer.k_padded)
        dst_rowblk
        (pix_block * layer.k_padded)
  exact_block-Within =
      for_below-Within (exact_row layer img dst_w pix0 dst_rowblk layer.k_padded) dst_rowblk
        layer.k_padded row-Within pix_block

  exact_block-padding :
      (m : Bytes) (r i : ℕ)
      → r < pix_block
      → layer.k_h * (layer.k_w * img.src_c) ≤ i
      → i < layer.k_padded
      → exact_block layer img dst_w pix0 dst_rowblk layer.k_padded m
          (dst_rowblk + r * layer.k_padded + i)
        ≡ 0
  exact_block-padding m r i in_block behind in_row =
      let rows = exact_row layer img dst_w pix0 dst_rowblk layer.k_padded in
      let dst_row = dst_rowblk + r * layer.k_padded in
      let before = for_below r rows m in
      for_below-at rows dst_rowblk layer.k_padded row-Within pix_block r i m in_block in_row
      ∙ taps-Within layer img ((pix0 + r) / dst_w) ((pix0 + r) % dst_w) dst_row whole
          (vec_zero_bytes dst_row layer.k_padded before) (dst_row + i) (omega (arith, behind))
      ∙ vec_zero_bytes-at dst_row layer.k_padded before i in_row

module _ (layer : TensorLayer) (img : Image) (dst_h dst_w pix0 dst_rowblk : ℕ)
    (words : InWords layer img dst_h dst_w) (in_image : pix0 + pix_block ≤ dst_h * dst_w)
    (whole : img.src_c % 8 ≡ 0) (whole_row : layer.k_padded % 8 ≡ 0)
    (room : layer.k_h * (layer.k_w * img.src_c) ≤ layer.k_padded) where
  -- `pack_conv_block` builds the matrix of the convolution: in row r, that of the output pixel
  -- `pix0 + r`, the entry of tap (ky, kx) and channel ch is the byte of the image that the tap
  -- reads, or 0 where it falls outside of the image. The block is one of an output of `dst_h` times
  -- `dst_w` pixels, and the sizes of the layer and of the image are so small that no number of the C
  -- code wraps around in its 32 or 64 bits. The channels and the rows are whole vectors of 8 bytes, a
  -- row has room for the taps, and the packed block does not overlap the image.
  pub pack_conv_block-at :
      (m : Bytes) (r ky kx ch : ℕ)
      → r < pix_block
      → ky < layer.k_h
      → kx < layer.k_w
      → ch < img.src_c
      → Apart dst_rowblk (pix_block * layer.k_padded) img.src (image_bytes img)
      → pack_conv_block layer img dst_w pix0 dst_rowblk layer.k_padded m
          (dst_rowblk + r * layer.k_padded + ((ky * layer.k_w + kx) * img.src_c + ch))
        ≡ tap_value layer img ((pix0 + r) / dst_w) ((pix0 + r) % dst_w) ky kx ch m
  pack_conv_block-at m r ky kx ch in_block in_h in_w in_c apart =
      ap (λ f. f (dst_rowblk + r * layer.k_padded + ((ky * layer.k_w + kx) * img.src_c + ch)))
        (pack_conv_block-exact layer img dst_h dst_w words pix0 dst_rowblk layer.k_padded m
          in_image)
      ∙ exact_block-at layer img dst_w pix0 dst_rowblk whole whole_row room m r ky kx ch in_block
          in_h in_w in_c apart

  pub pack_conv_block-Within :
      Within
        (pack_conv_block layer img dst_w pix0 dst_rowblk layer.k_padded)
        dst_rowblk
        (pix_block * layer.k_padded)
  pack_conv_block-Within m a out =
      ap (λ f. f a)
        (pack_conv_block-exact layer img dst_h dst_w words pix0 dst_rowblk layer.k_padded m
          in_image)
      ∙ exact_block-Within layer img dst_w pix0 dst_rowblk whole whole_row room m a out

  -- Behind the taps, the rows are blank.
  pub pack_conv_block-padding :
      (m : Bytes) (r i : ℕ)
      → r < pix_block
      → layer.k_h * (layer.k_w * img.src_c) ≤ i
      → i < layer.k_padded
      → pack_conv_block layer img dst_w pix0 dst_rowblk layer.k_padded m
          (dst_rowblk + r * layer.k_padded + i)
        ≡ 0
  pack_conv_block-padding m r i in_block behind in_row =
      ap (λ f. f (dst_rowblk + r * layer.k_padded + i))
        (pack_conv_block-exact layer img dst_h dst_w words pix0 dst_rowblk layer.k_padded m
          in_image)
      ∙ exact_block-padding layer img dst_w pix0 dst_rowblk whole whole_row room m r i in_block
          behind in_row

module _ (src src_c dst_rowblk row_stride : ℕ) (whole : src_c % 8 ≡ 0)
    (whole_row : row_stride % 8 ≡ 0) (room : src_c ≤ row_stride) where
  row1-Within :
      (r : ℕ)
      → Within
          (pack_1x1_row src src_c dst_rowblk row_stride r)
          (dst_rowblk + r * row_stride)
          row_stride
  row1-Within r m a out =
      vec_copy_bytes-Within (dst_rowblk + r * row_stride) (src + r * src_c) src_c whole
        (vec_zero_bytes (dst_rowblk + r * row_stride) row_stride m) a (omega (arith, room, out))
      ∙ vec_zero_bytes-Within (dst_rowblk + r * row_stride) row_stride whole_row m a out

  -- `pack_1x1_block` lays out 16 pixels as rows of the tensor unit: in row r, the channels of pixel r
  -- and then zeros. Channels and rows are whole vectors of 8 bytes, a row has room for the
  -- channels, and the packed block does not overlap the pixels.
  pub pack_1x1_block-at :
      (m : Bytes) (r i : ℕ)
      → r < pix_block
      → i < row_stride
      → Apart dst_rowblk (pix_block * row_stride) src (pix_block * src_c)
      → pack_1x1_block src src_c dst_rowblk row_stride m (dst_rowblk + r * row_stride + i)
        ≡ (if ltb i src_c then m (src + r * src_c + i) else 0)
  pack_1x1_block-at m r i in_block in_row apart =
      let rows = pack_1x1_row src src_c dst_rowblk row_stride in
      let dst_row = dst_rowblk + r * row_stride in
      let before = for_below r rows m in
      let blank = vec_zero_bytes dst_row row_stride before in
      let slot = slot_le r pix_block row_stride in_block in
      let pixel = slot_le r pix_block src_c in_block in
      let in_slot =
        for_below-at rows dst_rowblk row_stride row1-Within pix_block r i m in_block in_row in
      elim (Bool-cases (ltb i src_c)) [
        | inl channel ↦ rw channel (
            in_slot
            ∙ vec_copy_bytes-at dst_row (src + r * src_c) src_c blank i whole
                (omega (arith, room, slot, pixel, apart)) (ltb→lt i src_c channel)
            ∙ vec_zero_bytes-Within dst_row row_stride whole_row before (src + r * src_c + i)
                (omega (arith, slot, pixel, apart, ltb→lt i src_c channel))
            ∙ for_below-Within rows dst_rowblk row_stride row1-Within r m (src + r * src_c + i)
                (omega (arith, slot, pixel, apart, ltb→lt i src_c channel)))
        | inr behind ↦ rw behind (
            in_slot
            ∙ vec_copy_bytes-Within dst_row (src + r * src_c) src_c whole blank (dst_row + i)
                (omega (arith, ltb→le i src_c behind))
            ∙ vec_zero_bytes-at dst_row row_stride before i in_row)
      ]
