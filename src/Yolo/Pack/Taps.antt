-- ===== src/Yolo/Pack/Taps.antt =====
-- The row of one output pixel, for channels that fill whole vectors.
use tpa.Base.{
  ℕ, ◌+◌, ◌-◌, ◌*◌, ◌%◌, ◌≤◌, ◌<◌, ◌≡◌, ◌⊎◌, inl, inr, refl, ap, sym, ◌∙◌, ◌&&◌, Bool-cases,
  if◌then◌else◌, arith,
}
use tpa.Yolo.Bytes.{Bytes, for_below}
use tpa.Yolo.Layer.{TensorLayer}
use tpa.Yolo.Loops.{Within, for_below-Within, for_below-at, slot_le}
use tpa.Yolo.Rows.{Apart, vec_copy_bytes-Within, vec_copy_bytes-at}
use tpa.Yolo.Pack.{Image}
use tpa.Yolo.Pack.Exact.{
  inside, exact_tap, exact_taps, image_bytes, pixel-inside, inside_lt, both_left, both_right,
}

-- The address of channel `ch` of a pixel of an image.
abbrev pub pixel_at : Image → ℕ → ℕ → ℕ → ℕ
pixel_at img y x ch = img.src + (y * img.src_w + x) * img.src_c + ch

-- What the tap (ky, kx) of the output pixel (oy, ox) reads: a byte of the image, or 0 around it.
abbrev pub tap_value : TensorLayer → Image → ℕ → ℕ → ℕ → ℕ → ℕ → Bytes → ℕ
tap_value layer img oy ox ky kx ch m =
    let y = oy * layer.stride_h + ky in
    let x = ox * layer.stride_w + kx in
    if inside y layer.pad_h img.src_h && inside x layer.pad_w img.src_w
    then m (pixel_at img (y - layer.pad_h) (x - layer.pad_w) ch)
    else 0

pub tap_value-same :
    (layer : TensorLayer) (img : Image) (oy ox ky kx ch : ℕ) (m m' : Bytes)
    → ch < img.src_c
    → ((b : ℕ) → img.src ≤ b → b < img.src + image_bytes img → m b ≡ m' b)
    → tap_value layer img oy ox ky kx ch m ≡ tap_value layer img oy ox ky kx ch m'
tap_value-same layer img oy ox ky kx ch m m' in_c same =
    let y = oy * layer.stride_h + ky in
    let x = ox * layer.stride_w + kx in
    elim (Bool-cases (inside y layer.pad_h img.src_h && inside x layer.pad_w img.src_w)) [
      | inl in_image ↦ rw in_image (
          same (pixel_at img (y - layer.pad_h) (x - layer.pad_w) ch) (omega arith) (
            omega (
              arith,
              in_c,
              pixel-inside img.src_h img.src_w img.src_c (y - layer.pad_h) (x - layer.pad_w)
                  (inside_lt y layer.pad_h img.src_h (both_left _ _ in_image))
                  (inside_lt x layer.pad_w img.src_w (both_right _ _ in_image)),
            )))
      | inr around ↦ rw around refl
    ]

module _ (layer : TensorLayer) (img : Image) (oy ox dst_row : ℕ) (whole : img.src_c % 8 ≡ 0) where
  abbrev row_of : ℕ → Bytes → Bytes
  row_of ky = for_below layer.k_w (exact_tap layer img oy ox dst_row ky)

  tap-Within :
      (ky kx : ℕ)
      → Within
          (exact_tap layer img oy ox dst_row ky kx)
          (dst_row + ky * (layer.k_w * img.src_c) + kx * img.src_c)
          img.src_c
  tap-Within ky kx m a out =
      let y = oy * layer.stride_h + ky in
      let x = ox * layer.stride_w + kx in
      let copied =
        vec_copy_bytes-Within (dst_row + (ky * layer.k_w + kx) * img.src_c)
          (img.src + ((y - layer.pad_h) * img.src_w + (x - layer.pad_w)) * img.src_c) img.src_c
          whole m a (omega (arith, out)) in
      elim (Bool-cases (inside y layer.pad_h img.src_h && inside x layer.pad_w img.src_w)) [
        | inl in_image ↦ rw in_image copied
        | inr around ↦ rw around refl
      ]

  row-Within :
      (ky : ℕ) → Within (row_of ky) (dst_row + ky * (layer.k_w * img.src_c)) (layer.k_w * img.src_c)
  row-Within ky =
      for_below-Within (exact_tap layer img oy ox dst_row ky)
        (dst_row + ky * (layer.k_w * img.src_c)) img.src_c (tap-Within ky) layer.k_w

  pub taps-Within :
      Within (exact_taps layer img oy ox dst_row) dst_row (layer.k_h * (layer.k_w * img.src_c))
  taps-Within = for_below-Within row_of dst_row (layer.k_w * img.src_c) row-Within layer.k_h

  tap-at :
      (ky kx ch : ℕ) (m : Bytes)
      → ch < img.src_c
      → Apart dst_row (layer.k_h * (layer.k_w * img.src_c)) img.src (image_bytes img)
      → ky < layer.k_h
      → kx < layer.k_w
      → m (dst_row + (ky * layer.k_w + kx) * img.src_c + ch) ≡ 0
      → exact_tap layer img oy ox dst_row ky kx m (dst_row + (ky * layer.k_w + kx) * img.src_c + ch)
        ≡ tap_value layer img oy ox ky kx ch m
  tap-at ky kx ch m in_c apart in_h in_w blank =
      let y = oy * layer.stride_h + ky in
      let x = ox * layer.stride_w + kx in
      let room = pixel-inside layer.k_h layer.k_w img.src_c ky kx in_h in_w in
      elim (Bool-cases (inside y layer.pad_h img.src_h && inside x layer.pad_w img.src_w)) [
        | inl in_image ↦ rw in_image (
            vec_copy_bytes-at (dst_row + (ky * layer.k_w + kx) * img.src_c)
              (img.src + ((y - layer.pad_h) * img.src_w + (x - layer.pad_w)) * img.src_c) img.src_c
              m ch whole
              (omega (
                arith,
                apart,
                room,
                pixel-inside img.src_h img.src_w img.src_c (y - layer.pad_h) (x - layer.pad_w)
                    (inside_lt y layer.pad_h img.src_h (both_left _ _ in_image))
                    (inside_lt x layer.pad_w img.src_w (both_right _ _ in_image)),
              ))
              in_c)
        | inr around ↦ rw around blank
      ]

  -- What the taps leave in a row that is blank.
  pub taps-at :
      (ky kx ch : ℕ) (m : Bytes)
      → ch < img.src_c
      → Apart dst_row (layer.k_h * (layer.k_w * img.src_c)) img.src (image_bytes img)
      → ky < layer.k_h
      → kx < layer.k_w
      → ((i : ℕ) → i < layer.k_h * (layer.k_w * img.src_c) → m (dst_row + i) ≡ 0)
      → exact_taps layer img oy ox dst_row m (dst_row + ((ky * layer.k_w + kx) * img.src_c + ch))
        ≡ tap_value layer img oy ox ky kx ch m
  taps-at ky kx ch m in_c apart in_h in_w blank =
      let a = dst_row + ((ky * layer.k_w + kx) * img.src_c + ch) in
      let room = pixel-inside layer.k_h layer.k_w img.src_c ky kx in_h in_w in
      let in_row = slot_le kx layer.k_w img.src_c in_w in
      let m1 = for_below ky row_of m in
      let m2 = for_below kx (exact_tap layer img oy ox dst_row ky) m1 in
      let e : a ≡ dst_row + ky * (layer.k_w * img.src_c) + (kx * img.src_c + ch) = omega arith in
      let e' : a ≡ dst_row + ky * (layer.k_w * img.src_c) + kx * img.src_c + ch = omega arith in
      let e'' : a ≡ dst_row + (ky * layer.k_w + kx) * img.src_c + ch = omega arith in
      let by_rows =
        for_below-at row_of dst_row (layer.k_w * img.src_c) row-Within layer.k_h ky
          (kx * img.src_c + ch) m in_h (omega (arith, in_row, in_c)) in
      let by_taps =
        for_below-at (exact_tap layer img oy ox dst_row ky) (dst_row + ky * (layer.k_w * img.src_c))
          img.src_c (tap-Within ky) layer.k_w kx ch m1 in_w in_c in
      let same : (b : ℕ)
          → (b < dst_row) ⊎ (dst_row + (ky * (layer.k_w * img.src_c) + kx * img.src_c) ≤ b)
          → m2 b ≡ m b =
        λ b out.
          for_below-Within (exact_tap layer img oy ox dst_row ky)
            (dst_row + ky * (layer.k_w * img.src_c)) img.src_c (tap-Within ky) kx m1 b
            (omega (arith, out))
          ∙ for_below-Within row_of dst_row (layer.k_w * img.src_c) row-Within ky m b
              (omega (arith, out)) in
      ap (exact_taps layer img oy ox dst_row m) e
      ∙ by_rows
      ∙ ap (row_of ky m1) (sym e ∙ e')
      ∙ by_taps
      ∙ ap (exact_tap layer img oy ox dst_row ky kx m2) (sym e' ∙ e'')
      ∙ tap-at ky kx ch m2 in_c apart in_h in_w (
          ap m2 (sym e'')
          ∙ same a (omega arith)
          ∙ blank ((ky * layer.k_w + kx) * img.src_c + ch) (omega (arith, room, in_c)))
      ∙ tap_value-same layer img oy ox ky kx ch m2 m in_c
          (λ b from to. same b (omega (arith, apart, room, from, to)))
