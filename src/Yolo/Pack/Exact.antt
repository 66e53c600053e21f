-- ===== src/Yolo/Pack/Exact.antt =====
-- `pack_conv_block` (yolov5n/yolov5n_common.c) without the wrap-around of its 32 bits.
use tpa.Base.{
  ℕ, zero, suc, ◌+◌, ◌-◌, ◌*◌, ◌/◌, ◌%◌, ◌^◌, ◌≤◌, ◌<◌, ◌≡◌, ◌⊎◌, inl, inr, refl, ap, ◌∙◌, Bool,
  true, ◌&&◌, leb, ltb, if◌then◌else◌, Bool-cases, arith,
}
use native.Mathlib.Nat.{mod-add-div', mod-lt, mul_assoc}
use tpa.Yolo.Bytes.{Bytes, for_below, vec_copy_bytes, vec_zero_bytes}
use tpa.Yolo.Layer.{TensorLayer, pix_block}
use tpa.Yolo.Loops.{slot_le, rows_le, for_below-same}
use tpa.Yolo.Pack.{Image, inside32, sub32, pack_tap, pack_taps, pack_conv_row, pack_conv_block}

-- `at - pad`, which may be negative, is an index below `size`.
abbrev pub inside : ℕ → ℕ → ℕ → Bool
inside at pad size = leb pad at && ltb (at - pad) size

-- The body of the loops over `ky` and `kx`, for the row at `dst_row` of the output pixel (oy, ox).
abbrev pub exact_tap : TensorLayer → Image → ℕ → ℕ → ℕ → ℕ → ℕ → Bytes → Bytes
exact_tap layer img oy ox dst_row ky kx m =
    let y = oy * layer.stride_h + ky in
    let x = ox * layer.stride_w + kx in
    let tap = (ky * layer.k_w + kx) * img.src_c in
    if inside y layer.pad_h img.src_h && inside x layer.pad_w img.src_w
    then vec_copy_bytes (dst_row + tap)
        (img.src + ((y - layer.pad_h) * img.src_w + (x - layer.pad_w)) * img.src_c) img.src_c m
    else m

abbrev pub exact_taps : TensorLayer → Image → ℕ → ℕ → ℕ → Bytes → Bytes
exact_taps layer img oy ox dst_row =
    for_below layer.k_h (λ ky. for_below layer.k_w (exact_tap layer img oy ox dst_row ky))

abbrev pub exact_row : TensorLayer → Image → ℕ → ℕ → ℕ → ℕ → ℕ → Bytes → Bytes
exact_row layer img dst_w pix0 dst_rowblk row_stride r m =
    let out_pix = pix0 + r in
    let dst_row = dst_rowblk + r * row_stride in
    exact_taps layer img (out_pix / dst_w) (out_pix % dst_w) dst_row
      (vec_zero_bytes dst_row row_stride m)

abbrev pub exact_block : TensorLayer → Image → ℕ → ℕ → ℕ → ℕ → Bytes → Bytes
exact_block layer img dst_w pix0 dst_rowblk row_stride =
    for_below pix_block (exact_row layer img dst_w pix0 dst_rowblk row_stride)

abbrev pub image_bytes : Image → ℕ
image_bytes img = img.src_h * img.src_w * img.src_c

pub pixel-inside : (h w c y x : ℕ) → y < h → x < w → (y * w + x) * c + c ≤ h * w * c
pixel-inside h w c y x in_h in_w =
    let whole_row = slot_le y h w in_h in slot_le (y * w + x) (h * w) c (omega (arith, whole_row))

pub inside_lt : (at pad size : ℕ) → inside at pad size ≡ true → at - pad < size
inside_lt at pad size h = ground arith

pub both_left : (p q : Bool) → (p && q) ≡ true → p ≡ true
both_left p q h = ground arith

pub both_right : (p q : Bool) → (p && q) ≡ true → q ≡ true
both_right p q h = ground arith

-- Nothing of a convolution to `rows` times `columns` pixels wraps around.
pub record InWords (layer : TensorLayer) (img : Image) (rows columns : ℕ) : Type 0 where
  pub tall : rows * layer.stride_h + layer.k_h ≤ 2 ^ 31
  pub wide : columns * layer.stride_w + layer.k_w ≤ 2 ^ 31
  pub pad_h : layer.pad_h < 2 ^ 31
  pub pad_w : layer.pad_w < 2 ^ 31
  pub src_h : img.src_h < 2 ^ 31
  pub src_w : img.src_w < 2 ^ 31
  pub image : image_bytes img ≤ 2 ^ 64
  pub window : layer.k_h * (layer.k_w * img.src_c) < 2 ^ 32
  pub some_rows : rows ≤ 2 ^ 32
  pub some_columns : columns ≤ 2 ^ 32
  pub pixels : rows * columns ≤ 2 ^ 64
  pub some_channels : 0 < img.src_c

inside32-inside :
    (at pad size : ℕ)
    → at < 2 ^ 31
    → pad < 2 ^ 31
    → size < 2 ^ 31
    → inside32 (sub32 (at % 2 ^ 32) pad) size ≡ inside at pad size
inside32-inside at pad size small_at small_pad small = ground (arith, small_at, small_pad, small)

sub32-same :
    (at pad size : ℕ)
    → at < 2 ^ 31
    → pad < 2 ^ 31
    → inside at pad size ≡ true
    → sub32 (at % 2 ^ 32) pad ≡ at - pad
sub32-same at pad size small_at small_pad h = ground (arith, small_at, small_pad, h)

pub small32 : (x : ℕ) → x < 2 ^ 32 → x % 2 ^ 32 ≡ x
small32 x lt = omega (arith, lt)

small64 : (x : ℕ) → x < 2 ^ 64 → x % 2 ^ 64 ≡ x
small64 x lt = omega (arith, lt)

pub window_assoc : (h w c : ℕ) → h * w * c ≡ h * (w * c)
window_assoc h w c = mul_assoc h w c

positive : (n k i : ℕ) → i < k * n → 0 < n
positive zero k i lt = absurd (omega (arith, lt))
positive (suc n) k i lt = omega arith

reach : (o n stride k bound : ℕ) → o < n → n * stride + k ≤ bound → o * stride + k ≤ bound
reach o n stride k bound lt le = omega (arith, slot_le o n stride lt, le)

below : (i n w : ℕ) → i < n * w → i / w < n
below i n w lt = elim (order (i / w) n) [
  | inl less ↦ less
  | inr more ↦ absurd (omega (arith, lt, mod-add-div' i w, rows_le n (i / w) w more))
]
  where
    order : (x y : ℕ) → (x < y) ⊎ (y ≤ x)
    order x y = omega arith

if_same :
    {A : Type 0} (b c : Bool) (x y z : A)
    → b ≡ c
    → (c ≡ true → x ≡ y)
    → (if b then x else z) ≡ (if c then y else z)
if_same b c x y z e same =
    ap (λ d. if d then x else z) e
    ∙ elim (Bool-cases c) [ inl there ↦ rw there (same there) | inr around ↦ rw around refl ]

module _ (layer : TensorLayer) (img : Image) (rows columns : ℕ)
    (words : InWords layer img rows columns) where
  pack_tap-exact :
      (oy ox dst_row ky kx : ℕ) (m : Bytes)
      → oy < rows
      → ox < columns
      → ky < layer.k_h
      → kx < layer.k_w
      → pack_tap layer img oy ox dst_row ky kx m ≡ exact_tap layer img oy ox dst_row ky kx m
  pack_tap-exact oy ox dst_row ky kx m in_rows in_columns in_h in_w =
      let y = oy * layer.stride_h + ky in
      let x = ox * layer.stride_w + kx in
      let iy = sub32 (y % 2 ^ 32) layer.pad_h in
      let ix = sub32 (x % 2 ^ 32) layer.pad_w in
      let tap = (ky * layer.k_w + kx) * img.src_c in
      let low_y : y < 2 ^ 31 =
        omega (arith, reach oy rows layer.stride_h layer.k_h (2 ^ 31) in_rows words.tall, in_h) in
      let low_x : x < 2 ^ 31 =
        omega
          (arith, reach ox columns layer.stride_w layer.k_w (2 ^ 31) in_columns words.wide, in_w) in
      let as_y = inside32-inside y layer.pad_h img.src_h low_y words.pad_h words.src_h in
      let as_x = inside32-inside x layer.pad_w img.src_w low_x words.pad_w words.src_w in
      if_same _ _ _ _ m
        (ap (λ p. p && inside32 ix img.src_w) as_y
          ∙ ap (λ q. inside y layer.pad_h img.src_h && q) as_x)
        (λ there.
          let in_y : inside y layer.pad_h img.src_h ≡ true = both_left _ _ there in
          let in_x : inside x layer.pad_w img.src_w ≡ true =
            both_right (inside y layer.pad_h img.src_h) _ there in
          let same_y : iy ≡ y - layer.pad_h =
            sub32-same y layer.pad_h img.src_h low_y words.pad_h in_y in
          let same_x : ix ≡ x - layer.pad_w =
            sub32-same x layer.pad_w img.src_w low_x words.pad_w in_x in
          let same_tap : tap % 2 ^ 32 ≡ tap = small32 tap (
            omega (
              arith,
              words.some_channels,
              words.window,
              pixel-inside layer.k_h layer.k_w img.src_c ky kx in_h in_w,
              window_assoc layer.k_h layer.k_w img.src_c,
            )) in
          let pixel = ((y - layer.pad_h) * img.src_w + (x - layer.pad_w)) * img.src_c in
          let same_pixel : pixel % 2 ^ 64 ≡ pixel = small64 pixel (
            omega (
              arith,
              words.some_channels,
              words.image,
              pixel-inside img.src_h img.src_w img.src_c (y - layer.pad_h) (x - layer.pad_w)
                  (inside_lt y layer.pad_h img.src_h in_y) (inside_lt x layer.pad_w img.src_w in_x),
            )) in
          ap
            (λ t.
              vec_copy_bytes (dst_row + t) (img.src + ((iy * img.src_w + ix) * img.src_c) % 2 ^ 64)
                img.src_c m)
            same_tap
          ∙ ap
              (λ i.
                vec_copy_bytes (dst_row + tap)
                  (img.src + ((i * img.src_w + ix) * img.src_c) % 2 ^ 64) img.src_c m)
              same_y
          ∙ ap
              (λ i.
                vec_copy_bytes (dst_row + tap)
                  (img.src + (((y - layer.pad_h) * img.src_w + i) * img.src_c) % 2 ^ 64) img.src_c
                  m)
              same_x
          ∙ ap (λ i. vec_copy_bytes (dst_row + tap) (img.src + i) img.src_c m) same_pixel)

  pub pack_taps-exact :
      (oy ox dst_row : ℕ) (m : Bytes)
      → oy < rows
      → ox < columns
      → pack_taps layer img oy ox dst_row m ≡ exact_taps layer img oy ox dst_row m
  pack_taps-exact oy ox dst_row m in_rows in_columns =
      for_below-same layer.k_h (λ ky. for_below layer.k_w (pack_tap layer img oy ox dst_row ky))
        (λ ky. for_below layer.k_w (exact_tap layer img oy ox dst_row ky)) m
        (λ ky in_h m1.
          for_below-same layer.k_w (pack_tap layer img oy ox dst_row ky)
            (exact_tap layer img oy ox dst_row ky) m1
            (λ kx in_w m2. pack_tap-exact oy ox dst_row ky kx m2 in_rows in_columns in_h in_w))

  pack_row-exact :
      (pix0 dst_rowblk row_stride r : ℕ) (m : Bytes)
      → pix0 + pix_block ≤ rows * columns
      → r < pix_block
      → pack_conv_row layer img columns pix0 dst_rowblk row_stride r m
        ≡ exact_row layer img columns pix0 dst_rowblk row_stride r m
  pack_row-exact pix0 dst_rowblk row_stride r m room lt =
      let at = pix0 + r in
      let dst_row = dst_rowblk + r * row_stride in
      let cleared = vec_zero_bytes dst_row row_stride m in
      let in_image : at < rows * columns = omega (arith, room, lt) in
      let some_column : 0 < columns = positive columns rows at in_image in
      let in_rows : at / columns < rows = below at rows columns in_image in
      let in_columns : at % columns < columns = mod-lt at some_column in
      let same_at : at % 2 ^ 64 ≡ at = small64 at (omega (arith, in_image, words.pixels)) in
      let same_row = small32 (at / columns) (omega (arith, in_rows, words.some_rows)) in
      let same_column = small32 (at % columns) (omega (arith, in_columns, words.some_columns)) in
      ap (λ i. pack_taps layer img (i / columns % 2 ^ 32) (i % columns % 2 ^ 32) dst_row cleared)
        same_at
      ∙ ap (λ oy. pack_taps layer img oy (at % columns % 2 ^ 32) dst_row cleared) same_row
      ∙ ap (λ ox. pack_taps layer img (at / columns) ox dst_row cleared) same_column
      ∙ pack_taps-exact (at / columns) (at % columns) dst_row cleared in_rows in_columns

  -- Where no number wraps around, the block is the one of unbounded numbers.
  pub pack_conv_block-exact :
      (pix0 dst_rowblk row_stride : ℕ) (m : Bytes)
      → pix0 + pix_block ≤ rows * columns
      → pack_conv_block layer img columns pix0 dst_rowblk row_stride m
        ≡ exact_block layer img columns pix0 dst_rowblk row_stride m
  pack_conv_block-exact pix0 dst_rowblk row_stride m room =
      for_below-same pix_block (pack_conv_row layer img columns pix0 dst_rowblk row_stride)
        (exact_row layer img columns pix0 dst_rowblk row_stride) m
        (λ r lt m1. pack_row-exact pix0 dst_rowblk row_stride r m1 room lt)
