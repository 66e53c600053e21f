-- ===== src/Yolo/Pack.antt =====
-- yolov5n/yolov5n_common.c: `pack_1x1_block` and `pack_conv_block`, which lay the pixels that a
-- block of 16 outputs reads out as 16 rows of the tensor unit.
pub mod Exact
pub mod Taps
pub mod Im2col
pub mod Overrun
use tpa.Base.{ℕ, ◌+◌, ◌-◌, ◌*◌, ◌/◌, ◌%◌, ◌^◌, Bool, ◌&&◌, leb, ltb, if◌then◌else◌}
use tpa.Yolo.Bytes.{Bytes, for_below, vec_copy_bytes, vec_zero_bytes}
use tpa.Yolo.Layer.{TensorLayer, pix_block}

abbrev pub pack_1x1_row : ℕ → ℕ → ℕ → ℕ → ℕ → Bytes → Bytes
pack_1x1_row src src_c dst_rowblk row_stride r m =
    let dst_row = dst_rowblk + r * row_stride in
    vec_copy_bytes dst_row (src + r * src_c) src_c (vec_zero_bytes dst_row row_stride m)

abbrev pub pack_1x1_block : ℕ → ℕ → ℕ → ℕ → Bytes → Bytes
pack_1x1_block src src_c dst_rowblk row_stride =
    for_below pix_block (pack_1x1_row src src_c dst_rowblk row_stride)

pub record Image : Type 0 where
  pub src : ℕ
  pub src_h : ℕ
  pub src_w : ℕ
  pub src_c : ℕ

-- The `int32_t` that a `uint32_t` is cast to is its bit pattern; the order of the patterns as signed
-- numbers is that of these numbers.
abbrev pub rank32 : ℕ → ℕ
rank32 x = (x + 2 ^ 31) % 2 ^ 32

-- `(int32_t)at - (int32_t)pad`
abbrev pub sub32 : ℕ → ℕ → ℕ
sub32 at pad = (at + (2 ^ 32 - pad % 2 ^ 32)) % 2 ^ 32

-- Not `i < 0 || i >= (int32_t)size`.
abbrev pub inside32 : ℕ → ℕ → Bool
inside32 i size = ltb i (2 ^ 31) && ltb (rank32 i) (rank32 size)

-- The body of the loops over `ky` and `kx`, for the row at `dst_row` of the output pixel (oy, ox).
abbrev pub pack_tap : TensorLayer → Image → ℕ → ℕ → ℕ → ℕ → ℕ → Bytes → Bytes
pack_tap layer img oy ox dst_row ky kx m =
    let iy = sub32 ((oy * layer.stride_h + ky) % 2 ^ 32) layer.pad_h in
    let ix = sub32 ((ox * layer.stride_w + kx) % 2 ^ 32) layer.pad_w in
    let tap = ((ky * layer.k_w + kx) * img.src_c) % 2 ^ 32 in
    if inside32 iy img.src_h && inside32 ix img.src_w
    then vec_copy_bytes (dst_row + tap) (img.src + ((iy * img.src_w + ix) * img.src_c) % 2 ^ 64)
        img.src_c m
    else m

abbrev pub pack_taps : TensorLayer → Image → ℕ → ℕ → ℕ → Bytes → Bytes
pack_taps layer img oy ox dst_row =
    for_below layer.k_h (λ ky. for_below layer.k_w (pack_tap layer img oy ox dst_row ky))

abbrev pub pack_conv_row : TensorLayer → Image → ℕ → ℕ → ℕ → ℕ → ℕ → Bytes → Bytes
pack_conv_row layer img dst_w pix0 dst_rowblk row_stride r m =
    let out_pix = (pix0 + r) % 2 ^ 64 in
    let dst_row = dst_rowblk + r * row_stride in
    pack_taps layer img (out_pix / dst_w % 2 ^ 32) (out_pix % dst_w % 2 ^ 32) dst_row
      (vec_zero_bytes dst_row row_stride m)

abbrev pub pack_conv_block : TensorLayer → Image → ℕ → ℕ → ℕ → ℕ → Bytes → Bytes
pack_conv_block layer img dst_w pix0 dst_rowblk row_stride =
    for_below pix_block (pack_conv_row layer img dst_w pix0 dst_rowblk row_stride)
