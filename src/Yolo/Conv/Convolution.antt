-- ===== src/Yolo/Conv/Convolution.antt =====
-- `yolov5n_run_convk_packed_layer` (yolov5n/yolov5n_common.c): a layer that reads a window of pixels.
use tpa.Base.{ℕ, ◌+◌, ◌*◌, ◌/◌, ◌%◌, ◌≤◌, ◌<◌, ◌≡◌, ltb, if◌then◌else◌}
use tpa.Yolo.Bytes.{Bytes}
use tpa.Yolo.Layer.{TensorLayer, pix_block}
use tpa.Yolo.Rows.{Apart}
use tpa.Yolo.Pack.{Image, pack_conv_block}
use tpa.Yolo.Pack.Exact.{InWords, image_bytes}
use tpa.Yolo.Pack.Taps.{tap_value}
use tpa.Yolo.Conv.{TensorUnit, Run, pix_rounds}
use tpa.Yolo.Conv.Sums.{Convolves, Placed, Readable}
use tpa.Yolo.Conv.Layers.{BlocksStorable, OutOf}

-- What an output pixel reads at position `i`: the taps of its window one after the other, each with
-- its channels, and zeros behind them.
abbrev pub window_value : TensorLayer → Image → ℕ → Bytes → ℕ → ℕ → ℕ
window_value layer img dst_w m pix i =
    if ltb i (layer.k_h * (layer.k_w * img.src_c))
    then tap_value layer img (pix / dst_w) (pix % dst_w) (i / img.src_c / layer.k_w)
        (i / img.src_c % layer.k_w) (i % img.src_c) m
    else 0

-- A position as a tap and a channel.
record Position (h w c i : ℕ) : Type 0 where
  place : i ≡ (i / c / w * w + i / c % w) * c + i % c
  in_h : i / c / w < h
  in_w : i / c % w < w
  in_c : i % c < c

-- Neither in the output nor in the packed rows.
abbrev pub Untouched : (dst dst_bytes patch patch_bytes : ℕ) → ℕ → Type 0
Untouched dst dst_bytes patch patch_bytes a = OutOf dst dst_bytes a × OutOf patch patch_bytes a

module _ (unit : TensorUnit) (V : Type 0) (nothing : V) (madd : V → ℕ → ℕ → V)
    (acc : unit.S → ℕ → ℕ → V) (post : V → ℕ → ℕ → ℕ) (law : Convolves unit V nothing madd acc post)
    (no_error : (s : unit.S) → unit.error s ≡ 0) (layer : TensorLayer)
    (whole : layer.k_block % 4 ≡ 0) (some_rows : 4 ≤ layer.k_block) (few_rows : layer.k_block ≤ 64)
    (some_blocks : 1 ≤ layer.k_blocks) (placed : Placed layer) (img : Image)
    (dst dst_h dst_w dst_c patch nr_blocks : ℕ) (size : dst_h * dst_w ≡ nr_blocks * 16)
    (wide : 16 ≤ dst_c) (channels : layer.oc_blocks * 16 ≤ dst_c)
    (padded : layer.k_blocks * layer.k_block ≤ layer.k_padded) (whole_c : img.src_c % 8 ≡ 0)
    (whole_row : layer.k_padded % 8 ≡ 0)
    (room : layer.k_h * (layer.k_w * img.src_c) ≤ layer.k_padded)
    (patch_apart : Apart patch (pix_block * layer.k_padded) img.src (image_bytes img))
    (dst_apart : Apart dst (nr_blocks * 16 * dst_c) img.src (image_bytes img))
    (apart : Apart dst (nr_blocks * 16 * dst_c) patch (pix_block * layer.k_padded))
    (storable : BlocksStorable layer dst dst_c nr_blocks)
    (readable : Readable layer patch layer.k_padded) (words : InWords layer img dst_h dst_w) where
  abbrev convolution : Run unit → Run unit
  convolution =
      pix_rounds unit layer (λ pix. pack_conv_block layer img dst_w pix patch layer.k_padded)
        (λ pix. patch) layer.k_padded dst dst_c (dst_h * dst_w)
