-- ===== src/Tests/Tensors.antt =====
-- Tests of what the stages of the network share.
use tpa.Base.{
  ◌+◌, ◌-◌, ◌*◌, ◌/◌, ◌%◌, ◌≡◌, inl, inr, refl, arith, ltb, if◌then◌else◌, some, List, [], ◌∷◌,
}
use tpa.Yolo.Bytes.{Bytes, rank}
use tpa.Yolo.Layer.{TensorLayer}
use tpa.Yolo.Pack.{Image, pack_taps, pack_conv_block}
use tpa.Yolo.Pack.Taps.{tap_value, pixel_at}
use tpa.Yolo.Pack.Im2col.{pack_conv_block-at}
use tpa.Yolo.Pack.Overrun.{pack_taps-overrun}
use tpa.Yolo.Pack.Exact.{InWords}
use tpa.Yolo.Pool.{maxpool5x5_s1_p2}
use tpa.Yolo.Pool.Window.{WindowMax, maxpool-WindowMax}
use tpa.Yolo.Arena.{ArenaState, Arenas, arena_begin}
use tpa.Yolo.Arena.Align.{IsArena}
use tpa.Yolo.Arena.Peak.{Request, allocs, peak, layout, Laid, at_mark, arena_begin-allocs}
use tpa.Yolo.Residual.{add_residual_block, add_residual_block-at}

abbrev bytes : Bytes
bytes a = a * 7 % 256

-- A convolution of 3 by 3 over 8 channels.
abbrev layer : TensorLayer
layer = record {
  tl8_b = 0;
  bias_blk = 0;
  scale_blk = 0;
  lut = 0;
  c_in = 8;
  k_out = 16;
  k_h = 3;
  k_w = 3;
  stride_h = 1;
  stride_w = 1;
  pad_h = 1;
  pad_w = 1;
  k_inner = 72;
  k_padded = 128;
  k_block = 64;
  k_blocks = 2;
  tl8_row_stride = 64;
  oc_blocks = 1;
  act_in_scale = 0;
  act_out_scale = 0;
}

abbrev image : Image
image = record { src = 10000; src_h = 4; src_w = 4; src_c = 8 }

-- The first layer: 6 by 6 over 3 channels.
abbrev layer0 : TensorLayer
layer0 = record layer {
  c_in = 3;
  k_h = 6;
  k_w = 6;
  stride_h = 2;
  stride_w = 2;
  pad_h = 2;
  pad_w = 2;
  k_inner = 108;
}

abbrev photo : Image
photo = record { src = 10000; src_h = 4; src_w = 4; src_c = 3 }

image-InWords : InWords layer image 4 4
image-InWords = record {
  tall = omega arith;
  wide = omega arith;
  pad_h = omega arith;
  pad_w = omega arith;
  src_h = omega arith;
  src_w = omega arith;
  image = omega arith;
  window = omega arith;
  some_rows = omega arith;
  some_columns = omega arith;
  pixels = omega arith;
  some_channels = omega arith;
}

photo-InWords : InWords layer0 photo 2 2
photo-InWords = record {
  tall = omega arith;
  wide = omega arith;
  pad_h = omega arith;
  pad_w = omega arith;
  src_h = omega arith;
  src_w = omega arith;
  image = omega arith;
  window = omega arith;
  some_rows = omega arith;
  some_columns = omega arith;
  pixels = omega arith;
  some_channels = omega arith;
}

abbrev scratch : ArenaState
scratch = record { base = 4096; cap = 65536; brk = 10; hi = 100; declared_cap = 0 }

abbrev scratch-IsArena : IsArena scratch
scratch-IsArena = record { small = omega arith; declared = omega arith; used = omega arith }

abbrev arenas : Arenas
arenas hartid = scratch

abbrev buffers : List Request
buffers = record { bytes = 100; align_log = 6 } ∷ record { bytes = 64; align_log = 6 } ∷ []

pack_conv_block-at_example :
    pack_conv_block layer image 4 0 0 layer.k_padded bytes
      (0 + 5 * layer.k_padded + ((1 * layer.k_w + 2) * image.src_c + 3))
    ≡ tap_value layer image ((0 + 5) / 4) ((0 + 5) % 4) 1 2 3 bytes
pack_conv_block-at_example =
    pack_conv_block-at layer image 4 4 0 0 image-InWords (omega arith) refl refl (omega arith) bytes
      5 1 2 3 (omega arith) (omega arith) (omega arith) (omega arith) (inl (omega arith))

pack_taps-overrun_example :
    (tap_value layer0 photo 1 1 0 (3 + 1) 1 bytes ≡ 0)
    × (pack_taps layer0 photo 1 1 0 bytes (0 + ((0 * layer0.k_w + (3 + 1)) * photo.src_c + 1))
        ≡ bytes (
            pixel_at photo
              (1 * layer0.stride_h + 0 - layer0.pad_h)
              (photo.src_w - 1)
              (photo.src_c + 1)))
pack_taps-overrun_example =
    pack_taps-overrun layer0 photo 2 2 1 1 0 (omega arith) (omega arith) photo-InWords (omega arith)
      (omega arith) 0 3 1 bytes (omega arith) (omega arith) (omega arith) (omega arith) refl
      (omega arith) refl (inl (omega arith))

maxpool-WindowMax_example :
    WindowMax
      (λ i j. bytes (0 + (i * 3 + j) * 8 + 5))
      3
      3
      1
      2
      (maxpool5x5_s1_p2 0 3 3 8 1000 2000 bytes (1000 + (1 * 3 + 2) * 8 + 5))
maxpool-WindowMax_example =
    maxpool-WindowMax 0 3 3 8 1000 2000 bytes refl (inr (omega arith)) (inl (omega arith)) 1 2 5
      (omega arith) (omega arith) (omega arith)

arena_begin-allocs_example :
    (begun : Arenas) × (arena_begin 2 0 (peak 0 buffers) arenas ≡ some begun)
    × (allocs buffers (begun 0) ≡ some (layout 0 buffers, at_mark (peak 0 buffers) (begun 0)))
    × Laid 0 (layout 0 buffers) (peak 0 buffers)
arena_begin-allocs_example =
    arena_begin-allocs 2 0 arenas buffers (omega arith) (omega arith) (omega arith)
      (omega arith, omega arith, (omega arith, omega arith, tt)) (omega arith) (omega arith)

add_residual_block-at_example : rank (add_residual_block 0 100 64 200 bytes (100 + 21)) ≡ (
    let sum = rank (bytes (200 + bytes (0 + 21) % 256)) + rank (bytes (100 + 21)) in
    if ltb sum 128 then 0 else if ltb 383 sum then 255 else sum - 128)
add_residual_block-at_example =
    add_residual_block-at 0 100 200 64 21 bytes refl (omega arith) (inr (omega arith))
      (inl (omega arith))
