-- ===== src/Tests/Convs.antt =====
-- Tests of the convolutions.
use tpa.Base.{ℕ, ◌+◌, ◌-◌, ◌*◌, ◌%◌, true, List, [], ◌∷◌, ◌==◌, ◌&&◌, ltb, leb, if◌then◌else◌}
use tpa.Yolo.Bytes.{Bytes, for_below}
use tpa.Yolo.Layer.{TensorLayer}
use tpa.Yolo.Pack.{Image}
use tpa.Yolo.Conv.{TensorUnit, Run, Quant}
use tpa.Yolo.Conv.Sums.{mul_sum, word}

-- A unit that adds numbers: two matrices, a line, and the sums.
record Sums : Type 0 where
  a : ℕ → ℕ → ℕ
  b : ℕ → ℕ → ℕ
  line : ℕ → ℕ
  sums : ℕ → ℕ → ℕ

abbrev add_product : ℕ → ℕ → ℕ → ℕ
add_product v x y = v + x * y

abbrev saturated : ℕ → ℕ
saturated v = if ltb 127 v then 127 else v

abbrev quant_step : (ℕ → ℕ) → Quant → ℕ → ℕ → ℕ
quant_step line Quant.last_trans c v = v
quant_step line Quant.int32_to_fp32 c v = v
quant_step line Quant.int32_add_row c v = v + word line (c * 4)
quant_step line Quant.pack_128b c v = v
quant_step line Quant.satint8 c v = saturated v
quant_step line Quant.fp32_to_int32 c v = v
quant_step line Quant.fp32_mul_row c v = v * word line (c * 4)

abbrev quant_steps : (ℕ → ℕ) → List Quant → ℕ → ℕ → ℕ
quant_steps line [] c v = v
quant_steps line (q ∷ qs) c v = quant_step line q c (quant_steps line qs c v)

abbrev store_row : ℕ → ℕ → (ℕ → ℕ → ℕ) → ℕ → Bytes → Bytes
store_row addr stride sums r m a =
    if leb (addr + r * stride) a && ltb a (addr + r * stride + 16)
    then sums r (a - (addr + r * stride))
    else m a

abbrev adder : TensorUnit
adder = record {
  S = Sums;
  clear_error = λ s. s;
  load = λ dst_start transformation addr num_lines stride id m s.
      if dst_start == 0
      then record s { a = λ r j. m (addr + r * stride + j) }
      else if dst_start == 16
      then record s { b = λ j c. m (addr + j * stride + c) }
      else record s { line = λ i. m (addr + i) };
  wait = λ w s. s;
  fma = λ bcols rows cols last b_start a_start type first s. record s {
    sums = λ r c.
        mul_sum add_product ((cols + 1) * 4) (if first then 0 else s.sums r c) (s.a r)
          (λ j. s.b j c);
  };
  quant =
      λ cols rows line steps s. record s { sums = λ r c. quant_steps s.line steps c (s.sums r c) };
  store = λ reg_stride start cols rows addr stride s m.
      (s, for_below (rows + 1) (store_row addr stride s.sums) m);
  error = λ s. 0;
}

abbrev to_byte : ℕ → ℕ → ℕ → ℕ
to_byte v bias scale = saturated ((v + bias) * scale)

abbrev pointwise : TensorLayer
pointwise = record {
  tl8_b = 10000;
  bias_blk = 20032;
  scale_blk = 21056;
  lut = 0;
  c_in = 64;
  k_out = 16;
  k_h = 1;
  k_w = 1;
  stride_h = 1;
  stride_w = 1;
  pad_h = 0;
  pad_w = 0;
  k_inner = 64;
  k_padded = 64;
  k_block = 64;
  k_blocks = 1;
  tl8_row_stride = 64;
  oc_blocks = 1;
  act_in_scale = 0;
  act_out_scale = 0;
}

-- 3 by 3, in two blocks of rows, with a table.
abbrev windows : TensorLayer
windows = record pointwise {
  c_in = 8;
  lut = 22000;
  k_h = 3;
  k_w = 3;
  pad_h = 1;
  pad_w = 1;
  k_inner = 72;
  k_padded = 128;
  k_blocks = 2;
}

abbrev photo : Image
photo = record { src = 128; src_h = 4; src_w = 4; src_c = 8 }

abbrev begun : Run adder
begun = record {
  ok = true;
  state = record { a = λ r j. 0; b = λ j c. 0; line = λ i. 0; sums = λ r c. 7 };
  mem = λ a. a % 5;
}
