-- ===== src/Yolo/Layer.antt =====
-- The description of a layer in yolov5n/yolov5n_common.h. Arrays are addresses, 0 being the null
-- pointer, and a `float` is the number that its bits make.
use tpa.Base.{ℕ}

pub record TensorLayer : Type 0 where
  pub tl8_b : ℕ
  pub bias_blk : ℕ
  pub scale_blk : ℕ
  pub lut : ℕ
  pub c_in : ℕ
  pub k_out : ℕ
  pub k_h : ℕ
  pub k_w : ℕ
  pub stride_h : ℕ
  pub stride_w : ℕ
  pub pad_h : ℕ
  pub pad_w : ℕ
  pub k_inner : ℕ
  pub k_padded : ℕ
  pub k_block : ℕ
  pub k_blocks : ℕ
  pub tl8_row_stride : ℕ
  pub oc_blocks : ℕ
  pub act_in_scale : ℕ
  pub act_out_scale : ℕ

abbrev pub pix_block : ℕ
pix_block = 16

abbrev pub oc_block : ℕ
oc_block = 16
