-- ===== src/Yolo/Conv.antt =====
-- yolov5n/yolov5n_common.c: the convolutions, which multiply blocks of 16 pixels and 16 output channels
-- on the tensor unit. What the unit's instructions do is a parameter. Cache operations only move
-- bytes between caches.
pub mod Sums
pub mod Block
pub mod Layers
pub mod Pointwise
pub mod Convolution
use tpa.Base.{
  ℕ, zero, suc, ◌+◌, ◌-◌, ◌*◌, ◌/◌, ◌%◌, ◌^◌, Bool, true, false, not, ◌&&◌, ◌||◌, ◌==◌, ltb,
  if◌then◌else◌, List, [], ◌∷◌,
}
use tpa.Yolo.Bytes.{Bytes, for_below, scatter8}
use tpa.Yolo.Layer.{TensorLayer, pix_block, oc_block}
use tpa.Yolo.Pack.{Image, pack_1x1_block, pack_conv_block}

pub data Wait : Type 0 where
  load_wait_0 : Wait
  load_wait_1 : Wait
  fma_wait : Wait
  quant_wait : Wait
  store_wait : Wait

pub data Quant : Type 0 where
  last_trans : Quant
  int32_to_fp32 : Quant
  int32_add_row : Quant
  pack_128b : Quant
  satint8 : Quant
  fp32_to_int32 : Quant
  fp32_mul_row : Quant

-- The instructions, with the arguments that the source sets: `load` has the first line, the
-- transformation, the address, the lines less 1, the bytes of a row, and the id; `fma` the columns of
-- B, the rows and the columns of A (less 1), whether the sums go to the registers, the first lines of B
-- and A, the type, and whether it clears the sums; `quant` the columns, the rows, the line and the steps, the last one first;
-- `store` the stride of registers, the first one, the columns, the rows, the address and the stride.
pub record TensorUnit : Type 1 where
  pub S : Type 0
  pub clear_error : S → S
  pub load : (dst_start transformation addr num_lines stride id : ℕ) → Bytes → S → S
  pub wait : Wait → S → S
  pub fma : (bcols rows cols : ℕ) → Bool → (b_start a_start type : ℕ) → Bool → S → S
  pub quant : (cols rows line : ℕ) → List Quant → S → S
  pub store : (reg_stride start cols rows addr stride : ℕ) → S → Bytes → S × Bytes
  pub error : S → ℕ

abbrev pub scp_a_start : ℕ
scp_a_start = 0

abbrev pub scp_b_start : ℕ
scp_b_start = 16

abbrev pub scp_meta_line : ℕ
scp_meta_line = 32

-- The first byte of a block of weights.
abbrev pub tl8_wblk : TensorLayer → ℕ → ℕ → ℕ
tl8_wblk layer oc_blk k_blk =
    layer.tl8_b + (oc_blk * layer.k_blocks + k_blk) * (layer.k_block * layer.tl8_row_stride)

abbrev pub lut8 : ℕ → ℕ → Bytes → Bytes
lut8 lut ptr m = scatter8 ptr (λ i. m (lut + m (ptr + i) % 256)) m

abbrev pub apply_lut_row : ℕ → ℕ → ℕ → ℕ → Bytes → Bytes
apply_lut_row lut dst out_stride r =
    for_below 2 (λ c. lut8 lut (dst + (r * out_stride) % 2 ^ 32 + c * 8))

abbrev pub apply_lut_block_rows : TensorLayer → ℕ → ℕ → ℕ → Bytes → Bytes
apply_lut_block_rows layer dst out_stride rows m =
    let looked_up = for_below rows (apply_lut_row layer.lut dst out_stride) m in
    if layer.lut == 0 then m else looked_up

module _ (unit : TensorUnit) where
  -- What a call has returned so far (`false` for -1), the unit and the memory.
  pub record Run : Type 0 where
    pub ok : Bool
    pub state : unit.S
    pub mem : Bytes

  abbrev pub load_meta_line : ℕ → ℕ → Bytes → unit.S → unit.S
  load_meta_line dst src m s = unit.wait Wait.load_wait_0 (unit.load dst 0 src 0 64 0 m s)

  -- The steps from the sums to bytes: the biases are added, the scales multiplied, and the results
  -- saturate.
  abbrev pub add_biases : List Quant
  add_biases =
      Quant.last_trans ∷ Quant.last_trans ∷ Quant.last_trans ∷ Quant.last_trans ∷ Quant.last_trans
      ∷ Quant.last_trans ∷ Quant.last_trans ∷ Quant.last_trans ∷ Quant.int32_to_fp32
      ∷ Quant.int32_add_row ∷ []

  abbrev pub multiply_scales : List Quant
  multiply_scales =
      Quant.last_trans ∷ Quant.last_trans ∷ Quant.last_trans ∷ Quant.last_trans ∷ Quant.last_trans
      ∷ Quant.last_trans ∷ Quant.pack_128b ∷ Quant.satint8 ∷ Quant.fp32_to_int32
      ∷ Quant.fp32_mul_row ∷ []

  abbrev pub quantised : (bias scale rows : ℕ) → Bytes → unit.S → unit.S
  quantised bias scale rows m s =
      let s1 = load_meta_line scp_meta_line bias m s in
      let s2 = unit.wait Wait.quant_wait (unit.quant 3 (rows - 1) scp_meta_line add_biases s1) in
      let s3 = load_meta_line scp_meta_line scale m s2 in
      unit.wait Wait.quant_wait (unit.quant 3 (rows - 1) scp_meta_line multiply_scales s3)

  abbrev pub failed : unit.S → Bytes → Run
  failed s m = record { ok = false; state = unit.clear_error s; mem = m }

  -- The end of `tensor_finish_block_rows`, after the store.
  abbrev pub stored_rows : TensorLayer → ℕ → ℕ → ℕ → unit.S × Bytes → Run
  stored_rows layer out_blk out_stride rows (s, m) =
      let s1 = unit.wait Wait.store_wait s in
      if unit.error s1 == 0
      then record {
        ok = true;
        state = s1;
        mem = apply_lut_block_rows layer out_blk out_stride rows m;
      }
      else failed s1 m

  abbrev pub tensor_finish_block_rows : TensorLayer → ℕ → ℕ → ℕ → ℕ → Bytes → unit.S → Run
  tensor_finish_block_rows layer out_blk out_stride oc_blk rows m s =
      let s1 = unit.wait Wait.fma_wait s in
      let s2 = quantised (layer.bias_blk + oc_blk * 64) (layer.scale_blk + oc_blk * 64) rows m s1 in
      let stored = unit.store 1 0 0 (rows - 1) out_blk out_stride s2 m in
      if not (unit.error s1 == 0)
      then failed s1 m
      else if not (unit.error s2 == 0)
      then failed s2 m
      else stored_rows layer out_blk out_stride rows stored

  -- The instructions of a round: 16 rows of `k` bytes, by `k` rows of weights.
  abbrev pub multiply_block : (a a_stride b b_stride k : ℕ) → Bool → Bool → Bytes → unit.S → unit.S
  multiply_block a a_stride b b_stride k last first m s =
      let acols = (k / 4 + (2 ^ 32 - 1)) % 2 ^ 32 in
      let s1 = unit.load scp_a_start 0 a (pix_block - 1) a_stride 0 m s in
      let s2 = unit.load scp_b_start 1 b (pix_block - 1) b_stride 1 m s1 in
      let s3 = unit.wait Wait.load_wait_1 (unit.wait Wait.load_wait_0 s2) in
      unit.fma 3 (pix_block - 1) acols last scp_b_start scp_a_start 3 first s3

  abbrev pub k_round : TensorLayer → ℕ → ℕ → ℕ → Bytes → ℕ → unit.S → unit.S
  k_round layer in_blk in_stride oc_blk m k_blk =
      multiply_block (in_blk + k_blk * layer.k_block) in_stride (tl8_wblk layer oc_blk k_blk)
        layer.tl8_row_stride layer.k_block (k_blk + 1 == layer.k_blocks) (k_blk == 0) m

  -- The rounds of a loop over the state of the unit.
  abbrev pub rounds_of : ℕ → (ℕ → unit.S → unit.S) → unit.S → unit.S
  rounds_of zero body s = s
  rounds_of (suc n) body s = body n (rounds_of n body s)

  abbrev pub run_tensor_block : TensorLayer → ℕ → ℕ → ℕ → ℕ → ℕ → Run → Run
  run_tensor_block layer in_blk in_stride out_blk out_stride oc_blk p =
      tensor_finish_block_rows layer out_blk out_stride oc_blk pix_block p.mem
        (rounds_of layer.k_blocks (k_round layer in_blk in_stride oc_blk p.mem) p.state)

  -- A loop that an error leaves.
  abbrev pub run_loop : ℕ → (ℕ → Run → Run) → Run → Run
  run_loop zero body p = p
  run_loop (suc n) body p =
      let before = run_loop n body p in
      let next = body n before in if before.ok then next else before

  -- The loop over the blocks of output channels.
  abbrev pub oc_rounds : TensorLayer → ℕ → ℕ → ℕ → ℕ → Run → Run
  oc_rounds layer in_blk in_stride dst_blk dst_c =
      run_loop layer.oc_blocks (λ oc_blk.
        run_tensor_block layer in_blk in_stride (dst_blk + oc_blk * oc_block) dst_c oc_blk)

  -- The loop over the blocks of pixels: `prepare` packs the block of a pixel, and `in_at` is where it
  -- starts.
  abbrev pub pix_rounds : TensorLayer → (ℕ → Bytes → Bytes) → (ℕ → ℕ) → ℕ → ℕ → ℕ → ℕ → Run → Run
  pix_rounds layer prepare in_at in_stride dst dst_c nr_pix =
      run_loop ((nr_pix + 15) / pix_block) (λ b p.
        let pix = b * pix_block in
        oc_rounds layer (in_at pix) in_stride (dst + pix * dst_c) dst_c
          (record p { mem = prepare pix p.mem }))

  abbrev pub refused : Run → Run
  refused p = record p { ok = false }

  abbrev pub run_conv1x1_layer :
      TensorLayer → (src nr_pix src_c dst dst_c packed packed_bytes : ℕ) → Run → Run
  run_conv1x1_layer layer src nr_pix src_c dst dst_c packed packed_bytes p =
      let direct =
        pix_rounds layer (λ pix m. m) (λ pix. src + pix * src_c) src_c dst dst_c nr_pix p in
      let by_packing =
        pix_rounds layer (λ pix. pack_1x1_block (src + pix * src_c) src_c packed layer.k_padded)
          (λ pix. packed) layer.k_padded dst dst_c nr_pix p in
      if not (layer.k_h == 1)
        || not (layer.k_w == 1)
        || not (layer.c_in == src_c)
        || not (layer.k_inner == src_c)
      then refused p
      else if ltb src_c layer.k_padded && ltb packed_bytes (pix_block * layer.k_padded)
      then refused p
      else if layer.k_padded == src_c
      then direct
      else by_packing

  abbrev pub run_convk_packed_layer :
      TensorLayer → Image → (dst dst_h dst_w dst_c patch patch_bytes : ℕ) → Run → Run
  run_convk_packed_layer layer img dst dst_h dst_w dst_c patch patch_bytes p =
      let run =
        pix_rounds layer (λ pix. pack_conv_block layer img dst_w pix patch layer.k_padded)
          (λ pix. patch) layer.k_padded dst dst_c (dst_h * dst_w) p in
      if not (layer.c_in == img.src_c)
        || not (layer.k_inner == (layer.k_h * layer.k_w * img.src_c) % 2 ^ 32)
        || ltb patch_bytes (pix_block * layer.k_padded)
      then refused p
      else run
