-- ===== src/Yolo/Stage/Runs.antt =====
-- `yolov5n_p0_run` (yolov5n/yolov5n_p0.c) on a tensor unit without errors.
use tpa.Base.{
  ℕ, zero, suc, ◌+◌, ◌%◌, ◌^◌, ◌*◌, ◌/◌, ◌≤◌, ◌≡◌, ap, ◌∙◌, Bool, true, false, not, ◌==◌, ◌||◌,
  ◌&&◌, ltb, if◌then◌else◌, arith,
}
use tpa.Yolo.Bytes.{Bytes}
use tpa.Yolo.Layer.{TensorLayer, pix_block}
use tpa.Yolo.Pack.{Image, pack_1x1_block, pack_conv_block}
use tpa.Yolo.Conv.{
  TensorUnit, Run, Wait, quantised, k_round, rounds_of, run_tensor_block, run_loop, pix_rounds,
  refused, apply_lut_block_rows, failed, run_conv1x1_layer, run_convk_packed_layer,
}
use tpa.Yolo.Conv.Block.{three_tests, is_zero}
use tpa.Yolo.Stage.{then_run}

module _ (unit : TensorUnit) (no_error : (s : unit.S) → unit.error s ≡ 0) where
  block-ok :
      (layer : TensorLayer) (in_blk in_stride out stride oc_blk : ℕ) (p : Run unit)
      → (run_tensor_block unit layer in_blk in_stride out stride oc_blk p).ok ≡ true
  block-ok layer in_blk in_stride out stride oc_blk p =
      let s =
        rounds_of unit layer.k_blocks (k_round unit layer in_blk in_stride oc_blk p.mem) p.state in
      let bias = layer.bias_blk + oc_blk * 64 in
      let scale = layer.scale_blk + oc_blk * 64 in
      let s1 = unit.wait Wait.fma_wait s in
      let s2 = quantised unit bias scale 16 p.mem s1 in
      let stored = unit.store 1 0 0 15 out stride s2 p.mem in
      let s3 = unit.wait Wait.store_wait stored.0 in
      ap (λ q. q.ok)
        (three_tests (unit.error s1 == 0) (unit.error s2 == 0) (unit.error s3 == 0)
          (failed unit s1 p.mem) (failed unit s2 p.mem)
          (record {
            ok = true;
            state = s3;
            mem = apply_lut_block_rows layer out stride pix_block stored.1;
          })
          (failed unit s3 stored.1) (is_zero (unit.error s1) (no_error s1))
          (is_zero (unit.error s2) (no_error s2)) (is_zero (unit.error s3) (no_error s3)))

  run_loop-ok :
      (n : ℕ) (body : ℕ → Run unit → Run unit) (p : Run unit)
      → ((j : ℕ) (q : Run unit) → q.ok ≡ true → (body j q).ok ≡ true)
      → p.ok ≡ true
      → (run_loop unit n body p).ok ≡ true
  run_loop-ok zero body p each start = start
  run_loop-ok (suc n) body p each start =
      let before = run_loop unit n body p in
      let so_far = run_loop-ok n body p each start in
      ap (λ b. (if b then body n before else before).ok) so_far ∙ each n before so_far

  pix_rounds-ok :
      (layer : TensorLayer) (prepare : ℕ → Bytes → Bytes) (in_at : ℕ → ℕ)
      (in_stride dst dst_c nr_pix : ℕ) (p : Run unit)
      → p.ok ≡ true
      → (pix_rounds unit layer prepare in_at in_stride dst dst_c nr_pix p).ok ≡ true
  pix_rounds-ok layer prepare in_at in_stride dst dst_c nr_pix p start =
      run_loop-ok ((nr_pix + 15) / pix_block) _ p
        (λ b q on.
          run_loop-ok layer.oc_blocks _ (record q { mem = prepare (b * pix_block) q.mem })
            (λ oc_blk r on'.
              block-ok layer (in_at (b * pix_block)) in_stride
                (dst + b * pix_block * dst_c + oc_blk * 16) dst_c oc_blk r)
            on)
        start

  pub convk-ok :
      (layer : TensorLayer) (img : Image) (dst dst_h dst_w dst_c patch patch_bytes : ℕ)
      (p : Run unit)
      → p.ok ≡ true
      → layer.c_in ≡ img.src_c
      → layer.k_inner ≡ (layer.k_h * layer.k_w * img.src_c) % 2 ^ 32
      → pix_block * layer.k_padded ≤ patch_bytes
      → (run_convk_packed_layer unit layer img dst dst_h dst_w dst_c patch patch_bytes p).ok ≡ true
  convk-ok layer img dst dst_h dst_w dst_c patch patch_bytes p on channels inner enough =
      let prepare : ℕ → Bytes → Bytes =
        λ pix. pack_conv_block layer img dst_w pix patch layer.k_padded in
      passed_ok
        (not (layer.c_in == img.src_c)
          || not (layer.k_inner == (layer.k_h * layer.k_w * img.src_c) % 2 ^ 32)
          || ltb patch_bytes (pix_block * layer.k_padded))
        (refused unit p)
        (pix_rounds unit layer prepare (λ pix. patch) layer.k_padded dst dst_c (dst_h * dst_w) p)
        (fits layer.c_in img.src_c layer.k_inner ((layer.k_h * layer.k_w * img.src_c) % 2 ^ 32)
          patch_bytes (pix_block * layer.k_padded) channels inner enough)
        (pix_rounds-ok layer prepare (λ pix. patch) layer.k_padded dst dst_c (dst_h * dst_w) p on)
    where
      passed_ok :
          (b : Bool) (x y : Run unit) → b ≡ false → y.ok ≡ true → (if b then x else y).ok ≡ true
      passed_ok b x y e on = ap (λ z. (if z then x else y).ok) e ∙ on

      fits :
          (c c' k k' bytes size : ℕ)
          → c ≡ c'
          → k ≡ k'
          → size ≤ bytes
          → (not (c == c') || not (k == k') || ltb bytes size) ≡ false
      fits c c' k k' bytes size ec ek le = ground (arith, ec, ek, le)

  pub conv1x1-ok :
      (layer : TensorLayer) (src nr_pix src_c dst dst_c packed packed_bytes : ℕ) (p : Run unit)
      → p.ok ≡ true
      → layer.k_h ≡ 1
      → layer.k_w ≡ 1
      → layer.c_in ≡ src_c
      → layer.k_inner ≡ src_c
      → pix_block * layer.k_padded ≤ packed_bytes
      → (run_conv1x1_layer unit layer src nr_pix src_c dst dst_c packed packed_bytes p).ok ≡ true
  conv1x1-ok layer src nr_pix src_c dst dst_c packed packed_bytes p on high wide channels inner
        enough =
      let prepare : ℕ → Bytes → Bytes =
        λ pix. pack_1x1_block (src + pix * src_c) src_c packed layer.k_padded in
      passed_ok
        (not (layer.k_h == 1)
          || not (layer.k_w == 1)
          || not (layer.c_in == src_c)
          || not (layer.k_inner == src_c))
        (ltb src_c layer.k_padded && ltb packed_bytes (pix_block * layer.k_padded))
        (layer.k_padded == src_c) (refused unit p)
        (pix_rounds unit layer (λ pix m. m) (λ pix. src + pix * src_c) src_c dst dst_c nr_pix p)
        (pix_rounds unit layer prepare (λ pix. packed) layer.k_padded dst dst_c nr_pix p)
        (fits layer.k_h layer.k_w layer.c_in src_c layer.k_inner high wide channels inner)
        (room (ltb src_c layer.k_padded) packed_bytes (pix_block * layer.k_padded) enough)
        (pix_rounds-ok layer (λ pix m. m) (λ pix. src + pix * src_c) src_c dst dst_c nr_pix p on)
        (pix_rounds-ok layer prepare (λ pix. packed) layer.k_padded dst dst_c nr_pix p on)
    where
      either :
          (b : Bool) (z w : Run unit) → z.ok ≡ true → w.ok ≡ true → (if b then z else w).ok ≡ true
      either true z w one two = one
      either false z w one two = two

      passed_ok :
          (b1 b2 b3 : Bool) (x z w : Run unit)
          → b1 ≡ false
          → b2 ≡ false
          → z.ok ≡ true
          → w.ok ≡ true
          → (if b1 then x else if b2 then x else if b3 then z else w).ok ≡ true
      passed_ok b1 b2 b3 x z w e1 e2 one two =
          ap (λ c. (if c then x else if b2 then x else if b3 then z else w).ok) e1
          ∙ ap (λ c. (if c then x else if b3 then z else w).ok) e2
          ∙ either b3 z w one two

      fits :
          (h w c c' k : ℕ)
          → h ≡ 1
          → w ≡ 1
          → c ≡ c'
          → k ≡ c'
          → (not (h == 1) || not (w == 1) || not (c == c') || not (k == c')) ≡ false
      fits h w c c' k eh ew ec ek = ground (arith, eh, ew, ec, ek)

      room : (b : Bool) (bytes size : ℕ) → size ≤ bytes → (b && ltb bytes size) ≡ false
      room b bytes size le = ground (arith, le)

  pub then_run-ok :
      (call : Run unit → Run unit) (p : Run unit)
      → ((q : Run unit) → q.ok ≡ true → (call q).ok ≡ true)
      → p.ok ≡ true
      → (then_run unit call p).ok ≡ true
  then_run-ok call p each on = ap (λ b. (if b then call p else p).ok) on ∙ each p on
