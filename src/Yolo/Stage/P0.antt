-- ===== src/Yolo/Stage/P0.antt =====
-- `yolov5n_p0_run` (yolov5n/yolov5n_p0.c) as a whole, from its arena to the message that it sends.
use tpa.Base.{
  ℕ, ◌+◌, ◌*◌, ◌^◌, ◌≤◌, ◌<◌, ◌≡◌, ◌≢◌, refl, ap, ◌∙◌, Bool, true, false, not, ◌==◌, if◌then◌else◌,
  Option, none, some, List, arith, update,
}
use tpa.Step.{Op}
use tpa.Depth.Program.{tpa_stop, tpa_send}
use tpa.Yolo.Bytes.{Bytes}
use tpa.Yolo.Layer.{TensorLayer, pix_block}
use tpa.Yolo.Pack.{Image}
use tpa.Yolo.Residual.{add_residual_block}
use tpa.Yolo.Join.{concat2}
use tpa.Yolo.Arena.{Arenas, arena_begin}
use tpa.Yolo.Arena.Peak.{AllFit, Block, layout, at_mark, arena_begin-allocs}
use tpa.Yolo.Conv.{TensorUnit, Run, run_conv1x1_layer, run_convk_packed_layer}
use tpa.Yolo.Stage.{
  Generated, ResidualTables, Buffers, P0Ws, Ended, image, layer0, layer1, layer2, layer3, layer4,
  layer5, layer6, then_run, on_mem, p0_layers, p0_body, p0_run, p0_requests, p0_peak, input_bytes,
  nr_pix_160, packed_scratch_bytes, patch_scratch_bytes, with_arena, with_blocks, offset_of,
  build_residual_lut,
}
use tpa.Yolo.Stage.Runs.{convk-ok, conv1x1-ok, then_run-ok}

-- The generated numbers fit the layers: the entries of a row are those of a window, and the rows, padded,
-- fit the scratch memory.
pub record GeneratedFits (gen : ℕ → Generated) : Type 0 where
  pub inner0 : (gen 0).k_inner ≡ 108
  pub inner1 : (gen 1).k_inner ≡ 144
  pub inner2 : (gen 2).k_inner ≡ 32
  pub inner3 : (gen 3).k_inner ≡ 16
  pub inner4 : (gen 4).k_inner ≡ 144
  pub inner5 : (gen 5).k_inner ≡ 32
  pub inner6 : (gen 6).k_inner ≡ 32
  pub rows0 : pix_block * (gen 0).k_padded ≤ patch_scratch_bytes
  pub rows1 : pix_block * (gen 1).k_padded ≤ patch_scratch_bytes
  pub rows2 : pix_block * (gen 2).k_padded ≤ packed_scratch_bytes
  pub rows3 : pix_block * (gen 3).k_padded ≤ packed_scratch_bytes
  pub rows4 : pix_block * (gen 4).k_padded ≤ patch_scratch_bytes
  pub rows5 : pix_block * (gen 5).k_padded ≤ packed_scratch_bytes
  pub rows6 : pix_block * (gen 6).k_padded ≤ packed_scratch_bytes

abbrev pub op_of : {unit : TensorUnit} → Option (Ended unit) → Option Op
op_of none = none
op_of (some e) = some e.op

p0_requests-AllFit : AllFit p0_requests
p0_requests-AllFit = (
  omega arith,
  omega arith,
  (
    omega arith,
    omega arith,
    (
      omega arith,
      omega arith,
      (omega arith, omega arith, (omega arith, omega arith, (omega arith, omega arith, tt))),
    ),
  ),
)

module _ (unit : TensorUnit) (no_error : (s : unit.S) → unit.error s ≡ 0) (gen : ℕ → Generated)
    (lut : ℕ → ℕ) (fit : GeneratedFits gen) where
  p0_layers-ok : (b : Buffers) (p : Run unit) → p.ok ≡ true → (p0_layers unit gen lut b p).ok ≡ true
  p0_layers-ok b p on =
      let convk : TensorLayer → Image → (dst h w c : ℕ) → Run unit → Run unit =
        λ layer img dst h w c.
          run_convk_packed_layer unit layer img dst h w c b.patch_scratch patch_scratch_bytes in
      let conv1x1 : TensorLayer → (src src_c dst dst_c : ℕ) → Run unit → Run unit =
        λ layer src src_c dst dst_c.
          run_conv1x1_layer unit layer src nr_pix_160 src_c dst dst_c b.packed_scratch
            packed_scratch_bytes in
      let c0 = convk (layer0 gen lut) (image b.input 640 640 3) b.buf0 320 320 16 in
      let c1 = convk (layer1 gen lut) (image b.buf0 320 320 16) b.out_buf 160 160 32 in
      let c2 = conv1x1 (layer2 gen lut) b.out_buf 32 b.a_buf 16 in
      let c3 = conv1x1 (layer3 gen lut) b.a_buf 16 b.mid_buf 16 in
      let c4 = convk (layer4 gen lut) (image b.mid_buf 160 160 16) b.buf0 160 160 16 in
      let c5 = on_mem unit (add_residual_block b.a_buf b.buf0 (nr_pix_160 * 16) b.residual_lut0) in
      let c6 = conv1x1 (layer5 gen lut) b.out_buf 32 b.mid_buf 16 in
      let c7 = on_mem unit (concat2 b.buf0 16 b.mid_buf 16 nr_pix_160 b.buf0) in
      let c8 = conv1x1 (layer6 gen lut) b.buf0 32 b.out_buf 32 in
      let q0 = c0 p in
      let q1 = then_run unit c1 q0 in
      let q2 = then_run unit c2 q1 in
      let q3 = then_run unit c3 q2 in
      let q4 = then_run unit c4 q3 in
      let q5 = then_run unit c5 q4 in
      let q6 = then_run unit c6 q5 in
      let q7 = then_run unit c7 q6 in
      let ok0 =
        convk-ok unit no_error (layer0 gen lut) (image b.input 640 640 3) b.buf0 320 320 16
          b.patch_scratch patch_scratch_bytes p on refl fit.inner0 fit.rows0 in
      let ok1 =
        then_run-ok unit no_error c1 q0
          (λ q on'.
            convk-ok unit no_error (layer1 gen lut) (image b.buf0 320 320 16) b.out_buf 160 160 32
              b.patch_scratch patch_scratch_bytes q on' refl fit.inner1 fit.rows1)
          ok0 in
      let ok2 =
        then_run-ok unit no_error c2 q1
          (λ q on'.
            conv1x1-ok unit no_error (layer2 gen lut) b.out_buf nr_pix_160 32 b.a_buf 16
              b.packed_scratch packed_scratch_bytes q on' refl refl refl fit.inner2 fit.rows2)
          ok1 in
      let ok3 =
        then_run-ok unit no_error c3 q2
          (λ q on'.
            conv1x1-ok unit no_error (layer3 gen lut) b.a_buf nr_pix_160 16 b.mid_buf 16
              b.packed_scratch packed_scratch_bytes q on' refl refl refl fit.inner3 fit.rows3)
          ok2 in
      let ok4 =
        then_run-ok unit no_error c4 q3
          (λ q on'.
            convk-ok unit no_error (layer4 gen lut) (image b.mid_buf 160 160 16) b.buf0 160 160 16
              b.patch_scratch patch_scratch_bytes q on' refl fit.inner4 fit.rows4)
          ok3 in
      let ok5 = then_run-ok unit no_error c5 q4 (λ q on'. on') ok4 in
      let ok6 =
        then_run-ok unit no_error c6 q5
          (λ q on'.
            conv1x1-ok unit no_error (layer5 gen lut) b.out_buf nr_pix_160 32 b.mid_buf 16
              b.packed_scratch packed_scratch_bytes q on' refl refl refl fit.inner5 fit.rows5)
          ok5 in
      let ok7 = then_run-ok unit no_error c7 q6 (λ q on'. on') ok6 in
      then_run-ok unit no_error c8 q7
        (λ q on'.
          conv1x1-ok unit no_error (layer6 gen lut) b.buf0 nr_pix_160 32 b.out_buf 32
            b.packed_scratch packed_scratch_bytes q on' refl refl refl fit.inner6 fit.rows6)
        ok7

  module _ (nr_harts hartid : ℕ) (tables : ResidualTables) (ratio_byte : ℕ → ℕ → ℕ → ℕ)
      (residual_lut0 ch p0_done : ℕ) where
    body-op :
        (input out_buf base : ℕ) (blocks : List Block) (prepared : unit.S) (lut_ready : Bool)
        (m : Bytes) (arenas : Arenas)
        → (p0_body unit nr_harts hartid gen lut tables ratio_byte residual_lut0 ch p0_done input
            out_buf base blocks prepared lut_ready m arenas).op
          ≡ tpa_send ch out_buf (nr_pix_160 * 32) p0_done
    body-op input out_buf base blocks prepared lut_ready m arenas =
        ap (λ b. if b then tpa_send ch out_buf (nr_pix_160 * 32) p0_done else tpa_stop)
          (p0_layers-ok
            (record {
              input = input;
              out_buf = out_buf;
              buf0 = base + offset_of blocks 0;
              a_buf = base + offset_of blocks 1;
              mid_buf = base + offset_of blocks 2;
              packed_scratch = base + offset_of blocks 3;
              patch_scratch = base + offset_of blocks 4;
              residual_lut0 = residual_lut0;
            })
            (record {
              ok = true;
              state = prepared;
              mem =
                  (build_residual_lut tables ratio_byte (layer2 gen lut) (layer4 gen lut)
                    residual_lut0 (lut_ready, m)).1;
            })
            refl)

    -- The stage sends its output, 160 by 160 pixels of 32 channels: it has got an image of 640 by 640
    -- pixels of 3 channels, the channel has a buffer, the hart an arena of at most 2 GB and of at least the
    -- peak that the stage declares, the generated numbers fit the layers, and the tensor unit reports no
    -- error.
    pub p0_run-sends :
        (w : P0Ws) (out_buf : ℕ) (state prepared : unit.S) (lut_ready : Bool) (m : Bytes)
        (arenas : Arenas)
        → out_buf ≢ 0
        → w.in_len ≡ input_bytes
        → hartid < nr_harts
        → (arenas hartid).base ≢ 0
        → (arenas hartid).cap ≤ 2 ^ 31
        → p0_peak ≤ (arenas hartid).cap
        → op_of (
            p0_run unit nr_harts hartid gen lut tables ratio_byte residual_lut0 ch p0_done w out_buf
              state prepared lut_ready m arenas)
          ≡ some (tpa_send ch out_buf (nr_pix_160 * 32) p0_done)
    p0_run-sends w out_buf state prepared lut_ready m arenas has_buf whole hart has_base small
          enough =
        let (begun, starts, got, laid) =
          arena_begin-allocs nr_harts hartid arenas p0_requests hart has_base small
            p0_requests-AllFit (λ e. absurd (omega (arith, e))) enough in
        let out =
          p0_body unit nr_harts hartid gen lut tables ratio_byte residual_lut0 ch p0_done w.input
            out_buf in
        let run_with : Option Arenas → Option (Ended unit) =
          with_arena unit nr_harts hartid gen lut tables ratio_byte residual_lut0 ch p0_done w.input
            out_buf prepared lut_ready m in
        let refused : Option (Ended unit) = some (record {
          op = tpa_stop;
          test_fail = true;
          run = record { ok = true; state = state; mem = m };
          lut_ready = lut_ready;
          arenas = arenas;
        }) in
        ap op_of (
          both_pass (out_buf == 0) (not (w.in_len == input_bytes)) none refused
            (run_with (arena_begin nr_harts hartid p0_peak arenas)) (no_zero out_buf has_buf)
            (same w.in_len input_bytes whole))
        ∙ ap (λ o. op_of (run_with o)) starts
        ∙ ap
            (λ o. op_of (
              with_blocks unit nr_harts hartid gen lut tables ratio_byte residual_lut0 ch p0_done
                w.input out_buf prepared lut_ready m begun o))
            got
        ∙ ap some (
            body-op w.input out_buf (begun hartid).base (layout 0 p0_requests) prepared lut_ready m
              (update begun hartid (at_mark p0_peak (begun hartid))))
      where
        both_pass :
            {A : Type 0} (b1 b2 : Bool) (x y z : A)
            → b1 ≡ false
            → b2 ≡ false
            → (if b1 then x else if b2 then y else z) ≡ z
        both_pass b1 b2 x y z e1 e2 = rw (e1, e2) refl

        no_zero : (n : ℕ) → n ≢ 0 → (n == 0) ≡ false
        no_zero n ne = ground (arith, ne)

        same : (a b : ℕ) → a ≡ b → not (a == b) ≡ false
        same a b e = ground (arith, e)
