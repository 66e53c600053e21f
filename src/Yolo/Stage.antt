-- ===== src/Yolo/Stage.antt =====
-- yolov5n/yolov5n_p0.c: the first stage of the network, a program of a process, which runs its layers
-- one after the other; and `yolov5n_build_residual_lut` of yolov5n/yolov5n_common.c. The numbers of the
-- generated headers, the addresses of the tables and the arithmetic of `float` are parameters.
pub mod Runs
pub mod P0
use tpa.Base.{
  ℕ, zero, suc, ◌+◌, ◌*◌, ◌&&◌, not, Bool, true, false, Option, none, some, List, [], ◌∷◌, ◌==◌,
  if◌then◌else◌, update,
}
use tpa.Step.{Op}
use tpa.Depth.Program.{tpa_stop, tpa_send, tpa_recv}
use tpa.Yolo.Bytes.{Bytes, for_below}
use tpa.Yolo.Layer.{TensorLayer, pix_block, oc_block}
use tpa.Yolo.Pack.{Image}
use tpa.Yolo.Residual.{add_residual_block}
use tpa.Yolo.Join.{concat2}
use tpa.Yolo.Arena.{ArenaState, Arenas, arena_begin}
use tpa.Yolo.Arena.Peak.{Request, Block, allocs}
use tpa.Yolo.Conv.{TensorUnit, Run, run_conv1x1_layer, run_convk_packed_layer}

-- What the generated header of a layer defines.
pub record Generated : Type 0 where
  pub tl8_b : ℕ
  pub bias_blk : ℕ
  pub scale_blk : ℕ
  pub k_inner : ℕ
  pub k_padded : ℕ
  pub k_block : ℕ
  pub k_blocks : ℕ
  pub tl8_row_stride : ℕ
  pub oc_blocks : ℕ

-- `DEF_LAYER`, the scales by their bits.
abbrev pub def_layer :
    Generated
    → (lut c_in k_out k_h k_w stride_h stride_w pad_h pad_w act_in act_out : ℕ) → TensorLayer
def_layer g lut c_in k_out k_h k_w stride_h stride_w pad_h pad_w act_in act_out = record {
  tl8_b = g.tl8_b;
  bias_blk = g.bias_blk;
  scale_blk = g.scale_blk;
  lut = lut;
  c_in = c_in;
  k_out = k_out;
  k_h = k_h;
  k_w = k_w;
  stride_h = stride_h;
  stride_w = stride_w;
  pad_h = pad_h;
  pad_w = pad_w;
  k_inner = g.k_inner;
  k_padded = g.k_padded;
  k_block = g.k_block;
  k_blocks = g.k_blocks;
  tl8_row_stride = g.tl8_row_stride;
  oc_blocks = g.oc_blocks;
  act_in_scale = act_in;
  act_out_scale = act_out;
}

-- The addresses of the tables of residuals, by stage and number.
pub record ResidualTables : Type 0 where
  pub p0_lut0 : ℕ
  pub p1_lut0 : ℕ
  pub p1_lut1 : ℕ
  pub p2_lut0 : ℕ
  pub p2_lut1 : ℕ
  pub p2_lut2 : ℕ
  pub p3_lut0 : ℕ

abbrev pub lookup_residual_lut : ResidualTables → ℕ → ℕ → ℕ
lookup_residual_lut tables src_bits dst_bits =
    if src_bits == 1029314304 && dst_bits == 1037679055
    then tables.p0_lut0
    else if src_bits == 1015828342 && dst_bits == 1017622953
    then tables.p1_lut0
    else if src_bits == 1017622953 && dst_bits == 1025674908
    then tables.p1_lut1
    else if src_bits == 1005189497 && dst_bits == 1016044628
    then tables.p2_lut0
    else if src_bits == 1016044628 && dst_bits == 1016118546
    then tables.p2_lut1
    else if src_bits == 1016118546 && dst_bits == 1022336370
    then tables.p2_lut2
    else if src_bits == 1000175558 && dst_bits == 1022018870
    then tables.p3_lut0
    else 0

-- `ratio_byte` is the byte that the floats make for a byte, without a table.
abbrev pub fill_lut : ResidualTables → (ℕ → ℕ → ℕ → ℕ) → ℕ → ℕ → ℕ → Bytes → Bytes
fill_lut tables ratio_byte src_bits dst_bits lut m =
    let precomputed = lookup_residual_lut tables src_bits dst_bits in
    let copied = for_below 256 (λ i m'. update m' (lut + i) (m' (precomputed + i))) m in
    let computed = for_below 256 (λ i m'. update m' (lut + i) (ratio_byte src_bits dst_bits i)) m in
    if precomputed == 0 then computed else copied

-- The memory, and whether the table is ready.
abbrev pub build_residual_lut :
    ResidualTables → (ℕ → ℕ → ℕ → ℕ) → TensorLayer → TensorLayer → ℕ → Bool × Bytes → Bool × Bytes
build_residual_lut tables ratio_byte src_layer dst_layer lut (ready, m) =
    let filled = fill_lut tables ratio_byte src_layer.act_out_scale dst_layer.act_out_scale lut m in
    if ready then (ready, m) else (true, filled)

abbrev pub nr_pix_160 : ℕ
nr_pix_160 = 25600

abbrev pub input_bytes : ℕ
input_bytes = 1228800

abbrev pub packed_scratch_bytes : ℕ
packed_scratch_bytes = pix_block * 64

abbrev pub patch_scratch_bytes : ℕ
patch_scratch_bytes = pix_block * 192

-- `YV5N_P0_SCRATCH_PEAK_BYTES`
abbrev pub p0_peak : ℕ
p0_peak = 2462720

-- The calls of `yolov5n_arena_alloc`.
abbrev pub p0_requests : List Request
p0_requests =
    record { bytes = 1638400; align_log = 6 }
    ∷ record { bytes = 409600; align_log = 6 }
    ∷ record { bytes = 409600; align_log = 6 }
    ∷ record { bytes = packed_scratch_bytes; align_log = 6 }
    ∷ record { bytes = patch_scratch_bytes; align_log = 6 }
    ∷ record { bytes = 4 * (pix_block * oc_block); align_log = 6 }
    ∷ []

-- The offset of block `i`.
abbrev pub offset_of : List Block → ℕ → ℕ
offset_of [] i = 0
offset_of (b ∷ blocks) zero = b.offset
offset_of (b ∷ blocks) (suc i) = offset_of blocks i

pub record P0Ws : Type 0 where
  pub input : ℕ
  pub in_len : ℕ

-- Where the stage finds what it works on.
pub record Buffers : Type 0 where
  pub input : ℕ
  pub out_buf : ℕ
  pub buf0 : ℕ
  pub a_buf : ℕ
  pub mid_buf : ℕ
  pub packed_scratch : ℕ
  pub patch_scratch : ℕ
  pub residual_lut0 : ℕ

-- The layers, by the generated numbers and the tables of the activation.
abbrev pub layer0 : (ℕ → Generated) → (ℕ → ℕ) → TensorLayer
layer0 gen lut = def_layer (gen 0) (lut 0) 3 16 6 6 2 2 2 2 1006699007 1045257100

abbrev pub layer1 : (ℕ → Generated) → (ℕ → ℕ) → TensorLayer
layer1 gen lut = def_layer (gen 1) (lut 1) 16 32 3 3 2 2 1 1 1045257100 1059404302

abbrev pub layer2 : (ℕ → Generated) → (ℕ → ℕ) → TensorLayer
layer2 gen lut = def_layer (gen 2) (lut 2) 32 16 1 1 1 1 0 0 1059404302 1029314304

abbrev pub layer3 : (ℕ → Generated) → (ℕ → ℕ) → TensorLayer
layer3 gen lut = def_layer (gen 3) (lut 3) 16 16 1 1 1 1 0 0 1029314304 1035487117

abbrev pub layer4 : (ℕ → Generated) → (ℕ → ℕ) → TensorLayer
layer4 gen lut = def_layer (gen 4) (lut 4) 16 16 3 3 1 1 1 1 1035487117 1037679055

abbrev pub layer5 : (ℕ → Generated) → (ℕ → ℕ) → TensorLayer
layer5 gen lut = def_layer (gen 5) (lut 5) 32 16 1 1 1 1 0 0 1059404302 1048188596

abbrev pub layer6 : (ℕ → Generated) → (ℕ → ℕ) → TensorLayer
layer6 gen lut = def_layer (gen 6) (lut 6) 32 32 1 1 1 1 0 0 1048188596 1034236016

abbrev pub image : (src src_h src_w src_c : ℕ) → Image
image src src_h src_w src_c = record { src = src; src_h = src_h; src_w = src_w; src_c = src_c }

module _ (unit : TensorUnit) where
  -- The next call, if those before it have returned 0.
  abbrev pub then_run : (Run unit → Run unit) → Run unit → Run unit
  then_run call p = let next = call p in if p.ok then next else p

  abbrev pub on_mem : (Bytes → Bytes) → Run unit → Run unit
  on_mem change p = record p { mem = change p.mem }

  -- From the first layer to the last one.
  abbrev pub p0_layers : (ℕ → Generated) → (ℕ → ℕ) → Buffers → Run unit → Run unit
  p0_layers gen lut b p =
      let convk : TensorLayer → Image → (dst h w c : ℕ) → Run unit → Run unit =
        λ layer img dst h w c.
          run_convk_packed_layer unit layer img dst h w c b.patch_scratch patch_scratch_bytes in
      let conv1x1 : TensorLayer → (src src_c dst dst_c : ℕ) → Run unit → Run unit =
        λ layer src src_c dst dst_c.
          run_conv1x1_layer unit layer src nr_pix_160 src_c dst dst_c b.packed_scratch
            packed_scratch_bytes in
      let q0 = convk (layer0 gen lut) (image b.input 640 640 3) b.buf0 320 320 16 p in
      let q1 =
        then_run (convk (layer1 gen lut) (image b.buf0 320 320 16) b.out_buf 160 160 32) q0 in
      let q2 = then_run (conv1x1 (layer2 gen lut) b.out_buf 32 b.a_buf 16) q1 in
      let q3 = then_run (conv1x1 (layer3 gen lut) b.a_buf 16 b.mid_buf 16) q2 in
      let q4 =
        then_run (convk (layer4 gen lut) (image b.mid_buf 160 160 16) b.buf0 160 160 16) q3 in
      let q5 =
        then_run (on_mem (add_residual_block b.a_buf b.buf0 (nr_pix_160 * 16) b.residual_lut0))
          q4 in
      let q6 = then_run (conv1x1 (layer5 gen lut) b.out_buf 32 b.mid_buf 16) q5 in
      let q7 = then_run (on_mem (concat2 b.buf0 16 b.mid_buf 16 nr_pix_160 b.buf0)) q6 in
      then_run (conv1x1 (layer6 gen lut) b.buf0 32 b.out_buf 32) q7

  -- The op that `yolov5n_p0_run` returns and whether it reports `TEST_FAIL`, its run and the arenas;
  -- `none` stands for a trap.
  pub record Ended : Type 0 where
    pub op : Op
    pub test_fail : Bool
    pub run : Run unit
    pub lut_ready : Bool
    pub arenas : Arenas

  module _ (nr_harts hartid : ℕ) (gen : ℕ → Generated) (lut : ℕ → ℕ) (tables : ResidualTables)
      (ratio_byte : ℕ → ℕ → ℕ → ℕ) (residual_lut0 ch p0_done : ℕ) where
    -- The stage with its blocks at hand; `prepared` is the unit with the scratchpad turned on.
    abbrev pub p0_body : ℕ → ℕ → ℕ → List Block → unit.S → Bool → Bytes → Arenas → Ended
    p0_body input out_buf base blocks prepared lut_ready m arenas =
        let (ready, m1) =
          build_residual_lut tables ratio_byte (layer2 gen lut) (layer4 gen lut) residual_lut0
            (lut_ready, m) in
        let buffers : Buffers = record {
          input = input;
          out_buf = out_buf;
          buf0 = base + offset_of blocks 0;
          a_buf = base + offset_of blocks 1;
          mid_buf = base + offset_of blocks 2;
          packed_scratch = base + offset_of blocks 3;
          patch_scratch = base + offset_of blocks 4;
          residual_lut0 = residual_lut0;
        } in
        let run = p0_layers gen lut buffers (record { ok = true; state = prepared; mem = m1 }) in
        record {
          op = if run.ok then tpa_send ch out_buf (nr_pix_160 * 32) p0_done else tpa_stop;
          test_fail = false;
          run = run;
          lut_ready = ready;
          arenas = arenas;
        }

    abbrev pub with_blocks :
        ℕ → ℕ → unit.S → Bool → Bytes → Arenas → Option (List Block × ArenaState) → Option Ended
    with_blocks input out_buf prepared lut_ready m arenas none = none
    with_blocks input out_buf prepared lut_ready m arenas (some (blocks, st)) =
        some (p0_body input out_buf st.base blocks prepared lut_ready m (update arenas hartid st))

    abbrev pub with_arena : ℕ → ℕ → unit.S → Bool → Bytes → Option Arenas → Option Ended
    with_arena input out_buf prepared lut_ready m none = none
    with_arena input out_buf prepared lut_ready m (some arenas) =
        with_blocks input out_buf prepared lut_ready m arenas (allocs p0_requests (arenas hartid))

    -- `out_buf` is what `tpa_send_buf` returns, and a trap if that is null.
    abbrev pub p0_run : P0Ws → ℕ → unit.S → unit.S → Bool → Bytes → Arenas → Option Ended
    p0_run w out_buf state prepared lut_ready m arenas =
        let refused : Ended = record {
          op = tpa_stop;
          test_fail = true;
          run = record { ok = true; state = state; mem = m };
          lut_ready = lut_ready;
          arenas = arenas;
        } in
        let body =
          with_arena w.input out_buf prepared lut_ready m
            (arena_begin nr_harts hartid p0_peak arenas) in
        if out_buf == 0 then none else if not (w.in_len == input_bytes) then some refused else body

abbrev pub p0_start : (chan0 in_at in_len_at p0_run : ℕ) → Op
p0_start chan0 in_at in_len_at p0_run = tpa_recv chan0 in_at in_len_at p0_run
