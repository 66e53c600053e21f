-- ===== src/Attention/Unit.antt =====
-- attention/attention_et.h: the kernels for the tensor unit and for vectors of eight floats. What the
-- instructions of the unit do to its state is a parameter; a vector instruction does its operation
-- to each of eight floats. The process runs on a hart that exists.
use tpa.Base.{
  ℕ, ◌+◌, ◌*◌, ◌/◌, ◌%◌, ◌<◌, ◌≡◌, Bool, true, false, ◌==◌, if◌then◌else◌, Option, none, some,
}
use tpa.Attention.{
  Float, Matrix, HeadInput, ScorePacket, SoftmaxPacket, seq_len, head_dim, score_scale,
  clear_header_padding, exp_weight, reciprocal_sum, sum_below,
}

pub data Wait : Type 0 where
  load_wait_0 : Wait
  load_wait_1 : Wait
  fma_wait : Wait

-- `prepare` is the sequence that turns the scratchpad on, and `reg s r i` is float i of vector
-- register r. The arguments of `load` are the first line, the transformation, the matrix, the number of
-- lines less 1, the bytes of a row, and the id; those of `fma` are the columns of B, the rows and the
-- columns of A (less 1), the first lines of B and A, the type, and whether it clears the registers.
pub record TensorUnit (fl : Float) : Type 1 where
  pub S : Type 0
  pub prepare : S → S
  pub clear_error : S → S
  pub load : (dst_start transformation : ℕ) → (ℕ → ℕ → fl.F) → (num_lines stride id : ℕ) → S → S
  pub wait : Wait → S → S
  pub fma : (bcols rows cols b_start a_start type first : ℕ) → S → S
  pub error : S → ℕ
  pub reg : S → ℕ → ℕ → fl.F

abbrev pub load_normal : ℕ
load_normal = 0

abbrev pub load_transpose32 : ℕ
load_transpose32 = 7

abbrev pub matrix_row_bytes : ℕ
matrix_row_bytes = 64

module _ (fl : Float) where
  abbrev pub softmax_row_ps : (ℕ → fl.F) → ℕ → fl.F
  softmax_row_ps score col =
      let sum = sum_below fl seq_len (exp_weight fl score) in
      let weight = exp_weight fl score col in
      if fl.lt (fl.of_bits 0) sum then fl.mul weight (reciprocal_sum fl sum) else weight

  abbrev pub compute_softmax_ps : ScorePacket fl → SoftmaxPacket fl
  compute_softmax_ps input = record {
    head = input.head;
    header_pad = clear_header_padding fl;
    weight = λ row. softmax_row_ps (input.score row);
    v = input.v;
  }

module _ (fl : Float) (unit : TensorUnit fl) where
  -- The unit, and `tensor_ready` of the hart.
  pub record Et : Type 0 where
    pub state : unit.S
    pub ready : Bool

  abbrev pub enable_tensor_scratchpad : Et → Et
  enable_tensor_scratchpad et =
      if et.ready
      then et
      else record { state = unit.clear_error (unit.prepare et.state); ready = true }

  -- The instructions of `attention_et_matmul_16x16`, up to the test of the error.
  abbrev pub multiply : Matrix fl → Matrix fl → ℕ → unit.S → unit.S
  multiply lhs rhs rhs_load_transform s =
      let s1 = unit.clear_error s in
      let s2 = unit.load 0 load_normal lhs 15 matrix_row_bytes 0 s1 in
      let s3 = unit.load 16 rhs_load_transform rhs 15 matrix_row_bytes 1 s2 in
      let s4 = unit.wait Wait.load_wait_1 (unit.wait Wait.load_wait_0 s3) in
      unit.wait Wait.fma_wait (unit.fma 3 15 15 16 0 0 1 s4)

  -- Two registers to a row.
  abbrev pub store_rf_16x16 : unit.S → Matrix fl
  store_rf_16x16 s row col = unit.reg s (row * 2 + col / 8) (col % 8)

  abbrev pub matmul_16x16 : Matrix fl → Matrix fl → ℕ → Et → Option (Matrix fl) × Et
  matmul_16x16 lhs rhs rhs_load_transform et =
      let et1 = enable_tensor_scratchpad et in
      let et2 = record et1 { state = multiply lhs rhs rhs_load_transform et1.state } in
      (if unit.error et2.state == 0 then some (store_rf_16x16 et2.state) else none, et2)

  abbrev pub scale_matrix_ps : fl.F → Matrix fl → Matrix fl
  scale_matrix_ps scalar matrix row col = fl.mul (matrix row col) scalar

  abbrev pub scored : HeadInput fl → Matrix fl → ScorePacket fl
  scored input product = record {
    head = input.head;
    header_pad = clear_header_padding fl;
    v = input.v;
    score = scale_matrix_ps (score_scale fl) product;
  }

  -- Whether there is no error, and the packet: without a product only its head, padding and v are written.
  abbrev pub scores_of : HeadInput fl → ScorePacket fl → Option (Matrix fl) → Bool × ScorePacket fl
  scores_of input out none =
      (false, record out { head = input.head; header_pad = clear_header_padding fl; v = input.v })
  scores_of input out (some product) = (true, scored input product)

  abbrev pub compute_scores_tensor :
      HeadInput fl → ScorePacket fl → Et → (Bool × ScorePacket fl) × Et
  compute_scores_tensor input out et =
      let (product, et1) = matmul_16x16 input.q input.k load_transpose32 et in
      (scores_of input out product, et1)

-- The documented product of the unit: without an error, its registers hold the 16 by 16 product of
-- the matrices that were loaded, the second one transposed if it was loaded so; `dot` is how the unit
-- multiplies a row of 16 by a column.
pub record Multiplies (fl : Float) (unit : TensorUnit fl) (dot : (ℕ → fl.F) → (ℕ → fl.F) → fl.F)
    : Type 0 where
  pub normal :
      (lhs rhs : ℕ → ℕ → fl.F) (s : unit.S) (row col : ℕ)
      → unit.error (multiply fl unit lhs rhs load_normal s) ≡ 0
      → row < seq_len
      → col < head_dim
      → unit.reg (multiply fl unit lhs rhs load_normal s) (row * 2 + col / 8) (col % 8)
        ≡ dot (lhs row) (λ k. rhs k col)
  pub transposed :
      (lhs rhs : ℕ → ℕ → fl.F) (s : unit.S) (row col : ℕ)
      → unit.error (multiply fl unit lhs rhs load_transpose32 s) ≡ 0
      → row < seq_len
      → col < head_dim
      → unit.reg (multiply fl unit lhs rhs load_transpose32 s) (row * 2 + col / 8) (col % 8)
        ≡ dot (lhs row) (rhs col)
