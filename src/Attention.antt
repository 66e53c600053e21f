-- ===== src/Attention.antt =====
-- attention/attention_common.h: the packets of the attention pipeline, the values that it runs on,
-- scores, softmax and output in plain C, and the reference that the output is checked against. The
-- arithmetic of `float` is a parameter. A matrix is a function of row and column, whose values at
-- indices below 16 count.
pub mod Unit
pub mod Program
pub mod Reference
pub mod Tensor
pub mod Pipeline
pub mod Receive
use tpa.Base.{ℕ, zero, suc, ◌+◌, ◌-◌, ◌*◌, ◌%◌, ◌^◌, Bool, if◌then◌else◌}

-- `float`: the number of given bits, the conversion from `int32_t`, and the operations.
pub record Float : Type 1 where
  pub F : Type 0
  pub of_bits : ℕ → F
  pub of_int32 : ℕ → F
  pub add : F → F → F
  pub sub : F → F → F
  pub mul : F → F → F
  pub neg : F → F
  pub lt : F → F → Bool
  pub le : F → F → Bool

abbrev pub seq_len : ℕ
seq_len = 16

abbrev pub head_dim : ℕ
head_dim = 16

abbrev pub heads : ℕ
heads = 4

abbrev pub head_input_bytes : ℕ
head_input_bytes = 3136

abbrev pub score_packet_bytes : ℕ
score_packet_bytes = 2112

abbrev pub softmax_packet_bytes : ℕ
softmax_packet_bytes = 2112

module _ (fl : Float) where
  open fl use {F, of_bits, of_int32, add, sub, mul, neg, lt, le}

  abbrev pub Matrix : Type 0
  Matrix = ℕ → ℕ → F

  pub record HeadInput : Type 0 where
    pub head : ℕ
    pub header_pad : ℕ → ℕ
    pub q : ℕ → ℕ → F
    pub k : ℕ → ℕ → F
    pub v : ℕ → ℕ → F

  pub record ScorePacket : Type 0 where
    pub head : ℕ
    pub header_pad : ℕ → ℕ
    pub score : ℕ → ℕ → F
    pub v : ℕ → ℕ → F

  pub record SoftmaxPacket : Type 0 where
    pub head : ℕ
    pub header_pad : ℕ → ℕ
    pub weight : ℕ → ℕ → F
    pub v : ℕ → ℕ → F

  -- 0.25f, 0.001f and 0.03125f
  abbrev pub score_scale : F
  score_scale = of_bits 1048576000

  abbrev pub tolerance : F
  tolerance = of_bits 981668463

  abbrev pub absf : F → F
  absf x = if lt x (of_bits 0) then neg x else x

  abbrev pub centered_value : ℕ → F
  centered_value x =
      let centered = (x % 17 + (2 ^ 32 - 8)) % 2 ^ 32 in
      mul (of_int32 centered) (of_bits 1023410176)

  abbrev pub q_value : (head row dim : ℕ) → F
  q_value head row dim =
      centered_value (((head + 1) * 37 + (row + 1) * 11 + (dim + 1) * 3) % 2 ^ 32)

  abbrev pub k_value : (head row dim : ℕ) → F
  k_value head row dim =
      centered_value (((head + 1) * 41 + (row + 1) * 5 + (dim + 1) * 13) % 2 ^ 32)

  abbrev pub v_value : (head row dim : ℕ) → F
  v_value head row dim =
      mul (centered_value (((head + 1) * 31 + (row + 1) * 13 + (dim + 1) * 7) % 2 ^ 32))
        (of_bits 1056964608)

  abbrev pub clear_header_padding : ℕ → ℕ
  clear_header_padding i = 0

  abbrev pub fill_head_input : HeadInput → ℕ → HeadInput
  fill_head_input pkt head = record {
    head = head;
    header_pad = clear_header_padding;
    q = q_value head;
    k = k_value head;
    v = v_value head;
  }

  -- `acc += x * y` over the first `n` indices, from 0.0f.
  abbrev pub mul_sum : ℕ → (ℕ → F) → (ℕ → F) → F
  mul_sum zero x y = of_bits 0
  mul_sum (suc n) x y = add (mul_sum n x y) (mul (x n) (y n))

  abbrev pub dot_qk : (ℕ → F) → (ℕ → F) → F
  dot_qk q k = mul (mul_sum head_dim q k) score_scale

  abbrev pub compute_scores : HeadInput → ScorePacket → ScorePacket
  compute_scores input out = record {
    head = input.head;
    header_pad = clear_header_padding;
    v = input.v;
    score = λ row col. dot_qk (input.q row) (input.k col);
  }

  -- One more term of the series: `term *= x * c; sum += term;`.
  abbrev pub next_term : F → F × F → ℕ → F × F
  next_term x (term, sum) c = let next = mul term (mul x (of_bits c)) in (next, add sum next)

  -- 1 + x + x^2 / 2 + … + x^8 / 8!
  abbrev pub series : F → F × F
  series x =
      let start : F × F = (x, add (of_bits 1065353216) x) in
      let two = next_term x start 1056964608 in
      let three = next_term x two 1051372203 in
      let four = next_term x three 1048576000 in
      let five = next_term x four 1045220557 in
      let six = next_term x five 1042983595 in
      let seven = next_term x six 1041385765 in next_term x seven 1040187392

  abbrev pub exp_approx : F → F
  exp_approx x =
      let sum = (series x).1 in
      if lt x (of_bits 3238002688)
      then of_bits 967827719
      else if lt sum (of_bits 953267991)
      then of_bits 953267991
      else sum

  abbrev pub newton : F → F → F
  newton sum x = mul x (sub (of_bits 1073741824) (mul sum x))

  abbrev pub reciprocal_sum : F → F
  reciprocal_sum sum = newton sum (newton sum (newton sum (newton sum (of_bits 1031798784))))

  -- The greatest of the scores up to index `n`.
  abbrev pub max_score : ℕ → (ℕ → F) → F
  max_score zero score = score 0
  max_score (suc n) score =
      let before = max_score n score in if lt before (score (suc n)) then score (suc n) else before

  abbrev pub exp_weight : (ℕ → F) → ℕ → F
  exp_weight score col = exp_approx (sub (score col) (max_score (seq_len - 1) score))

  abbrev pub sum_below : ℕ → (ℕ → F) → F
  sum_below zero x = of_bits 0
  sum_below (suc n) x = add (sum_below n x) (x n)

  abbrev pub softmax_row : (ℕ → F) → ℕ → F
  softmax_row score col =
      mul (exp_weight score col) (reciprocal_sum (sum_below seq_len (exp_weight score)))

  abbrev pub compute_softmax : ScorePacket → SoftmaxPacket → SoftmaxPacket
  compute_softmax input out = record {
    head = input.head;
    header_pad = clear_header_padding;
    weight = λ row. softmax_row (input.score row);
    v = input.v;
  }

  abbrev pub packet_output_value : SoftmaxPacket → ℕ → ℕ → F
  packet_output_value pkt row dim = mul_sum seq_len (pkt.weight row) (λ col. pkt.v col dim)

  abbrev pub reference_score : (head row col : ℕ) → F
  reference_score head row col =
      mul (mul_sum head_dim (q_value head row) (k_value head col)) score_scale

  abbrev pub reference_output_value : (head row dim : ℕ) → F
  reference_output_value head row dim =
      mul_sum seq_len (softmax_row (reference_score head row)) (λ col. v_value head col dim)
