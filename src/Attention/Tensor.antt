-- ===== src/Attention/Tensor.antt =====
-- The kernels of attention_et.h against the functions in plain C.
use tpa.Base.{ℕ, zero, suc, ◌<◌, ◌≤◌, ◌≡◌, true, if◌then◌else◌, some, refl, ap, ◌∙◌, arith}
use tpa.Attention.{
  Float, Matrix, HeadInput, seq_len, score_scale, mul_sum, sum_below, max_score, exp_weight,
  exp_approx, softmax_row, reciprocal_sum,
}
use tpa.Attention.Unit.{
  TensorUnit, Et, Multiplies, multiply, matmul_16x16, store_rf_16x16, enable_tensor_scratchpad,
  scored, softmax_row_ps, load_normal, load_transpose32,
}

module _ (fl : Float) where
  pub mul_sum-same :
      (n : ℕ) (x y x' y' : ℕ → fl.F)
      → ((i : ℕ) → i < n → x i ≡ x' i)
      → ((i : ℕ) → i < n → y i ≡ y' i)
      → mul_sum fl n x y ≡ mul_sum fl n x' y'
  mul_sum-same zero x y x' y' same_x same_y = refl
  mul_sum-same (suc n) x y x' y' same_x same_y =
      ap (λ a. fl.add a (fl.mul (x n) (y n)))
        (mul_sum-same n x y x' y' (λ i lt. same_x i (omega arith)) (λ i lt. same_y i (omega arith)))
      ∙ ap (λ z. fl.add (mul_sum fl n x' y') (fl.mul z (y n))) (same_x n (omega arith))
      ∙ ap (λ z. fl.add (mul_sum fl n x' y') (fl.mul (x' n) z)) (same_y n (omega arith))

  sum_below-same :
      (n : ℕ) (x x' : ℕ → fl.F)
      → ((i : ℕ) → i < n → x i ≡ x' i)
      → sum_below fl n x ≡ sum_below fl n x'
  sum_below-same zero x x' same = refl
  sum_below-same (suc n) x x' same =
      ap (λ a. fl.add a (x n)) (sum_below-same n x x' (λ i lt. same i (omega arith)))
      ∙ ap (fl.add (sum_below fl n x')) (same n (omega arith))

  max_score-same :
      (n : ℕ) (x x' : ℕ → fl.F)
      → ((i : ℕ) → i ≤ n → x i ≡ x' i)
      → max_score fl n x ≡ max_score fl n x'
  max_score-same zero x x' same = same 0 (omega arith)
  max_score-same (suc n) x x' same =
      rw (same (suc n) (omega arith), max_score-same n x x' (λ i lt. same i (omega arith))) refl

  exp_weight-same :
      (x x' : ℕ → fl.F)
      → ((i : ℕ) → i < 16 → x i ≡ x' i)
      → (col : ℕ) → col < 16
      → exp_weight fl x col ≡ exp_weight fl x' col
  exp_weight-same x x' same col lt =
      let most = max_score-same 15 x x' (λ i le. same i (omega arith)) in
      ap (λ m. exp_approx fl (fl.sub (x col) m)) most
      ∙ ap (λ s. exp_approx fl (fl.sub s (max_score fl 15 x'))) (same col lt)

  pub weight_sum-same :
      (x x' : ℕ → fl.F)
      → ((i : ℕ) → i < 16 → x i ≡ x' i)
      → sum_below fl seq_len (exp_weight fl x) ≡ sum_below fl seq_len (exp_weight fl x')
  weight_sum-same x x' same =
      sum_below-same 16 (exp_weight fl x) (exp_weight fl x') (exp_weight-same x x' same)

  -- A row of weights depends on the 16 scores only.
  pub softmax_row_ps-same :
      (x x' : ℕ → fl.F)
      → ((i : ℕ) → i < 16 → x i ≡ x' i)
      → (col : ℕ) → col < 16
      → softmax_row_ps fl x col ≡ softmax_row_ps fl x' col
  softmax_row_ps-same x x' same col lt =
      ap
        (λ sum.
          if fl.lt (fl.of_bits 0) sum
          then fl.mul (exp_weight fl x col) (reciprocal_sum fl sum)
          else exp_weight fl x col)
        (weight_sum-same x x' same)
      ∙ ap
          (λ weight.
            if fl.lt (fl.of_bits 0) (sum_below fl seq_len (exp_weight fl x'))
            then fl.mul weight (reciprocal_sum fl (sum_below fl seq_len (exp_weight fl x')))
            else weight)
          (exp_weight-same x x' same col lt)

  -- `softmax_row_ps` scales its weights unless their sum is not positive, as `softmax_row` always does.
  pub softmax_row_ps-softmax_row :
      (x x' : ℕ → fl.F)
      → ((i : ℕ) → i < 16 → x i ≡ x' i)
      → fl.lt (fl.of_bits 0) (sum_below fl seq_len (exp_weight fl x')) ≡ true
      → (col : ℕ) → col < 16
      → softmax_row_ps fl x col ≡ softmax_row fl x' col
  softmax_row_ps-softmax_row x x' same positive col lt =
      let sums = weight_sum-same x x' same in
      let weights = exp_weight-same x x' same col lt in
      ap
        (λ sum.
          if fl.lt (fl.of_bits 0) sum
          then fl.mul (exp_weight fl x col) (reciprocal_sum fl sum)
          else exp_weight fl x col)
        sums
      ∙ ap
          (λ b.
            if b
            then fl.mul (exp_weight fl x col)
                (reciprocal_sum fl (sum_below fl seq_len (exp_weight fl x')))
            else exp_weight fl x col)
          positive
      ∙ ap (λ z. fl.mul z (reciprocal_sum fl (sum_below fl seq_len (exp_weight fl x')))) weights

  module _ (unit : TensorUnit fl) (dot : (ℕ → fl.F) → (ℕ → fl.F) → fl.F)
      (law : Multiplies fl unit dot) where
    -- The state in which the unit ends a product.
    abbrev pub ended : Matrix fl → Matrix fl → ℕ → Et fl unit → unit.S
    ended lhs rhs transform et =
        multiply fl unit lhs rhs transform (enable_tensor_scratchpad fl unit et).state

    pub after : Matrix fl → Matrix fl → ℕ → Et fl unit → Et fl unit
    after lhs rhs transform et = record (enable_tensor_scratchpad fl unit et) {
      state = ended lhs rhs transform et;
    }

    pub matmul-ended :
        (lhs rhs : Matrix fl) (transform : ℕ) (et : Et fl unit)
        → unit.error (ended lhs rhs transform et) ≡ 0
        → matmul_16x16 fl unit lhs rhs transform et
          ≡ (some (store_rf_16x16 fl unit (ended lhs rhs transform et)), after lhs rhs transform et)
    unfolding after
    matmul-ended lhs rhs transform et none_reported = rw none_reported refl

    pub product-normal :
        (lhs rhs : Matrix fl) (et : Et fl unit) (row col : ℕ)
        → unit.error (ended lhs rhs load_normal et) ≡ 0
        → row < 16
        → col < 16
        → store_rf_16x16 fl unit (ended lhs rhs load_normal et) row col
          ≡ dot (lhs row) (λ k. rhs k col)
    product-normal lhs rhs et row col none_reported in_row in_col =
        law.normal lhs rhs (enable_tensor_scratchpad fl unit et).state row col none_reported in_row
          in_col

    -- The scores of the tensor unit, if it reports no error: a row of q by a row of k as the unit
    -- multiplies them, scaled.
    pub score-transposed :
        (input : HeadInput fl) (et : Et fl unit) (row col : ℕ)
        → unit.error (ended input.q input.k load_transpose32 et) ≡ 0
        → row < 16
        → col < 16
        → (scored fl unit input
              (store_rf_16x16 fl unit (ended input.q input.k load_transpose32 et))).score
            row col
          ≡ fl.mul (dot (input.q row) (input.k col)) (score_scale fl)
    score-transposed input et row col none_reported in_row in_col =
        ap (λ z. fl.mul z (score_scale fl))
          (law.transposed input.q input.k (enable_tensor_scratchpad fl unit et).state row col
            none_reported in_row in_col)
