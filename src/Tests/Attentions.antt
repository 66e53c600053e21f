-- ===== src/Tests/Attentions.antt =====
-- Tests of the attention pipeline.
use tpa.Base.{
  ℕ, suc, ◌+◌, ◌-◌, ◌*◌, ◌/◌, ◌%◌, ◌<◌, ◌≡◌, refl, ap, ◌∙◌, false, some, none, arith, ◌==◌, ltb,
  leb, if◌then◌else◌,
}
use tpa.Attention.{Float, HeadInput, ScorePacket, SoftmaxPacket, mul_sum, softmax_packet_bytes}
use tpa.Attention.Unit.{TensorUnit, Et, Multiplies, load_transpose32}
use tpa.Attention.Program.{Symbols}
use tpa.Attention.Program.Output.{OutputWs, output_check, all_heads, output_after_recv}
use tpa.Attention.Pipeline.Verdict.{ends_in_pass, all_close, output_check-verdict}
use tpa.Attention.Receive.{Counted, counted, next_or_check, output_after_recv-Counted}

-- Numbers with the greater and the smaller of two for sum and product.
abbrev most : ℕ → ℕ → ℕ
most x y = if ltb x y then y else x

abbrev least : ℕ → ℕ → ℕ
least x y = if ltb x y then x else y

abbrev numbers : Float
numbers = record {
  F = ℕ;
  of_bits = λ b. b % 100;
  of_int32 = λ x. x;
  add = most;
  sub = λ x y. x - y;
  mul = least;
  neg = λ x. x;
  lt = ltb;
  le = leb;
}

-- Two matrices, registers, and no errors.
record Matrices : Type 0 where
  a : ℕ → ℕ → ℕ
  b : ℕ → ℕ → ℕ
  registers : ℕ → ℕ → ℕ

abbrev column_of : ℕ → ℕ → ℕ
column_of r i = r % 2 * 8 + i

abbrev product_registers : (ℕ → ℕ → ℕ) → (ℕ → ℕ → ℕ) → ℕ → ℕ → ℕ
product_registers a b r i = mul_sum numbers 16 (a (r / 2)) (λ k. b k (column_of r i))

abbrev loaded : ℕ → (ℕ → ℕ → ℕ) → ℕ → ℕ → ℕ
loaded transformation m = if transformation == load_transpose32 then (λ r c. m c r) else m

abbrev simple_unit : TensorUnit numbers
simple_unit = record {
  S = Matrices;
  prepare = λ s. s;
  clear_error = λ s. s;
  load = λ dst_start transformation m num_lines stride id s.
      if id == 0
      then record s { a = loaded transformation m }
      else record s { b = loaded transformation m };
  wait = λ w s. s;
  fma = λ bcols rows cols b_start a_start type first s. record s {
    registers = product_registers s.a s.b;
  };
  error = λ s. 0;
  reg = λ s. s.registers;
}

row_back : (row col : ℕ) → col < 16 → (row * 2 + col / 8) / 2 ≡ row
row_back row col lt = omega arith

col_back : (row col : ℕ) → col < 16 → column_of (row * 2 + col / 8) (col % 8) ≡ col
col_back row col lt = omega arith

product_registers-at :
    (a b : ℕ → ℕ → ℕ) (row col : ℕ)
    → col < 16
    → product_registers a b (row * 2 + col / 8) (col % 8)
      ≡ mul_sum numbers 16 (a row) (λ k. b k col)
product_registers-at a b row col lt =
    ap (λ r. mul_sum numbers 16 (a r) (λ k. b k (column_of (row * 2 + col / 8) (col % 8))))
      (row_back row col lt)
    ∙ ap (λ c. mul_sum numbers 16 (a row) (λ k. b k c)) (col_back row col lt)

simple_unit-Multiplies : Multiplies numbers simple_unit (mul_sum numbers 16)
simple_unit-Multiplies = record {
  normal =
      λ lhs rhs s row col none_reported in_row in_col. product_registers-at lhs rhs row col in_col;
  transposed = λ lhs rhs s row col none_reported in_row in_col.
      product_registers-at lhs (λ r c. rhs c r) row col in_col;
}

abbrev symbols : Symbols
symbols = record {
  qkv_gen_after_send = 1;
  score_send = 2;
  score_done = 3;
  softmax_send = 4;
  softmax_done = 5;
  output_after_recv = 6;
  head_at = λ head. 1000 + head * 3136;
  out_at = 100;
  in_at = 200;
  in_len_at = 208;
  pkt_at = λ head. 300 + head * 8;
  len_at = λ head. 400 + head * 4;
}

abbrev ports : ℕ → ℕ
ports port = 40 + port

abbrev no_input : ℕ → HeadInput numbers
no_input head = record { head = 9; header_pad = λ i. 1; q = λ r c. 1; k = λ r c. 1; v = λ r c. 1 }

abbrev no_scores : ℕ → ScorePacket numbers
no_scores head = record { head = 9; header_pad = λ i. 1; score = λ r c. 1; v = λ r c. 1 }

abbrev weights : ℕ → SoftmaxPacket numbers
weights head = record { head = head; header_pad = λ i. 0; weight = λ r c. r + head; v = λ r c. c }

abbrev fresh_et : Et numbers simple_unit
fresh_et = record {
  state = record { a = λ r c. 0; b = λ r c. 0; registers = λ r c. 0 };
  ready = false;
}

abbrev empty_ws : OutputWs numbers
empty_ws = record {
  pkt = λ head. none;
  output = λ head row dim. 0;
  len = λ head. 0;
  next_port = 0;
  received_mask = 0;
}

abbrev full_ws : OutputWs numbers
full_ws = record {
  pkt = λ head. some (weights head);
  output = λ head row dim. 0;
  len = λ head. softmax_packet_bytes;
  next_port = 4;
  received_mask = all_heads;
}

-- Two heads have come in, and the packet of the third.
abbrev two_in : OutputWs numbers
two_in = record full_ws { next_port = 2; received_mask = 3 }

output_check-verdict_example :
    ends_in_pass ((output_check numbers simple_unit (some full_ws) fresh_et).0.2)
    ≡ all_close numbers (mul_sum numbers 16) weights
output_check-verdict_example =
    output_check-verdict numbers simple_unit (mul_sum numbers 16) simple_unit-Multiplies
      (λ lhs rhs transform s. refl) full_ws weights (λ head lt. refl) (λ head lt. refl)
      (λ head lt. refl) fresh_et refl

output_after_recv-Counted_example :
    (output_after_recv numbers simple_unit symbols ports (some two_in) fresh_et
      ≡ next_or_check numbers simple_unit symbols ports 2
          (counted numbers simple_unit symbols ports two_in)
          fresh_et)
    × Counted numbers simple_unit symbols ports
        (suc 2)
        (counted numbers simple_unit symbols ports two_in)
output_after_recv-Counted_example =
    output_after_recv-Counted numbers simple_unit symbols ports 2 two_in fresh_et (omega arith)
      (record { port = refl; mask = refl }) refl
