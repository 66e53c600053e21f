-- ===== src/Attention/Pipeline/Whole.antt =====
-- The attention pipeline from end to end: what the generator fills goes through the programs of the
-- scores and of the softmax into the output process.
use tpa.Base.{ℕ, ◌<◌, ◌≡◌, ◌≢◌, ◌==◌, if◌then◌else◌, Option, none, some}
use tpa.State.{null}
use tpa.Step.{op_send}
use tpa.Attention.{
  Float, Matrix, HeadInput, ScorePacket, SoftmaxPacket, q_value, k_value, v_value, score_scale,
  fill_head_input, head_input_bytes, score_packet_bytes, softmax_packet_bytes,
}
use tpa.Attention.Unit.{
  TensorUnit, Et, Multiplies, multiply, scored, store_rf_16x16, compute_softmax_ps, softmax_row_ps,
  load_transpose32,
}
use tpa.Attention.Tensor.{ended}
use tpa.Attention.Program.{Symbols, ScoreWs, SoftmaxWs, Result, score_send, softmax_send}
use tpa.Attention.Program.Output.{OutputWs, all_heads}

-- The pipeline's value: what `dot`, the product of the unit, makes of the generator's numbers. A row of q
-- by a row of k is a score when it is scaled, the scores of a row become weights, and the
-- weights by a column of v are an entry of the output.
abbrev pub unit_score : (fl : Float) → ((ℕ → fl.F) → (ℕ → fl.F) → fl.F) → (head row col : ℕ) → fl.F
unit_score fl dot head row col =
    fl.mul (dot (q_value fl head row) (k_value fl head col)) (score_scale fl)

abbrev pub unit_output : (fl : Float) → ((ℕ → fl.F) → (ℕ → fl.F) → fl.F) → (head : ℕ) → Matrix fl
unit_output fl dot head row dim =
    dot (softmax_row_ps fl (unit_score fl dot head row)) (λ col. v_value fl head col dim)

module _ (fl : Float) where
  -- The workspace of a process that sends.
  abbrev pub sent : {W : Type 0} → Result fl W → Option W
  sent (w, op, reports) = if op.op == op_send then w else none

  abbrev pub scores_in : Option (ScoreWs fl) → Option (ScorePacket fl)
  scores_in none = none
  scores_in (some w) = some w.out

  abbrev pub weights_in : Option (SoftmaxWs fl) → Option (SoftmaxPacket fl)
  weights_in none = none
  weights_in (some w) = some w.out

  module _ (at : Symbols) (chan : ℕ → ℕ) (unit : TensorUnit fl) where
    -- The scores that the process of a head sends, when it has received the packet of the generator.
    abbrev pub scores_sent :
        (ℕ → HeadInput fl) → (ℕ → ScorePacket fl) → (ℕ → Et fl unit) → ℕ → Option (ScorePacket fl)
    scores_sent inputs outs ets head = scores_in (
        sent
          (score_send fl at chan unit
            (some (record {
              out = outs head;
              input = some (fill_head_input fl (inputs head) head);
              in_len = head_input_bytes;
            }))
            (ets head)).0)

    -- The weights that the next process sends on.
    abbrev pub weights_sent :
        (ℕ → SoftmaxPacket fl) → ℕ → Option (ScorePacket fl) → Option (SoftmaxPacket fl)
    weights_sent outs head input = weights_in (
        sent (
          softmax_send fl at chan
            (some (record { out = outs head; input = input; in_len = score_packet_bytes }))))

    -- The output process, with what has come in from every head.
    abbrev pub collected :
        OutputWs fl
        → (ℕ → HeadInput fl)
        → (ℕ → ScorePacket fl)
        → (ℕ → SoftmaxPacket fl)
        → (ℕ → Et fl unit)
        → OutputWs fl
    collected w inputs scores weights ets = record w {
      pkt = λ head. weights_sent weights head (scores_sent inputs scores ets head);
      len = λ head. softmax_packet_bytes;
      received_mask = all_heads;
    }

    module _ (dot : (ℕ → fl.F) → (ℕ → fl.F) → fl.F) (law : Multiplies fl unit dot)
        (reads : (x x' y : ℕ → fl.F) → ((i : ℕ) → i < 16 → x i ≡ x' i) → dot x y ≡ dot x' y)
        (no_error : (lhs rhs : ℕ → ℕ → fl.F) (transform : ℕ) (s : unit.S)
          → unit.error (multiply fl unit lhs rhs transform s) ≡ 0)
        (port : chan 1 ≢ null) (w : OutputWs fl) (inputs : ℕ → HeadInput fl)
        (scores : ℕ → ScorePacket fl) (weights : ℕ → SoftmaxPacket fl) (ets : ℕ → Et fl unit) where
      abbrev input_of : ℕ → HeadInput fl
      input_of head = fill_head_input fl (inputs head) head

      abbrev score_of : ℕ → ScorePacket fl
      score_of head = scored fl unit (input_of head) (
          store_rf_16x16 fl unit
            (ended fl unit dot law (input_of head).q (input_of head).k load_transpose32 (ets head)))

      abbrev weight_of : ℕ → SoftmaxPacket fl
      weight_of head = compute_softmax_ps fl (score_of head)
