-- ===== src/Attention/Program.antt =====
-- attention/attention_qkv_gen.c, attention_score.c, attention_softmax.c and attention_output.c, as
-- programs of processes. A continuation takes the workspace that `tpa_ws` returns (`none` for the null
-- pointer), and the state of its hart's tensor unit where it uses that, to what it leaves, the
-- operation that it returns, and what it reports. The packets that a pointer leads to stand in the
-- workspace. The arguments of the section are the channel that `tpa_chan` finds at a port, and the
-- numbers that the linker gives to the continuations and to the objects whose addresses are taken.
pub mod Output
use tpa.Base.{
  ℕ, zero, suc, ◌+◌, ◌%◌, ◌^◌, ◌||◌, not, Bool, Option, none, some, bit_or, ◌==◌, leb, ltb,
  if◌then◌else◌, List, [], ◌∷◌,
}
use tpa.State.{null}
use tpa.Step.{Op}
use tpa.Depth.Program.{tpa_stop, tpa_send, tpa_recv}
use tpa.Attention.{
  Float, HeadInput, ScorePacket, SoftmaxPacket, heads, head_input_bytes, score_packet_bytes,
  softmax_packet_bytes, fill_head_input,
}
use tpa.Attention.Unit.{TensorUnit, Et, compute_scores_tensor, compute_softmax_ps}

pub data Report : Type 0 where
  trace : ℕ → Report
  test_fail : Report
  test_pass : Report

-- `attention_fail`
abbrev pub fail : List Report
fail = Report.trace 2810118382 ∷ Report.test_fail ∷ []

abbrev pub trace_head : ℕ → ℕ → Report
trace_head base head = Report.trace (bit_or base (head % 256))

pub record Symbols : Type 0 where
  pub qkv_gen_after_send : ℕ
  pub score_send : ℕ
  pub score_done : ℕ
  pub softmax_send : ℕ
  pub softmax_done : ℕ
  pub output_after_recv : ℕ
  pub head_at : ℕ → ℕ
  pub out_at : ℕ
  pub in_at : ℕ
  pub in_len_at : ℕ
  pub pkt_at : ℕ → ℕ
  pub len_at : ℕ → ℕ

module _ (fl : Float) where
  pub record QkvGenWs : Type 0 where
    pub packet : ℕ → HeadInput fl
    pub next_head : ℕ

  pub record ScoreWs : Type 0 where
    pub out : ScorePacket fl
    pub input : Option (HeadInput fl)
    pub in_len : ℕ

  pub record SoftmaxWs : Type 0 where
    pub out : SoftmaxPacket fl
    pub input : Option (ScorePacket fl)
    pub in_len : ℕ

  -- What a continuation leaves, returns and reports.
  abbrev pub Result : Type 0 → Type 0
  Result W = Option W × Op × List Report

  abbrev pub stop_failed : {W : Type 0} → Option W → Result W
  stop_failed w = (w, tpa_stop, fail)

  abbrev pub reporting : {W : Type 0} → Report → Result W → Result W
  reporting r (w, op, reports) = (w, op, r ∷ reports)

  module _ (at : Symbols) (chan : ℕ → ℕ) where
    -- `attention_qkv_packet` finds one of the four packets exactly for a head that there is.
    abbrev pub qkv_gen_send : Option QkvGenWs → Result QkvGenWs
    qkv_gen_send none = stop_failed none
    qkv_gen_send (some w) =
        let ch = chan (w.next_head % 2 ^ 16) in
        if leb heads w.next_head || ch == null then stop_failed (some w) else (
          some w,
          tpa_send ch (at.head_at w.next_head) head_input_bytes at.qkv_gen_after_send,
          [],
        )

    abbrev pub fill_heads : (ℕ → HeadInput fl) → ℕ → HeadInput fl
    fill_heads packet head = fill_head_input fl (packet head) head

    abbrev pub qkv_gen_start : Option QkvGenWs → Result QkvGenWs
    qkv_gen_start none = reporting (Report.trace 2809135104) (stop_failed none)
    qkv_gen_start (some w) =
        reporting (Report.trace 2809135104)
          (qkv_gen_send (some (record { packet = fill_heads w.packet; next_head = 0 })))

    abbrev pub qkv_gen_after_send : Option QkvGenWs → Result QkvGenWs
    qkv_gen_after_send none = stop_failed none
    qkv_gen_after_send (some w) =
        let w1 = record w { next_head = (w.next_head + 1) % 2 ^ 32 } in
        let again = qkv_gen_send (some w1) in
        if ltb w1.next_head heads then again else (some w1, tpa_stop, [])

    abbrev pub score_recv : Option ScoreWs → Result ScoreWs
    score_recv none = stop_failed none
    score_recv (some w) =
        if chan 0 == null
        then stop_failed (some w)
        else (some w, tpa_recv (chan 0) at.in_at at.in_len_at at.score_send, [])

    abbrev pub softmax_recv : Option SoftmaxWs → Result SoftmaxWs
    softmax_recv none = stop_failed none
    softmax_recv (some w) =
        if chan 0 == null
        then stop_failed (some w)
        else (some w, tpa_recv (chan 0) at.in_at at.in_len_at at.softmax_send, [])

    -- The end of `attention_softmax_send`, with a packet.
    abbrev pub softmax_packet : SoftmaxWs → ScorePacket fl → Result SoftmaxWs
    softmax_packet w input =
        if chan 1 == null || not (w.in_len == score_packet_bytes) || leb heads input.head
        then stop_failed (some w)
        else (
          some (record w { out = compute_softmax_ps fl input }),
          tpa_send (chan 1) at.out_at softmax_packet_bytes at.softmax_done,
          trace_head 2809331712 input.head ∷ trace_head 2809397248 input.head ∷ [],
        )

    abbrev pub softmax_send : Option SoftmaxWs → Result SoftmaxWs
    softmax_send none = stop_failed none
    softmax_send (some w) = elim (w.input) [
      | none ↦ stop_failed (some w)
      | some input ↦ softmax_packet w input
    ]

    module _ (unit : TensorUnit fl) where
      -- What `attention_score_send` does with the scores, if there is no error, and else.
      abbrev pub scored_packet : ScoreWs → ℕ → Bool × ScorePacket fl → Result ScoreWs
      scored_packet w head (ok, out) =
          if ok
          then (
            some (record w { out = out }),
            tpa_send (chan 1) at.out_at score_packet_bytes at.score_done,
            trace_head 2809200640 head ∷ trace_head 2809266176 head ∷ [],
          )
          else reporting (trace_head 2809200640 head) (stop_failed (some (record w { out = out })))

      -- The end of `attention_score_send`, with a packet.
      abbrev pub score_packet : ScoreWs → HeadInput fl → Et fl unit → Result ScoreWs × Et fl unit
      score_packet w input et =
          let (scores, et1) = compute_scores_tensor fl unit input w.out et in
          if chan 1 == null || not (w.in_len == head_input_bytes) || leb heads input.head
          then (stop_failed (some w), et)
          else (scored_packet w input.head scores, et1)

      abbrev pub score_send : Option ScoreWs → Et fl unit → Result ScoreWs × Et fl unit
      score_send none et = (stop_failed none, et)
      score_send (some w) et = elim (w.input) [
        | none ↦ (stop_failed (some w), et)
        | some input ↦ score_packet w input et
      ]
