-- ===== src/Attention/Program/Output.antt =====
-- attention/attention_output.c: the process that receives the packets of all heads, multiplies them
-- out, and compares the output with the reference.
use tpa.Base.{
  ℕ, zero, suc, ◌+◌, ◌%◌, ◌^◌, ◌||◌, ◌&&◌, not, Bool, true, false, Option, none, some, bit_or, ◌==◌,
  leb, ltb, if◌then◌else◌, List, [], ◌∷◌, ◌++◌, update,
}
use tpa.State.{null}
use tpa.Depth.Program.{tpa_stop, tpa_recv}
use tpa.Attention.{
  Float, Matrix, SoftmaxPacket, heads, seq_len, head_dim, softmax_packet_bytes, tolerance, absf,
  reference_output_value,
}
use tpa.Attention.Unit.{TensorUnit, Et, matmul_16x16, load_normal}
use tpa.Attention.Program.{Report, fail, trace_head, Symbols, Result, stop_failed, reporting}

-- `(1u << ATTENTION_HEADS) - 1u`
abbrev pub all_heads : ℕ
all_heads = 15

-- A test of all indices below `n`.
abbrev pub all_below : ℕ → (ℕ → Bool) → Bool
all_below zero test = true
all_below (suc n) test = all_below n test && test n

module _ (fl : Float) where
  pub record OutputWs : Type 0 where
    pub pkt : ℕ → Option (SoftmaxPacket fl)
    pub output : ℕ → ℕ → ℕ → fl.F
    pub len : ℕ → ℕ
    pub next_port : ℕ
    pub received_mask : ℕ

  -- The packet that `pkt` leads to has the number of the port, and there is such a head.
  abbrev pub right_head : SoftmaxPacket fl → ℕ → Bool
  right_head pkt port = pkt.head == port && ltb pkt.head heads

  abbrev pub close : Matrix fl → ℕ → ℕ → ℕ → Bool
  close output head row dim =
      fl.le (absf fl (fl.sub (output row dim) (reference_output_value fl head row dim)))
        (tolerance fl)

  abbrev pub validate_output : Option (SoftmaxPacket fl) → Matrix fl → ℕ → Bool
  validate_output none output port = false
  validate_output (some pkt) output port =
      right_head pkt port
      && all_below seq_len (λ row. all_below head_dim (close output pkt.head row))

  module _ (unit : TensorUnit fl) where
    abbrev pub compute_output_packet :
        Option (SoftmaxPacket fl) → ℕ → Et fl unit → Option (Matrix fl) × Et fl unit
    compute_output_packet none port et = (none, et)
    compute_output_packet (some pkt) port et =
        let product = matmul_16x16 fl unit pkt.weight pkt.v load_normal et in
        if right_head pkt port then product else (none, et)

    -- How far the loops of `attention_output_check` have come, and whether they go on.
    pub record Progress : Type 0 where
      pub going : Bool
      pub ws : OutputWs
      pub et : Et fl unit
      pub reports : List Report

    -- The rest of a round of the first loop, with the product, or without one.
    abbrev pub multiplied : ℕ → Progress → Option (Matrix fl) × Et fl unit → Progress
    multiplied head p (none, et) = record p { going = false; et = et }
    multiplied head p (some output, et) = record p {
      ws = record (p.ws) { output = update p.ws.output head output };
      et = et;
      reports = p.reports ++ trace_head 2809593856 head ∷ [];
    }

    abbrev pub multiply_head : ℕ → Progress → Progress
    multiply_head head p =
        let p1 = record p { reports = p.reports ++ trace_head 2809528320 head ∷ [] } in
        if not (p.ws.len head == softmax_packet_bytes)
        then record p { going = false }
        else multiplied head p1 (compute_output_packet (p.ws.pkt head) head p.et)

    abbrev pub validate_head : ℕ → Progress → Progress
    validate_head head p =
        let begun = p.reports ++ trace_head 2809659392 head ∷ [] in
        if validate_output (p.ws.pkt head) (p.ws.output head) head
        then record p { reports = begun ++ trace_head 2809724928 head ∷ [] }
        else record p { going = false; reports = begun }

    -- A loop over the first `n` heads that a round may leave.
    abbrev pub over_heads : ℕ → (ℕ → Progress → Progress) → Progress → Progress
    over_heads zero round p = p
    over_heads (suc n) round p =
        let before = over_heads n round p in
        let next = round n before in if before.going then next else before

    abbrev pub check_end : Progress → Result fl OutputWs × Et fl unit
    check_end p =
        if p.going
        then (
          (
            some p.ws,
            tpa_stop,
            p.reports ++ Report.trace 2809462785 ∷ Report.trace 2810118399 ∷ Report.test_pass ∷ [],
          ),
          p.et,
        )
        else ((some p.ws, tpa_stop, p.reports ++ fail), p.et)

    abbrev pub output_check : Option OutputWs → Et fl unit → Result fl OutputWs × Et fl unit
    output_check none et = (stop_failed fl none, et)
    output_check (some w) et =
        let start : Progress = record { going = true; ws = w; et = et; reports = [] } in
        let multiplied_all = over_heads heads multiply_head start in
        let validated = over_heads heads validate_head multiplied_all in
        if not (w.received_mask == all_heads)
        then (stop_failed fl (some w), et)
        else if multiplied_all.going
        then check_end validated
        else check_end multiplied_all

    module _ (at : Symbols) (chan : ℕ → ℕ) where
      abbrev pub output_recv_next : Option OutputWs → Result fl OutputWs
      output_recv_next none = stop_failed fl none
      output_recv_next (some w) =
          let ch = chan (w.next_port % 2 ^ 16) in
          if leb heads w.next_port || ch == null then stop_failed fl (some w) else (
            some w,
            tpa_recv ch (at.pkt_at w.next_port) (at.len_at w.next_port) at.output_after_recv,
            [],
          )

      abbrev pub output_start : Option OutputWs → Result fl OutputWs
      output_start none = reporting fl (Report.trace 2809462784) (stop_failed fl none)
      output_start (some w) =
          let cleared : OutputWs = record w {
            pkt = λ head. none;
            len = λ head. 0;
            next_port = 0;
            received_mask = 0;
          } in
          reporting fl (Report.trace 2809462784) (output_recv_next (some cleared))

      -- A packet of the right length and head has come in at the port.
      abbrev pub received_right : Option (SoftmaxPacket fl) → ℕ → ℕ → Bool
      received_right none len port = false
      received_right (some pkt) len port = len == softmax_packet_bytes && pkt.head == port

      abbrev pub output_after_recv : Option OutputWs → Et fl unit → Result fl OutputWs × Et fl unit
      output_after_recv none et = (stop_failed fl none, et)
      output_after_recv (some w) et =
          let port = w.next_port in
          let w1 = record w {
            received_mask = bit_or w.received_mask (2 ^ port);
            next_port = (port + 1) % 2 ^ 32;
          } in
          let (checked, et1) = output_check (some w1) et in
          if leb heads port || not (received_right (w.pkt port) (w.len port) port)
          then (stop_failed fl (some w), et)
          else if ltb w1.next_port heads
          then (output_recv_next (some w1), et)
          else (reporting fl (Report.trace 2809462786) checked, et1)
