-- ===== src/Depth/Program.antt =====
-- depth/stereo_sad.c: the source, the workers and the checker, as programs of processes. A
-- continuation takes the workspace that `tpa_ws` returns (`none` for the null pointer) to the
-- workspace it leaves, the operation that it returns, and what it reports. The arguments of the
-- section are the channel that `tpa_chan` finds at a port, and the numbers that the linker gives to
-- the continuations and to the objects whose addresses are taken.
use tpa.Base.{
  ℕ, zero, suc, ◌+◌, ◌-◌, ◌^◌, ◌||◌, ◌&&◌, not, Option, none, some, bit_or, ◌==◌, ltb, leb,
  if◌then◌else◌, update,
}
use tpa.State.{null}
use tpa.Step.{Op, op_stop, op_send, op_recv}
use tpa.Depth.{stripes}
use tpa.Depth.Packet.{
  InputPacket, OutputPacket, fill_input_packet, input_valid, compute_stripe, output_valid,
  check_output,
}

abbrev pub input_packet_bytes : ℕ
input_packet_bytes = 3904

abbrev pub output_packet_bytes : ℕ
output_packet_bytes = 1600

abbrev pub expected_valid_pixels : ℕ
expected_valid_pixels = 3050

pub record SourceWs : Type 0 where
  pub packet : ℕ → InputPacket
  pub next_stripe : ℕ

-- `in_packet` is what the pointer `in` leads to.
pub record WorkerWs : Type 0 where
  pub out : OutputPacket
  pub in_packet : Option InputPacket
  pub in_len : ℕ

pub record CheckerWs : Type 0 where
  pub in_packet : Option OutputPacket
  pub in_len : ℕ
  pub next_port : ℕ
  pub received_mask : ℕ
  pub valid_pixels : ℕ
  pub mismatches : ℕ

-- `TEST_FAIL`, `TEST_PASS`, or neither.
pub data Report : Type 0 where
  quiet : Report
  test_fail : Report
  test_pass : Report

pub record Addresses : Type 0 where
  pub source_after_send : ℕ
  pub worker_send : ℕ
  pub worker_done : ℕ
  pub checker_after_recv : ℕ
  pub packet_at : ℕ → ℕ
  pub out_at : ℕ
  pub in_at : ℕ
  pub in_len_at : ℕ

abbrev pub tpa_stop : Op
tpa_stop = record {
  op = op_stop;
  next = null;
  ch = null;
  buf = null;
  bufp = null;
  lenp = null;
  len = 0;
}

abbrev pub tpa_send : (ch buf len next : ℕ) → Op
tpa_send ch buf len next = record tpa_stop {
  op = op_send;
  next = next;
  ch = ch;
  buf = buf;
  len = len;
}

abbrev pub tpa_recv : (ch bufp lenp next : ℕ) → Op
tpa_recv ch bufp lenp next = record tpa_stop {
  op = op_recv;
  next = next;
  ch = ch;
  bufp = bufp;
  lenp = lenp;
}

-- `n` rounds of the loop of `source_start`.
unfoldable pub fill_packets : ℕ → (ℕ → InputPacket) → ℕ → InputPacket
fill_packets zero packet = packet
fill_packets (suc n) packet =
    let before = fill_packets n packet in update before n (fill_input_packet (before n) n)

module _ (at : Addresses) (chan : ℕ → ℕ) where
  abbrev pub source_send : Option SourceWs → Option SourceWs × Op × Report
  source_send none = (none, tpa_stop, Report.test_fail)
  source_send (some w) =
      let ch = chan w.next_stripe in
      if leb stripes w.next_stripe
      then (some w, tpa_stop, Report.test_fail)
      else if ch == null
      then (some w, tpa_stop, Report.test_fail)
      else (
        some w,
        tpa_send ch (at.packet_at w.next_stripe) input_packet_bytes at.source_after_send,
        Report.quiet,
      )

  abbrev pub source_start : Option SourceWs → Option SourceWs × Op × Report
  source_start none = (none, tpa_stop, Report.test_fail)
  source_start (some w) =
      source_send (some (record { packet = fill_packets stripes w.packet; next_stripe = 0 }))

  abbrev pub source_after_send : Option SourceWs → Option SourceWs × Op × Report
  source_after_send none = (none, tpa_stop, Report.test_fail)
  source_after_send (some w) =
      let w1 = record w { next_stripe = w.next_stripe + 1 } in
      if ltb w1.next_stripe stripes
      then source_send (some w1)
      else (some w1, tpa_stop, Report.quiet)

  abbrev pub worker_recv : Option WorkerWs → Option WorkerWs × Op × Report
  worker_recv none = (none, tpa_stop, Report.test_fail)
  worker_recv (some w) =
      if chan 0 == null
      then (some w, tpa_stop, Report.test_fail)
      else (some w, tpa_recv (chan 0) at.in_at at.in_len_at at.worker_send, Report.quiet)

  abbrev pub worker_send : Option WorkerWs → Option WorkerWs × Op × Report
  worker_send none = (none, tpa_stop, Report.test_fail)
  worker_send (some w) = elim (w.in_packet) [
    | none ↦ (some w, tpa_stop, Report.test_fail)
    | some pkt ↦
        if chan 1 == null || not (w.in_len == input_packet_bytes) || not (input_valid (some pkt))
        then (some w, tpa_stop, Report.test_fail)
        else (
          some (record w { out = compute_stripe pkt w.out }),
          tpa_send (chan 1) at.out_at output_packet_bytes at.worker_done,
          Report.quiet,
        )
  ]

  abbrev pub checker_recv_next : Option CheckerWs → Option CheckerWs × Op × Report
  checker_recv_next none = (none, tpa_stop, Report.test_fail)
  checker_recv_next (some w) =
      let ch = chan w.next_port in
      if leb stripes w.next_port
      then (some w, tpa_stop, Report.test_fail)
      else if ch == null
      then (some w, tpa_stop, Report.test_fail)
      else (some w, tpa_recv ch at.in_at at.in_len_at at.checker_after_recv, Report.quiet)

  abbrev pub checker_start : Option CheckerWs → Option CheckerWs × Op × Report
  checker_start none = (none, tpa_stop, Report.test_fail)
  checker_start (some w) =
      checker_recv_next
        (some (record w { next_port = 0; received_mask = 0; valid_pixels = 0; mismatches = 0 }))

  -- What the check of the received packet stores, if it succeeds.
  abbrev pub checked : CheckerWs → Option ℕ
  checked w = elim (w.in_packet) [
    | none ↦ none
    | some pkt ↦
        if not (w.in_len == output_packet_bytes) || not (output_valid (some pkt) w.next_port)
        then none
        else check_output pkt
  ]

  -- The end of `checker_after_recv`, after a packet that is accepted.
  abbrev pub checker_accept : CheckerWs → ℕ → Option CheckerWs × Op × Report
  checker_accept w valid =
      let w1 = record w {
        valid_pixels = w.valid_pixels + valid;
        received_mask = bit_or w.received_mask (2 ^ w.next_port);
        next_port = w.next_port + 1;
      } in
      if ltb w1.next_port stripes
      then checker_recv_next (some w1)
      else if w1.received_mask == 2 ^ stripes - 1
          && w1.valid_pixels == expected_valid_pixels
          && w1.mismatches == 0
      then (some w1, tpa_stop, Report.test_pass)
      else (some w1, tpa_stop, Report.test_fail)

  abbrev pub checker_after_recv : Option CheckerWs → Option CheckerWs × Op × Report
  checker_after_recv none = (none, tpa_stop, Report.test_fail)
  checker_after_recv (some w) =
      if leb stripes w.next_port then (some w, tpa_stop, Report.test_fail) else elim (checked w) [
        | none ↦ (some (record w { mismatches = w.mismatches + 1 }), tpa_stop, Report.test_fail)
        | some valid ↦ checker_accept w valid
      ]
