-- ===== src/Depth/Pipeline.antt =====
-- What the source sends, a worker accepts, and what the worker sends, the checker reads.
use tpa.Base.{
  ℕ, zero, suc, ◌≤◌, ◌<◌, ◌≡◌, ◌≢◌, refl, ap, arith, true, Bool-cases, some, ◌==◌, ne→==, inl, inr,
}
use tpa.State.{null}
use tpa.Depth.{stripes}
use tpa.Depth.Packet.{InputPacket, OutputPacket, fill_input_packet, compute_stripe, output_valid}
use tpa.Depth.Window.{input_valid-fill}
use tpa.Depth.Program.{
  Addresses, Report, fill_packets, worker_send, tpa_send, input_packet_bytes, output_packet_bytes,
}

fill_packets-above :
    (n s : ℕ) (packet : ℕ → InputPacket) → n ≤ s → fill_packets n packet s ≡ packet s
unfolding fill_packets
fill_packets-above zero s packet le = refl
fill_packets-above (suc n) s packet le =
    rw (ne→== s n (omega arith)) (fill_packets-above n s packet (omega arith))

fill_packets-at :
    (n s : ℕ) (packet : ℕ → InputPacket)
    → s < n
    → fill_packets n packet s ≡ fill_input_packet (packet s) s
unfolding fill_packets
fill_packets-at zero s packet lt = elim lt [ ]
fill_packets-at (suc n) s packet lt = elim (Bool-cases (s == n)) [
  | inl same ↦
      let e : s ≡ n = ground arith in
      rw (same, e)
        (ap (λ (k : InputPacket). fill_input_packet k n)
          (fill_packets-above n n packet (omega arith)))
  | inr other ↦ rw other (fill_packets-at n s packet (ground arith))
]

-- A worker that receives the packet which the source filled for a stripe, whole, accepts it: it
-- computes the stripe and sends the result on. The header of that result is one that the checker
-- accepts at the port of the stripe.
pub worker_send-fill_packets :
    (at : Addresses) (chan : ℕ → ℕ) (old : OutputPacket) (packet : ℕ → InputPacket) (s : ℕ)
    → s < stripes
    → chan 1 ≢ null
    → let got = some (fill_packets stripes packet s) in
      let out = compute_stripe (fill_input_packet (packet s) s) old in
      (worker_send at chan
          (some (record { out = old; in_packet = got; in_len = input_packet_bytes }))
        ≡ (
          some (record { out = out; in_packet = got; in_len = input_packet_bytes }),
          tpa_send (chan 1) at.out_at output_packet_bytes at.worker_done,
          Report.quiet,
        ))
      × (output_valid (some out) s ≡ true)
worker_send-fill_packets at chan old packet s lt ne =
    let accepted = input_valid-fill (packet s) s lt in
    (rw (fill_packets-at stripes s packet lt, ne→== _ _ ne, accepted) refl, ground arith)
