-- ===== src/Tests/Devices.antt =====
-- Tests of the devices' layers and of the stereo matcher.
use tpa.Base.{ℕ, ◌+◌, ◌-◌, ◌%◌, ◌/◌, ◌^◌, ◌*◌, ◌≤◌, ◌<◌, some, ◌≡◌, refl, true, false, arith}
use tpa.Hal.Erbium.{line_of, flush}
use tpa.Hal.Lines.{covers, flush_unaligned-misses}
use tpa.Depth.{
  width, stripes, stripe_h, radius, input_pixels, stripe_y0, halo_y0, halo_rows, cost_at,
  best_disparity, expected_disparity, disparity_y,
}
use tpa.Depth.Packet.{
  InputPacket, OutputPacket, fill_input_packet, compute_stripe, output_valid, check_output,
  check_row, check_rows, expect_row, expect_rows, count_row, count_rows,
}
use tpa.Depth.Program.{
  Addresses, Report, fill_packets, worker_send, tpa_send, input_packet_bytes, output_packet_bytes,
}
use tpa.Depth.Window.{window-bounds}
use tpa.Depth.Match.{best_disparity-match}
use tpa.Depth.Check.{check_output_sound}
use tpa.Depth.Pipeline.{worker_send-fill_packets}

abbrev no_input : InputPacket
no_input = record {
  stripe = 0;
  y0 = 0;
  stripe_h = 0;
  halo_y0 = 0;
  halo_rows = 0;
  width = 0;
  height = 0;
  dmax = 0;
  radius = 0;
  seed = 0;
  left = λ _. 0;
  right = λ _. 0;
}

-- The result for stripe 0 that the checker wants.
abbrev wanted : OutputPacket
wanted = record {
  stripe = 0;
  y0 = 0;
  stripe_h = 16;
  width = 96;
  height = 64;
  dmax = 32;
  radius = 2;
  valid_pixels = 854;
  disparity = λ k. expected_disparity (k % 96) (k / 96);
}

abbrev addresses : Addresses
addresses = record {
  source_after_send = 1;
  worker_send = 2;
  worker_done = 3;
  checker_after_recv = 4;
  packet_at = λ s. 4096 * (s + 1);
  out_at = 64;
  in_at = 32;
  in_len_at = 40;
}

abbrev some_channel : ℕ → ℕ
some_channel port = port + 1

abbrev blank_packets : ℕ → InputPacket
blank_packets _ = no_input

-- The pixels that count, over the four stripes.
valid_pixels_test : count_rows 0 16 + count_rows 16 16 + count_rows 32 16 + count_rows 48 16 ≡ 3050
unfolding count_row count_rows
valid_pixels_test = refl

wanted-accepted : check_output wanted ≡ some 854
unfolding check_row check_rows expect_row expect_rows
wanted-accepted = refl

flush_unaligned-misses_example : covers (line_of (32 + 64 - 1)) (flush 32 64) ≡ false
flush_unaligned-misses_example =
    flush_unaligned-misses 32 64 (omega arith) (omega arith) (omega arith)

window-bounds_example :
    let wy = stripe_y0 1 + 8 - halo_y0 1 - radius + 4 in
    let wx = 40 - radius + 2 in
    (wy < halo_rows 1)
    × (wx < width)
    × (wy * width + wx < input_pixels)
    × ((wx + 2 ^ 32 - 31) % 2 ^ 32 ≡ wx - 31)
    × (31 ≤ wx)
window-bounds_example =
    window-bounds 1 8 40 4 2 31 (omega arith) (omega arith) refl (omega arith) (omega arith)
      (omega arith)

best_disparity-match_example :
    let y = stripe_y0 1 + 8 in
    let (best_d, best_cost) =
      best_disparity
        (fill_input_packet no_input 1).left
        (fill_input_packet no_input 1).right
        40
        (y - halo_y0 1) in
    (cost_at
        (fill_input_packet no_input 1).left
        (fill_input_packet no_input 1).right
        40
        (y - halo_y0 1)
        (disparity_y y)
      ≡ 0)
    × (best_cost ≡ 0)
    × (best_d ≤ disparity_y y)
best_disparity-match_example = best_disparity-match no_input 1 8 40 (omega arith) (omega arith) refl

check_output_sound_example :
    (wanted.disparity (5 * width + 40) ≡ expected_disparity 40 (wanted.y0 + 5))
    × (854 ≡ wanted.valid_pixels)
    × (854 ≡ count_rows wanted.y0 stripe_h)
check_output_sound_example =
    check_output_sound wanted 854 5 40 wanted-accepted (omega arith) (omega arith)

worker_send-fill_packets_example :
    let got = some (fill_packets stripes blank_packets 2) in
    let out = compute_stripe (fill_input_packet (blank_packets 2) 2) wanted in
    (worker_send addresses some_channel
        (some (record { out = wanted; in_packet = got; in_len = input_packet_bytes }))
      ≡ (
        some (record { out = out; in_packet = got; in_len = input_packet_bytes }),
        tpa_send (some_channel 1) addresses.out_at output_packet_bytes addresses.worker_done,
        Report.quiet,
      ))
    × (output_valid (some out) 2 ≡ true)
worker_send-fill_packets_example =
    worker_send-fill_packets addresses some_channel wanted blank_packets 2 (omega arith)
      (omega arith)
