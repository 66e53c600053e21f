-- ===== src/Depth/Match.antt =====
-- The matcher finds a perfect match at every pixel of the test image that counts.
use tpa.Base.{ℕ, zero, suc, ◌+◌, ◌-◌, ◌*◌, ◌%◌, ◌^◌, ◌≤◌, ◌<◌, ◌≡◌, refl, ap, sym, ◌∙◌, arith, true}
use tpa.Depth.{
  width, dmax, radius, stripes, stripe_h, input_pixels, pixel_valid, disparity_y, left_value,
  right_value, halo_y0, halo_rows, stripe_y0, row_cost, window_cost, window_rounds, cost_at,
  best_disparity, abs_diff,
}
use tpa.Depth.Cost.{best_disparity-least}
use tpa.Depth.Packet.{InputPacket, clear_to, fill_input_packet}
use tpa.Depth.Window.{fill_rows-within, window-bounds, disparity_y-window, right_value-shifted}

module _ (old : InputPacket) (stripe oy x : ℕ) (in_stripes : stripe < stripes)
    (in_stripe : oy < stripe_h) (valid : pixel_valid x (stripe_y0 stripe + oy) ≡ true) where
  abbrev pkt : InputPacket
  pkt = fill_input_packet old stripe

  abbrev local_y : ℕ
  local_y = stripe_y0 stripe + oy - halo_y0 stripe

  abbrev disparity : ℕ
  disparity = disparity_y (stripe_y0 stripe + oy)

  disparity-low : disparity < dmax
  disparity-low = ground arith

  -- The two images agree at each place of the window, at the disparity of the image.
  window-same :
      (i j : ℕ)
      → i < window_rounds local_y
      → j < window_rounds x
      → let wy = local_y - radius + i in
        let wx = x - radius + j in
        pkt.left (wy * width + wx) ≡ pkt.right (wy * width + (wx + 2 ^ 32 - disparity) % 2 ^ 32)
  window-same i j in_rows in_row =
      let wy = local_y - radius + i in
      let wx = x - radius + j in
      let b =
        window-bounds stripe oy x i j disparity in_stripes in_stripe valid in_rows in_row
          disparity-low in
      let y = halo_y0 stripe + wy in
      let same_band =
        disparity_y-window x (stripe_y0 stripe + oy) y valid (ground arith) (ground arith) in
      let l =
        fill_rows-within left_value (halo_y0 stripe) (halo_rows stripe)
          (clear_to 0 input_pixels old.left) wy wx b.0 b.1 in
      let r =
        fill_rows-within right_value (halo_y0 stripe) (halo_rows stripe)
          (clear_to 0 input_pixels old.right) wy (wx - disparity) b.0 (omega (arith, b.1)) in
      let shifted = right_value-shifted wx y disparity same_band b.4 b.1 in
      l ∙ sym shifted ∙ sym r ∙ ap (λ (k : ℕ). pkt.right (wy * width + k)) (sym b.3)

  abs_diff-same : (a b : ℕ) → a ≡ b → abs_diff a b ≡ 0
  abs_diff-same a b e = ground arith

  row_cost-zero :
      (i : ℕ)
      → i < window_rounds local_y
      → (n : ℕ) → n ≤ window_rounds x
      → row_cost pkt.left pkt.right x (local_y - radius + i) disparity n ≡ 0
  unfolding row_cost
  row_cost-zero i in_rows zero le = refl
  row_cost-zero i in_rows (suc n) le =
      let before = row_cost-zero i in_rows n (omega arith) in
      let here = abs_diff-same _ _ (window-same i n in_rows (omega arith)) in rw (before, here) refl

  window_cost-zero :
      (n : ℕ) → n ≤ window_rounds local_y → window_cost pkt.left pkt.right x local_y disparity n ≡ 0
  unfolding window_cost
  window_cost-zero zero le = refl
  window_cost-zero (suc n) le =
      rw
        (
          window_cost-zero n (omega arith),
          row_cost-zero n (omega arith) (window_rounds x) (omega arith),
        )
        refl

  -- At a pixel of a stripe that counts, in the packet filled from the test image, the cost of the
  -- image's own disparity is 0. So the disparity that the search finds costs 0 too, and is not
  -- above it.
  pub best_disparity-match :
      let y = stripe_y0 stripe + oy in
      let (best_d, best_cost) = best_disparity pkt.left pkt.right x (y - halo_y0 stripe) in
      (cost_at pkt.left pkt.right x (y - halo_y0 stripe) (disparity_y y) ≡ 0)
      × (best_cost ≡ 0)
      × (best_d ≤ disparity_y y)
  best_disparity-match =
      let perfect : cost_at pkt.left pkt.right x local_y disparity ≡ 0 =
        rw (window_cost-zero (window_rounds local_y) (omega arith)) refl in
      let least = best_disparity-least pkt.left pkt.right x local_y disparity disparity-low in
      (perfect, omega (arith, least.2, perfect), ground (arith, least.3, perfect))
