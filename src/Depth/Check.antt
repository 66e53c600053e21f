-- ===== src/Depth/Check.antt =====
-- The check of the packets that come back.
use tpa.Base.{
  ℕ, zero, suc, ◌+◌, ◌*◌, ◌<◌, ◌≡◌, inl, inr, refl, ap, arith, true, Bool-cases, ltb, some,
}
use tpa.Depth.{width, stripe_h, expected_disparity}
use tpa.Depth.Packet.{
  OutputPacket, check_row, check_rows, check_output, expect_row, expect_rows, count_row, count_rows,
}

check_row_sound :
    (disparity : ℕ → ℕ) (oy y n x : ℕ)
    → check_row disparity oy y n ≡ true
    → x < n
    → disparity (oy * width + x) ≡ expected_disparity x y
unfolding check_row
check_row_sound disparity oy y zero x ok lt = elim lt [ ]
check_row_sound disparity oy y (suc n) x ok lt =
    let rest = check_row_sound disparity oy y n x in
    let same = λ (e : x ≡ n). ap (λ (k : ℕ). disparity (oy * width + k)) e in
    elim (Bool-cases (ltb x n)) [
      | inl earlier ↦ rest (ground arith) (ground arith)
      | inr latest ↦
          let e : x ≡ n = ground arith in
          let hit : disparity (oy * width + n) ≡ expected_disparity n y = ground arith in rw e hit
    ]

check_rows_sound :
    (disparity : ℕ → ℕ) (y0 n oy x : ℕ)
    → check_rows disparity y0 n ≡ true
    → oy < n
    → x < width
    → disparity (oy * width + x) ≡ expected_disparity x (y0 + oy)
unfolding check_rows
check_rows_sound disparity y0 zero oy x ok lt in_row = elim lt [ ]
check_rows_sound disparity y0 (suc n) oy x ok lt in_row =
    let rest = check_rows_sound disparity y0 n oy x in
    elim (Bool-cases (ltb oy n)) [
      | inl earlier ↦ rest (ground arith) (ground arith) in_row
      | inr latest ↦
          let e : oy ≡ n = ground arith in
          rw e (check_row_sound disparity n (y0 + n) width x (ground arith) in_row)
    ]

expect_row-count : (y n count : ℕ) → expect_row y n count ≡ count_row y n count
unfolding expect_row count_row
expect_row-count y zero count = refl
expect_row-count y (suc n) count = ground (arith, expect_row-count y n count)

expect_rows-count : (y0 n : ℕ) → expect_rows y0 n ≡ count_rows y0 n
unfolding expect_rows count_rows
expect_rows-count y0 zero = refl
expect_rows-count y0 (suc n) =
    rw (expect_rows-count y0 n) (expect_row-count (y0 + n) width (count_rows y0 n))

-- A packet that the check accepts holds the expected disparity at every pixel of its stripe. The
-- number that the check stores is the one in the packet, and it is the number of pixels that count,
-- as the worker counts them.
pub check_output_sound :
    (pkt : OutputPacket) (valid oy x : ℕ)
    → check_output pkt ≡ some valid
    → oy < stripe_h
    → x < width
    → (pkt.disparity (oy * width + x) ≡ expected_disparity x (pkt.y0 + oy))
      × (valid ≡ pkt.valid_pixels)
      × (valid ≡ count_rows pkt.y0 stripe_h)
check_output_sound pkt valid oy x ok in_stripe in_row =
    let all : check_rows pkt.disparity pkt.y0 stripe_h ≡ true = ground arith in
    let same = expect_rows-count pkt.y0 stripe_h in
    (
      check_rows_sound pkt.disparity pkt.y0 stripe_h oy x all in_stripe in_row,
      ground arith,
      ground (arith, same),
    )
