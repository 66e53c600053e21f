-- ===== src/Depth/Packet.antt =====
-- depth/stereo_sad.c: the packets that the processes of the matcher send to each other, how they are
-- filled and how they are checked. A loop over an array is the state after `n` of its rounds.
use tpa.Base.{
  ℕ, zero, suc, ◌+◌, ◌-◌, ◌*◌, Bool, true, false, ◌&&◌, ◌||◌, not, Option, none, some, ◌==◌, leb,
  if◌then◌else◌, update,
}
use tpa.Depth.{
  width, height, dmax, radius, stripes, stripe_h, invalid, seed, left_value, right_value, stripe_y0,
  halo_y0, halo_rows, pixel_valid, best_disparity, expected_disparity, input_pixels, output_pixels,
}

pub record InputPacket : Type 0 where
  pub stripe : ℕ
  pub y0 : ℕ
  pub stripe_h : ℕ
  pub halo_y0 : ℕ
  pub halo_rows : ℕ
  pub width : ℕ
  pub height : ℕ
  pub dmax : ℕ
  pub radius : ℕ
  pub seed : ℕ
  pub left : ℕ → ℕ
  pub right : ℕ → ℕ

pub record OutputPacket : Type 0 where
  pub stripe : ℕ
  pub y0 : ℕ
  pub stripe_h : ℕ
  pub width : ℕ
  pub height : ℕ
  pub dmax : ℕ
  pub radius : ℕ
  pub valid_pixels : ℕ
  pub disparity : ℕ → ℕ

-- The first `n` entries of an array set to `v`.
unfoldable pub clear_to : ℕ → ℕ → (ℕ → ℕ) → ℕ → ℕ
clear_to v zero a = a
clear_to v (suc n) a = update (clear_to v n a) n v

-- `n` rounds of the loop over `x`, in row `row`.
unfoldable pub fill_row : (ℕ → ℕ) → ℕ → ℕ → (ℕ → ℕ) → ℕ → ℕ
fill_row value row zero a = a
fill_row value row (suc n) a = update (fill_row value row n a) (row * width + n) (value n)

-- `n` rounds of the loop over `row`.
unfoldable pub fill_rows : (ℕ → ℕ → ℕ) → ℕ → ℕ → (ℕ → ℕ) → ℕ → ℕ
fill_rows value y0 zero a = a
fill_rows value y0 (suc n) a = fill_row (λ x. value x (y0 + n)) n width (fill_rows value y0 n a)

abbrev pub fill_input_packet : InputPacket → ℕ → InputPacket
fill_input_packet old stripe = record {
  stripe = stripe;
  y0 = stripe_y0 stripe;
  stripe_h = stripe_h;
  halo_y0 = halo_y0 stripe;
  halo_rows = halo_rows stripe;
  width = width;
  height = height;
  dmax = dmax;
  radius = radius;
  seed = seed;
  left =
      fill_rows left_value (halo_y0 stripe) (halo_rows stripe) (clear_to 0 input_pixels old.left);
  right =
      fill_rows right_value (halo_y0 stripe) (halo_rows stripe) (clear_to 0 input_pixels old.right);
}

-- `none` is the null pointer.
abbrev pub input_valid : Option InputPacket → Bool
input_valid none = false
input_valid (some pkt) =
    if leb stripes pkt.stripe
    then false
    else if not (pkt.y0 == stripe_y0 pkt.stripe)
    then false
    else if not (pkt.stripe_h == stripe_h)
    then false
    else if not (pkt.halo_y0 == halo_y0 pkt.stripe)
    then false
    else if not (pkt.halo_rows == halo_rows pkt.stripe)
    then false
    else not (
        not (pkt.width == width)
        || not (pkt.height == height)
        || not (pkt.dmax == dmax)
        || not (pkt.radius == radius)
        || not (pkt.seed == seed))

-- The value that a round of the inner loop of `compute_stripe` stores.
abbrev pub disparity_at : InputPacket → ℕ → ℕ → ℕ
disparity_at pkt oy x =
    let y = pkt.y0 + oy in
    if pixel_valid x y then (best_disparity pkt.left pkt.right x (y - pkt.halo_y0)).0 else invalid

-- `valid_pixels` after `n` rounds of the inner loop, from what it was before.
unfoldable pub count_row : ℕ → ℕ → ℕ → ℕ
count_row y zero count = count
count_row y (suc n) count =
    let before = count_row y n count in if pixel_valid n y then suc before else before

unfoldable pub count_rows : ℕ → ℕ → ℕ
count_rows y0 zero = 0
count_rows y0 (suc n) = count_row (y0 + n) width (count_rows y0 n)

unfoldable pub compute_rows : InputPacket → ℕ → (ℕ → ℕ) → ℕ → ℕ
compute_rows pkt zero a = a
compute_rows pkt (suc n) a = fill_row (disparity_at pkt n) n width (compute_rows pkt n a)

abbrev pub compute_stripe : InputPacket → OutputPacket → OutputPacket
compute_stripe pkt old = record {
  stripe = pkt.stripe;
  y0 = pkt.y0;
  stripe_h = pkt.stripe_h;
  width = width;
  height = height;
  dmax = dmax;
  radius = radius;
  valid_pixels = count_rows pkt.y0 stripe_h;
  disparity = compute_rows pkt stripe_h (clear_to invalid output_pixels old.disparity);
}

abbrev pub output_valid : Option OutputPacket → ℕ → Bool
output_valid none port = false
output_valid (some pkt) port =
    if not (pkt.stripe == port) || leb stripes pkt.stripe
    then false
    else if not (pkt.y0 == stripe_y0 pkt.stripe)
    then false
    else if not (pkt.stripe_h == stripe_h)
    then false
    else not (
        not (pkt.width == width)
        || not (pkt.height == height)
        || not (pkt.dmax == dmax)
        || not (pkt.radius == radius))

-- Whether `n` rounds of the inner loop of `check_output` find what they expect.
unfoldable pub check_row : (ℕ → ℕ) → ℕ → ℕ → ℕ → Bool
check_row disparity oy y zero = true
check_row disparity oy y (suc n) =
    let before = check_row disparity oy y n in
    before && disparity (oy * width + n) == expected_disparity n y

unfoldable pub check_rows : (ℕ → ℕ) → ℕ → ℕ → Bool
check_rows disparity y0 zero = true
check_rows disparity y0 (suc n) =
    let before = check_rows disparity y0 n in before && check_row disparity n (y0 + n) width

-- `valid` after `n` rounds of the inner loop, from what it was before.
unfoldable pub expect_row : ℕ → ℕ → ℕ → ℕ
expect_row y zero count = count
expect_row y (suc n) count =
    let before = expect_row y n count in
    if expected_disparity n y == invalid then before else suc before

unfoldable pub expect_rows : ℕ → ℕ → ℕ
expect_rows y0 zero = 0
expect_rows y0 (suc n) = expect_row (y0 + n) width (expect_rows y0 n)

-- The number that is stored, if the check succeeds.
abbrev pub check_output : OutputPacket → Option ℕ
check_output pkt =
    if not (check_rows pkt.disparity pkt.y0 stripe_h)
    then none
    else if not (pkt.valid_pixels == expect_rows pkt.y0 stripe_h)
    then none
    else some (expect_rows pkt.y0 stripe_h)
