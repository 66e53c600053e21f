-- ===== src/Depth.antt =====
-- depth/stereo_sad_common.h: the images, the stripes and the costs of the stereo matcher that runs as
-- a program on the runtime. Arrays are functions from an index.
pub mod Packet
pub mod Cost
pub mod Match
pub mod Window
pub mod Check
pub mod Program
pub mod Pipeline
use tpa.Base.{
  ℕ, zero, suc, ◌+◌, ◌-◌, ◌*◌, ◌/◌, ◌%◌, ◌^◌, Bool, true, false, ◌||◌, bit_xor, ◌==◌, ltb, leb,
  if◌then◌else◌,
}

abbrev pub width : ℕ
width = 96

abbrev pub height : ℕ
height = 64

abbrev pub dmax : ℕ
dmax = 32

abbrev pub radius : ℕ
radius = 2

abbrev pub stripes : ℕ
stripes = 4

abbrev pub stripe_h : ℕ
stripe_h = 16

abbrev pub invalid : ℕ
invalid = 255

abbrev pub seed : ℕ
seed = 0x5ad96320

abbrev pub input_pixels : ℕ
input_pixels = 1920

abbrev pub output_pixels : ℕ
output_pixels = 1536

unfoldable pub mix32 : ℕ → ℕ
mix32 v0 =
    let v1 = bit_xor v0 (v0 / 2 ^ 16) in
    let v2 = v1 * 0x7feb_352d % 2 ^ 32 in
    let v3 = bit_xor v2 (v2 / 2 ^ 15) in
    let v4 = v3 * 0x846c_a68b % 2 ^ 32 in bit_xor v4 (v4 / 2 ^ 16)

unfoldable pub texture : ℕ → ℕ → ℕ → ℕ
texture x y seed =
    let a = (x + 0x9e37_79b9) % 2 ^ 32 * 0x85eb_ca6b % 2 ^ 32 in
    let b = (y + 0xc2b2_ae35) % 2 ^ 32 * 0x27d4_eb2f % 2 ^ 32 in
    mix32 (bit_xor (bit_xor seed a) b) % 256

abbrev pub disparity_y : ℕ → ℕ
disparity_y y = let band = y * 3 / height in if band == 0 then 6 else if band == 1 then 12 else 18

abbrev pub abs_diff : ℕ → ℕ → ℕ
abs_diff a b = if ltb b a then a - b else b - a

abbrev pub in_band_guard : ℕ → Bool
in_band_guard y = leb (abs_diff y 21) radius || leb (abs_diff y 42) radius

abbrev pub pixel_valid : ℕ → ℕ → Bool
pixel_valid x y =
    if ltb x (dmax - 1 + radius)
    then false
    else if leb (width - radius) x
    then false
    else if ltb y radius
    then false
    else if leb (height - radius) y
    then false
    else if in_band_guard y
    then false
    else true

abbrev pub left_value : ℕ → ℕ → ℕ
left_value x y = texture x y seed

abbrev pub right_value : ℕ → ℕ → ℕ
right_value x y =
    let src_x = x + disparity_y y in
    if ltb src_x width
    then texture src_x y seed
    else texture (x + 7919) (y + 1543) (bit_xor seed 0x0bad_5eed)

abbrev pub stripe_y0 : ℕ → ℕ
stripe_y0 stripe = stripe * stripe_h

abbrev pub halo_y0 : ℕ → ℕ
halo_y0 stripe = let y0 = stripe_y0 stripe in if ltb radius y0 then y0 - radius else 0

abbrev pub halo_rows : ℕ → ℕ
halo_rows stripe =
    let halo_y1 = stripe_y0 stripe + stripe_h + radius in
    (if ltb height halo_y1 then height else halo_y1) - halo_y0 stripe

-- The number of rounds of `for (w = c - radius; w <= c + radius; w++)`: none when the start wraps
-- around, which is past the end then.
abbrev pub window_rounds : ℕ → ℕ
window_rounds c = if ltb c radius then 0 else 2 * radius + 1

-- The cost that `n` rounds of the inner loop add, in row `wy`.
unfoldable pub row_cost : (left right : ℕ → ℕ) → (x wy d n : ℕ) → ℕ
row_cost left right x wy d zero = 0
row_cost left right x wy d (suc n) =
    let rest = row_cost left right x wy d n in
    let wx = x - radius + n in
    rest + abs_diff (left (wy * width + wx)) (right (wy * width + (wx + 2 ^ 32 - d) % 2 ^ 32))

-- The cost that `n` rounds of the outer loop add.
unfoldable pub window_cost : (left right : ℕ → ℕ) → (x local_y d n : ℕ) → ℕ
window_cost left right x local_y d zero = 0
window_cost left right x local_y d (suc n) =
    let rest = window_cost left right x local_y d n in
    rest + row_cost left right x (local_y - radius + n) d (window_rounds x)

abbrev pub cost_at : (left right : ℕ → ℕ) → (x local_y d : ℕ) → ℕ
cost_at left right x local_y d = window_cost left right x local_y d (window_rounds local_y) % 2 ^ 16

-- The variables `best` and `best_d` after `n` rounds of the loop over the disparities.
unfoldable pub best_after : (ℕ → ℕ) → ℕ → ℕ × ℕ
best_after cost zero = (0xffff_ffff, 0)
best_after cost (suc n) =
    let (best, best_d) = best_after cost n in
    if ltb (cost n) best then (cost n, n % 256) else (best, best_d)

-- Returns the disparity and its cost.
abbrev pub best_disparity : (left right : ℕ → ℕ) → (x local_y : ℕ) → ℕ × ℕ
best_disparity left right x local_y =
    let (best, best_d) = best_after (cost_at left right x local_y) dmax in (best_d, best % 2 ^ 16)

abbrev pub expected_disparity : ℕ → ℕ → ℕ
expected_disparity x y = if pixel_valid x y then disparity_y y % 256 else invalid
