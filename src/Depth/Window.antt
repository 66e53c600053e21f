-- ===== src/Depth/Window.antt =====
-- What a filled packet holds, and the windows that the matcher looks at.
use tpa.Base.{
  ℕ, zero, suc, ◌+◌, ◌-◌, ◌*◌, ◌%◌, ◌^◌, ◌≤◌, ◌<◌, ◌≡◌, ◌⊎◌, inl, inr, refl, ap, ◌∙◌, arith, true,
  Bool-cases, ltb, some,
}
use tpa.Depth.{
  width, dmax, radius, stripes, stripe_h, input_pixels, pixel_valid, disparity_y, left_value,
  right_value, halo_y0, halo_rows, stripe_y0, window_rounds,
}
use tpa.Depth.Packet.{InputPacket, fill_row, fill_rows, fill_input_packet, input_valid}

fill_row-within :
    (value : ℕ → ℕ) (row n : ℕ) (a : ℕ → ℕ) (x : ℕ)
    → x < n
    → fill_row value row n a (row * width + x) ≡ value x
unfolding fill_row
fill_row-within value row zero a x lt = elim lt [ ]
fill_row-within value row (suc n) a x lt =
    let same = λ (e : x ≡ n). ap value e in ground (arith, same, fill_row-within value row n a x)

fill_row-outside :
    (value : ℕ → ℕ) (row n : ℕ) (a : ℕ → ℕ) (j : ℕ)
    → (j < row * width) ⊎ (row * width + n ≤ j)
    → fill_row value row n a j ≡ a j
unfolding fill_row
fill_row-outside value row zero a j out = refl
fill_row-outside value row (suc n) a j out = ground (arith, fill_row-outside value row n a j)

pub fill_rows-within :
    (value : ℕ → ℕ → ℕ) (y0 n : ℕ) (a : ℕ → ℕ) (row x : ℕ)
    → row < n
    → x < width
    → fill_rows value y0 n a (row * width + x) ≡ value x (y0 + row)
unfolding fill_rows
fill_rows-within value y0 zero a row x in_rows in_row = elim in_rows [ ]
fill_rows-within value y0 (suc n) a row x in_rows in_row =
    let before = fill_rows value y0 n a in
    let rest = fill_rows-within value y0 n a row x in
    elim (Bool-cases (ltb row n)) [
      | inl earlier ↦
          let out =
            fill_row-outside (λ x. value x (y0 + n)) n width before (row * width + x)
              (inl (ground arith)) in
          out ∙ rest (ground arith) in_row
      | inr latest ↦
          let e : row ≡ n = ground arith in
          rw e (fill_row-within (λ x. value x (y0 + n)) n width before x in_row)
    ]

-- A packet that was filled for a stripe of the image is accepted.
pub input_valid-fill :
    (old : InputPacket) (stripe : ℕ)
    → stripe < stripes
    → input_valid (some (fill_input_packet old stripe)) ≡ true
input_valid-fill old stripe lt = ground arith

-- The window of a pixel that counts lies inside the rows of its packet, so that the arrays are read
-- within their bounds: in the left image, and in the right image for every disparity.
pub window-bounds :
    (stripe oy x i j d : ℕ)
    → stripe < stripes
    → oy < stripe_h
    → pixel_valid x (stripe_y0 stripe + oy) ≡ true
    → i < window_rounds (stripe_y0 stripe + oy - halo_y0 stripe)
    → j < window_rounds x
    → d < dmax
    → let wy = stripe_y0 stripe + oy - halo_y0 stripe - radius + i in
      let wx = x - radius + j in
      (wy < halo_rows stripe)
      × (wx < width)
      × (wy * width + wx < input_pixels)
      × ((wx + 2 ^ 32 - d) % 2 ^ 32 ≡ wx - d)
      × (d ≤ wx)
window-bounds stripe oy x i j d in_stripes in_stripe valid in_rows in_row in_range = ground arith

-- The disparity of the image is the same over the rows of a window.
pub disparity_y-window :
    (x y y' : ℕ)
    → pixel_valid x y ≡ true
    → y ≤ y' + radius
    → y' ≤ y + radius
    → disparity_y y' ≡ disparity_y y
disparity_y-window x y y' valid above below = ground arith

pub right_value-shifted :
    (x y d : ℕ) → disparity_y y ≡ d → d ≤ x → x < width → right_value (x - d) y ≡ left_value x y
right_value-shifted x y d same le lt =
    let e : x - d + d ≡ x = omega arith in rw (same, e) (ground arith)
