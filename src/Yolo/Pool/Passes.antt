-- ===== src/Yolo/Pool/Passes.antt =====
-- The three nested loops that both passes of the pool are made of.
use tpa.Base.{ℕ, ◌+◌, ◌*◌, ◌%◌, ◌≤◌, ◌<◌, ◌≡◌, ◌⊎◌, ap, sym, ◌∙◌, arith}
use tpa.Yolo.Bytes.{Bytes, for_below, rounds}
use tpa.Yolo.Loops.{Within, for_below-Within, for_below-at, slot_le}
use tpa.Yolo.Rows.{rounds-size}

-- Three nested loops over the vectors of the pixels of an image, each writing its own eight bytes.
module _ (body : ℕ → ℕ → ℕ → Bytes → Bytes) (h w c dst : ℕ) (whole : c % 8 ≡ 0)
    (fits : (y x k : ℕ) → Within (body y x k) (dst + (y * w + x) * c + k * 8) 8) where
  abbrev pixel : ℕ → ℕ → Bytes → Bytes
  pixel y x = for_below (rounds c) (body y x)

  abbrev line : ℕ → Bytes → Bytes
  line y = for_below w (pixel y)

  pixel-Within : (y x : ℕ) → Within (pixel y x) (dst + y * (w * c) + x * c) c
  pixel-Within y x m a out =
      for_below-Within (body y x) (dst + (y * w + x) * c) 8 (fits y x) (rounds c) m a
        (omega (arith, rounds-size c whole, out))

  line-Within : (y : ℕ) → Within (line y) (dst + y * (w * c)) (w * c)
  line-Within y = for_below-Within (pixel y) (dst + y * (w * c)) c (pixel-Within y) w

  pub pass-Within : Within (for_below h line) dst (h * (w * c))
  pass-Within = for_below-Within line dst (w * c) line-Within h

  -- The memory that the vector `k` of the pixel (y, x) finds.
  abbrev pub found : ℕ → ℕ → ℕ → Bytes → Bytes
  found y x k m = for_below k (body y x) (for_below x (pixel y) (for_below y line m))

  pub found-same :
      (y x k a : ℕ) (m : Bytes)
      → y < h
      → x < w
      → k * 8 ≤ c
      → (a < dst) ⊎ (dst + h * (w * c) ≤ a)
      → found y x k m a ≡ m a
  found-same y x k a m in_h in_w in_c out =
      let below = slot_le y h (w * c) in_h in
      let left = slot_le x w c in_w in
      for_below-Within (body y x) (dst + (y * w + x) * c) 8 (fits y x) k
        (for_below x (pixel y) (for_below y line m)) a (omega (arith, below, left, out))
      ∙ for_below-Within (pixel y) (dst + y * (w * c)) c (pixel-Within y) x (for_below y line m) a
          (omega (arith, below, left, out))
      ∙ for_below-Within line dst (w * c) line-Within y m a (omega (arith, below, left, out))

  pub pass-at :
      (y x k l : ℕ) (m : Bytes)
      → y < h
      → x < w
      → k * 8 + 8 ≤ c
      → l < 8
      → for_below h line m (dst + (y * w + x) * c + k * 8 + l)
        ≡ body y x k (found y x k m) (dst + (y * w + x) * c + k * 8 + l)
  pass-at y x k l m in_h in_w in_c lane =
      let left = slot_le x w c in_w in
      let m1 = for_below y line m in
      let m2 = for_below x (pixel y) m1 in
      let a = dst + (y * w + x) * c + k * 8 + l in
      let e : a ≡ dst + y * (w * c) + (x * c + k * 8 + l) = omega arith in
      let e' : a ≡ dst + y * (w * c) + x * c + (k * 8 + l) = omega arith in
      ap (for_below h line m) e
      ∙ for_below-at line dst (w * c) line-Within h y (x * c + k * 8 + l) m in_h
          (omega (arith, left))
      ∙ ap (line y m1) (sym e ∙ e')
      ∙ for_below-at (pixel y) (dst + y * (w * c)) c (pixel-Within y) w x (k * 8 + l) m1 in_w
          (omega arith)
      ∙ ap (pixel y x m2) (sym e')
      ∙ for_below-at (body y x) (dst + (y * w + x) * c) 8 (fits y x) (rounds c) k l m2
          (omega (arith, rounds-size c whole)) lane
