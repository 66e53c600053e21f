-- ===== src/Yolo/Pool/Window.antt =====
-- The two passes of the pool against the windows of the pixels.
use tpa.Base.{ℕ, ◌+◌, ◌-◌, ◌*◌, ◌/◌, ◌%◌, ◌≤◌, ◌<◌, ◌≡◌, ap, sym, ◌∙◌, arith}
use tpa.Yolo.Bytes.{Bytes, rank}
use tpa.Yolo.Loops.{Within, slot_le}
use tpa.Yolo.Rows.{Apart}
use tpa.Yolo.Pool.{
  window_first, window_last, pool_row_pixel, pool_rows, pool_column_pixel, maxpool5x5_s1_p2,
}
use tpa.Yolo.Pool.Greatest.{Greatest, Greatest-same}
use tpa.Yolo.Pool.Line.{max_line-Within, max_line-Greatest}
use tpa.Yolo.Pool.Passes.{found, found-same, pass-at}

-- An index of the window around `at`, and of the image.
abbrev pub Near : ℕ → ℕ → ℕ → Type 0
Near at size i = (at ≤ i + 2) × (i ≤ at + 2) × (i < size)

-- `v` is one of the values of the window around (y, x), and none of them is greater.
pub record WindowMax (value : ℕ → ℕ → ℕ) (h w y x v : ℕ) : Type 0 where
  pub row : ℕ
  pub column : ℕ
  pub row_in : Near y h row
  pub column_in : Near x w column
  pub reached : value row column ≡ v
  pub above : (i j : ℕ) → Near y h i → Near x w j → rank (value i j) ≤ rank v

WindowMax-same :
    (f g : ℕ → ℕ → ℕ) (h w y x u v : ℕ)
    → ((i j : ℕ) → f i j ≡ g i j)
    → u ≡ v
    → WindowMax f h w y x u
    → WindowMax g h w y x v
WindowMax-same f g h w y x u v same e best = record {
  row = best.row;
  column = best.column;
  row_in = best.row_in;
  column_in = best.column_in;
  reached = sym (same best.row best.column) ∙ best.reached ∙ e;
  above = λ i j near_i near_j. rw (sym (same i j), sym e) (best.above i j near_i near_j);
}

Near-window :
    (at size i : ℕ)
    → Near at size i
    → (window_first at ≤ i) × (i - window_first at ≤ window_last at size - window_first at)
Near-window at size i near = ground arith

window-Near :
    (at size j : ℕ)
    → at < size
    → j ≤ window_last at size - window_first at
    → Near at size (window_first at + j)
window-Near at size j lt le = ground arith

module _ (src h w c dst tmp : ℕ) (m : Bytes) (whole : c % 8 ≡ 0)
    (src_tmp : Apart tmp (h * (w * c)) src (h * (w * c)))
    (tmp_dst : Apart dst (h * (w * c)) tmp (h * (w * c))) where
  row-fits :
      (y x k : ℕ) → Within (pool_row_pixel src w c tmp y x k) (tmp + (y * w + x) * c + k * 8) 8
  row-fits y x k =
      max_line-Within (tmp + (y * w + x) * c + k * 8) (src + (y * w + window_first x) * c + k * 8) c
        (window_last x w - window_first x)

  column-fits :
      (y x k : ℕ) → Within (pool_column_pixel tmp h w c dst y x k) (dst + (y * w + x) * c + k * 8) 8
  column-fits y x k =
      max_line-Within (dst + (y * w + x) * c + k * 8) (tmp + (window_first y * w + x) * c + k * 8)
        (w * c) (window_last y h - window_first y)

  -- Where channel l of vector k of a pixel stands, in the tensor.
  vector-inside :
      (y x k l : ℕ)
      → y < h
      → x < w
      → k * 8 + 8 ≤ c
      → l < 8
      → (y * w + x) * c + k * 8 + l < h * (w * c)
  vector-inside y x k l in_h in_w in_c lane =
      omega (arith, slot_le y h (w * c) in_h, slot_le x w c in_w)

  vector-room :
      (y x k : ℕ) → y < h → x < w → k * 8 + 8 ≤ c → (y * w + x) * c + k * 8 + 8 ≤ h * (w * c)
  vector-room y x k in_h in_w in_c = omega (arith, slot_le y h (w * c) in_h, slot_le x w c in_w)

  pub row-Greatest :
      (y x k l : ℕ)
      → y < h
      → x < w
      → k * 8 + 8 ≤ c
      → l < 8
      → Greatest
          (λ j. m (src + (y * w + (window_first x + j)) * c + k * 8 + l))
          (window_last x w - window_first x)
          (pool_rows src h w c tmp m (tmp + (y * w + x) * c + k * 8 + l))
  row-Greatest y x k l in_h in_w in_c lane =
      let body = pool_row_pixel src w c tmp in
      let now = found body h w c tmp whole row-fits y x k m in
      let from = src + (y * w + window_first x) * c + k * 8 in
      let n = window_last x w - window_first x in
      let room : (j : ℕ) → j ≤ n → (y * w + (window_first x + j)) * c + k * 8 + 8 ≤ h * (w * c) =
        λ j le. vector-room y (window_first x + j) k in_h ((window-Near x w j in_w le).2) in_c in
      let best =
        max_line-Greatest (tmp + (y * w + x) * c + k * 8) from c n l now lane
          (λ j le. omega (arith, src_tmp, room j le, vector-room y x k in_h in_w in_c)) in
      rw (pass-at body h w c tmp whole row-fits y x k l m in_h in_w in_c lane) (
        Greatest-same (λ j. now (from + j * c + l))
          (λ j. m (src + (y * w + (window_first x + j)) * c + k * 8 + l)) n _
          (λ j le.
            let e : from + j * c + l ≡ src + (y * w + (window_first x + j)) * c + k * 8 + l =
              omega arith in
            found-same body h w c tmp whole row-fits y x k (from + j * c + l) m in_h in_w
              (omega arith) (omega (arith, src_tmp, room j le))
            ∙ ap m e)
          best)

  column-Greatest :
      (y x k l : ℕ)
      → y < h
      → x < w
      → k * 8 + 8 ≤ c
      → l < 8
      → Greatest
          (λ i. pool_rows src h w c tmp m (tmp + ((window_first y + i) * w + x) * c + k * 8 + l))
          (window_last y h - window_first y)
          (maxpool5x5_s1_p2 src h w c dst tmp m (dst + (y * w + x) * c + k * 8 + l))
  column-Greatest y x k l in_h in_w in_c lane =
      let body = pool_column_pixel tmp h w c dst in
      let m1 = pool_rows src h w c tmp m in
      let now = found body h w c dst whole column-fits y x k m1 in
      let from = tmp + (window_first y * w + x) * c + k * 8 in
      let n = window_last y h - window_first y in
      let room : (i : ℕ) → i ≤ n → ((window_first y + i) * w + x) * c + k * 8 + 8 ≤ h * (w * c) =
        λ i le. vector-room (window_first y + i) x k ((window-Near y h i in_h le).2) in_w in_c in
      let best =
        max_line-Greatest (dst + (y * w + x) * c + k * 8) from (w * c) n l now lane
          (λ i le. omega (arith, tmp_dst, room i le, vector-room y x k in_h in_w in_c)) in
      rw (pass-at body h w c dst whole column-fits y x k l m1 in_h in_w in_c lane) (
        Greatest-same (λ i. now (from + i * (w * c) + l))
          (λ i. m1 (tmp + ((window_first y + i) * w + x) * c + k * 8 + l)) n _
          (λ i le.
            let e : from + i * (w * c) + l ≡ tmp + ((window_first y + i) * w + x) * c + k * 8 + l =
              omega arith in
            found-same body h w c dst whole column-fits y x k (from + i * (w * c) + l) m1 in_h in_w
              (omega arith) (omega (arith, tmp_dst, room i le))
            ∙ ap m1 e)
          best)

  vector-WindowMax :
      (y x k l : ℕ)
      → y < h
      → x < w
      → k * 8 + 8 ≤ c
      → l < 8
      → WindowMax
          (λ i j. m (src + (i * w + j) * c + k * 8 + l))
          h
          w
          y
          x
          (maxpool5x5_s1_p2 src h w c dst tmp m (dst + (y * w + x) * c + k * 8 + l))
  vector-WindowMax y x k l in_h in_w in_c lane =
      let down = column-Greatest y x k l in_h in_w in_c lane in
      let near = window-Near y h down.place in_h down.in_range in
      let along = row-Greatest (window_first y + down.place) x k l (near.2) in_w in_c lane in
      record {
        row = window_first y + down.place;
        column = window_first x + along.place;
        row_in = near;
        column_in = window-Near x w along.place in_w along.in_range;
        reached = along.reached ∙ down.reached;
        above = λ i j near_i near_j.
            let (from_i, to_i) = Near-window y h i near_i in
            let (from_j, to_j) = Near-window x w j near_j in
            let here_i : window_first y + (i - window_first y) ≡ i = omega (arith, from_i) in
            let here_j : window_first x + (j - window_first x) ≡ j = omega (arith, from_j) in
            let across =
              (row-Greatest (window_first y + (i - window_first y)) x k l (omega (arith, near_i))
                  in_w in_c lane).above
                (j - window_first x) to_j in
            let below = down.above (i - window_first y) to_i in
            let value : ℕ → ℕ → ℕ = λ i j. rank (m (src + (i * w + j) * c + k * 8 + l)) in
            rw (sym here_i, sym here_j) (omega (arith, across, below));
      }

  -- The two passes of `yolov5n_maxpool5x5_s1_p2` compute the maximum of each window of 5 by 5 pixels
  -- directly: in every channel of every pixel, the result is one of the bytes of the pixels of the
  -- image that are at most two rows and two columns away, and in the signed order none of these is
  -- greater. The channels are whole vectors of 8 bytes; `tmp` overlaps neither the image nor `dst`.
  pub maxpool-WindowMax :
      (y x ch : ℕ)
      → y < h
      → x < w
      → ch < c
      → WindowMax
          (λ i j. m (src + (i * w + j) * c + ch))
          h
          w
          y
          x
          (maxpool5x5_s1_p2 src h w c dst tmp m (dst + (y * w + x) * c + ch))
  maxpool-WindowMax y x ch in_h in_w in_c =
      let result = maxpool5x5_s1_p2 src h w c dst tmp m in
      WindowMax-same (λ i j. m (src + (i * w + j) * c + ch / 8 * 8 + ch % 8))
        (λ i j. m (src + (i * w + j) * c + ch)) h w y x
        (result (dst + (y * w + x) * c + ch / 8 * 8 + ch % 8)) _ (λ i j. ap m (omega arith))
        (ap result (omega arith))
        (vector-WindowMax y x (ch / 8) (ch % 8) in_h in_w (omega arith) (omega arith))
