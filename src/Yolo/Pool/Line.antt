-- ===== src/Yolo/Pool/Line.antt =====
-- The loop that takes the maximum along one line.
use tpa.Base.{ℕ, zero, suc, ◌+◌, ◌*◌, ◌≤◌, ◌<◌, ◌≡◌, ◌⊎◌, ap, sym, ◌∙◌, arith}
use tpa.Yolo.Bytes.{Bytes, vec_copy8, vec_max_inplace8, max_int8}
use tpa.Yolo.Loops.{Within, for_below-after, scatter8-Within, scatter8-at}
use tpa.Yolo.Pool.{max_line}
use tpa.Yolo.Pool.Greatest.{Greatest, Greatest-first, Greatest-next}

module _ (dst src step : ℕ) where
  pub max_line-Within : (n : ℕ) → Within (max_line dst src step n) dst 8
  max_line-Within n m a out =
      for_below-after (λ j. vec_max_inplace8 dst (src + (j + 1) * step)) a 0 n (vec_copy8 dst src m)
        (omega arith)
        (λ j from to m'.
          scatter8-Within dst (λ i. max_int8 (m' (dst + i)) (m' (src + (j + 1) * step + i))) m' a
            out)
      ∙ scatter8-Within dst (λ i. m (src + i)) m a out

  -- In each of the eight channels, the line's greatest byte is found, if the line is read from
  -- elsewhere.
  pub max_line-Greatest :
      (n l : ℕ) (m : Bytes)
      → l < 8
      → ((j : ℕ) → j ≤ n → (src + j * step + 8 ≤ dst) ⊎ (dst + 8 ≤ src + j * step))
      → Greatest (λ j. m (src + j * step + l)) n (max_line dst src step n m (dst + l))
  max_line-Greatest zero l m lane apart =
      let copied = scatter8-at dst (λ i. m (src + i)) m l lane in
      let e : src + 0 * step + l ≡ src + l = omega arith in
      rw (copied ∙ ap m (sym e)) (Greatest-first (λ j. m (src + j * step + l)))
  max_line-Greatest (suc n) l m lane apart =
      let before = max_line dst src step n m in
      let f : ℕ → ℕ = λ j. m (src + j * step + l) in
      let e : src + (n + 1) * step + l ≡ src + suc n * step + l = omega arith in
      let joined =
        scatter8-at dst (λ i. max_int8 (before (dst + i)) (before (src + (n + 1) * step + i)))
          before l lane in
      let kept =
        max_line-Within n m (src + (n + 1) * step + l)
          (omega (arith, apart (suc n) (omega arith))) in
      rw (joined ∙ ap (max_int8 (before (dst + l))) (kept ∙ ap m e)) (
        Greatest-next f n (before (dst + l))
          (max_line-Greatest n l m lane (λ j le. apart j (omega arith))))
