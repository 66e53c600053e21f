-- ===== src/Yolo/Residual.antt =====
-- yolov5n/yolov5n_common.c: `yolov5n_add_residual_block`, which adds to each byte of one tensor what
-- a table holds for the byte of another.
use tpa.Base.{
  ℕ, ◌+◌, ◌-◌, ◌*◌, ◌/◌, ◌%◌, ◌≤◌, ◌<◌, ◌≡◌, ◌⊎◌, ap, sym, ◌∙◌, arith, ltb, if◌then◌else◌,
}
use tpa.Yolo.Bytes.{Bytes, for_below, rounds, rank, scatter8}
use tpa.Yolo.Loops.{Within, for_below-Within, for_below-at, scatter8-Within, scatter8-at}
use tpa.Yolo.Rows.{Apart}

-- `fadd.pi` of two lanes that are sign-extended bytes, and then `fsat8.pi`: the sum of two ranks is
-- that of the values and 256, and a rank is a value and 128.
abbrev pub add_sat8 : ℕ → ℕ → ℕ
add_sat8 x y =
    let sum = rank x + rank y in if ltb sum 128 then 128 else if ltb 383 sum then 127 else sum % 256

abbrev pub residual8 : ℕ → ℕ → ℕ → Bytes → Bytes
residual8 src dst residual_lut m =
    scatter8 dst (λ i. add_sat8 (m (residual_lut + m (src + i) % 256)) (m (dst + i))) m

abbrev pub add_residual_block : ℕ → ℕ → ℕ → ℕ → Bytes → Bytes
add_residual_block skip_px body_px n residual_lut =
    for_below (rounds n) (λ k. residual8 (skip_px + k * 8) (body_px + k * 8) residual_lut)

-- The rank of the saturated sum.
pub rank-add_sat8 :
    (x y : ℕ)
    → rank (add_sat8 x y) ≡ (
        if ltb (rank x + rank y) 128
        then 0
        else if ltb 383 (rank x + rank y)
        then 255
        else rank x + rank y - 128)
rank-add_sat8 x y = ground arith

module _ (skip body lut : ℕ) where
  residual-Within : (k : ℕ) → Within (residual8 (skip + k * 8) (body + k * 8) lut) (body + k * 8) 8
  residual-Within k m a out =
      scatter8-Within (body + k * 8)
        (λ i. add_sat8 (m (lut + m (skip + k * 8 + i) % 256)) (m (body + k * 8 + i))) m a out

  -- `yolov5n_add_residual_block` adds to each byte of the body what the table has for the byte of the
  -- skip tensor, and the sum saturates: as signed numbers, it is the exact sum if that is between -128
  -- and 127, and the bound that it passes otherwise (a rank is the signed number and 128). The number
  -- of bytes is a multiple of 8, and neither the skip tensor nor the table overlaps the body.
  pub add_residual_block-at :
      (n i : ℕ) (m : Bytes)
      → n % 8 ≡ 0
      → i < n
      → Apart body n skip n
      → Apart body n lut 256
      → rank (add_residual_block skip body n lut m (body + i)) ≡ (
          let sum = rank (m (lut + m (skip + i) % 256)) + rank (m (body + i)) in
          if ltb sum 128 then 0 else if ltb 383 sum then 255 else sum - 128)
  add_residual_block-at n i m whole lt apart apart_lut =
      let round : ℕ → Bytes → Bytes = λ k. residual8 (skip + k * 8) (body + k * 8) lut in
      let before = for_below (i / 8) round m in
      let here : body + i ≡ body + i / 8 * 8 + i % 8 = omega arith in
      let there : skip + i / 8 * 8 + i % 8 ≡ skip + i = omega arith in
      let kept : (a : ℕ) → (a < body) ⊎ (body + i / 8 * 8 ≤ a) → before a ≡ m a =
        λ a out. for_below-Within round body 8 residual-Within (i / 8) m a out in
      let from_skip = kept (skip + i / 8 * 8 + i % 8) (omega (arith, apart)) ∙ ap m there in
      let from_lut = kept (lut + m (skip + i) % 256) (omega (arith, apart_lut)) in
      let from_body = kept (body + i / 8 * 8 + i % 8) (omega arith) ∙ ap m (sym here) in
      ap (λ a. rank (add_residual_block skip body n lut m a)) here
      ∙ ap rank (
          for_below-at round body 8 residual-Within (rounds n) (i / 8) (i % 8) m (omega arith)
            (omega arith)
          ∙ scatter8-at (body + i / 8 * 8)
              (λ l.
                add_sat8 (before (lut + before (skip + i / 8 * 8 + l) % 256))
                  (before (body + i / 8 * 8 + l)))
              before (i % 8) (omega arith)
          ∙ ap (λ v. add_sat8 (before (lut + v % 256)) (before (body + i / 8 * 8 + i % 8)))
              from_skip
          ∙ ap (λ v. add_sat8 v (before (body + i / 8 * 8 + i % 8))) from_lut
          ∙ ap (add_sat8 (m (lut + m (skip + i) % 256))) from_body)
      ∙ rank-add_sat8 (m (lut + m (skip + i) % 256)) (m (body + i))
