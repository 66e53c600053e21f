-- ===== src/Yolo/Join.antt =====
-- yolov5n/yolov5n_common.c: `yolov5n_concat2` and `yolov5n_concat4`, which join the channels of two
-- or four tensors of equal height and width.
pub mod InPlace
use tpa.Base.{
  ℕ, ◌+◌, ◌-◌, ◌*◌, ◌%◌, ◌<◌, ◌≡◌, inl, inr, ap, ◌∙◌, arith, ltb, if◌then◌else◌, Bool-cases, ltb→lt,
  ltb→le,
}
use tpa.Yolo.Bytes.{Bytes, for_below, vec_copy_bytes}
use tpa.Yolo.Loops.{Within, for_below-Within, for_below-at, slot_le}
use tpa.Yolo.Rows.{Apart, vec_copy_bytes-Within, vec_copy_bytes-at}

abbrev pub concat2_pixel : ℕ → ℕ → ℕ → ℕ → ℕ → ℕ → Bytes → Bytes
concat2_pixel a a_c b b_c dst pix m =
    let dst_px = dst + pix * (a_c + b_c) in
    vec_copy_bytes (dst_px + a_c) (b + pix * b_c) b_c (vec_copy_bytes dst_px (a + pix * a_c) a_c m)

abbrev pub concat2 : ℕ → ℕ → ℕ → ℕ → ℕ → ℕ → Bytes → Bytes
concat2 a a_c b b_c nr_pix dst = for_below nr_pix (concat2_pixel a a_c b b_c dst)

abbrev pub concat4_pixel : ℕ → ℕ → ℕ → ℕ → ℕ → ℕ → ℕ → Bytes → Bytes
concat4_pixel a b c d c_each dst pix m =
    let dst_px = dst + pix * (c_each * 4) in
    let m1 = vec_copy_bytes dst_px (a + pix * c_each) c_each m in
    let m2 = vec_copy_bytes (dst_px + c_each) (b + pix * c_each) c_each m1 in
    let m3 = vec_copy_bytes (dst_px + 2 * c_each) (c + pix * c_each) c_each m2 in
    vec_copy_bytes (dst_px + 3 * c_each) (d + pix * c_each) c_each m3

abbrev pub concat4 : ℕ → ℕ → ℕ → ℕ → ℕ → ℕ → ℕ → Bytes → Bytes
concat4 a b c d c_each nr_pix dst = for_below nr_pix (concat4_pixel a b c d c_each dst)

module _ (a a_c b b_c nr_pix dst : ℕ) (whole_a : a_c % 8 ≡ 0) (whole_b : b_c % 8 ≡ 0) where
  pub pixel-Within :
      (pix : ℕ) → Within (concat2_pixel a a_c b b_c dst pix) (dst + pix * (a_c + b_c)) (a_c + b_c)
  pixel-Within pix m i out =
      vec_copy_bytes-Within (dst + pix * (a_c + b_c) + a_c) (b + pix * b_c) b_c whole_b
        (vec_copy_bytes (dst + pix * (a_c + b_c)) (a + pix * a_c) a_c m) i (omega (arith, out))
      ∙ vec_copy_bytes-Within (dst + pix * (a_c + b_c)) (a + pix * a_c) a_c whole_a m i
          (omega (arith, out))

  -- `yolov5n_concat2` puts the channels of `b` behind those of `a`: channel ch of each pixel of the
  -- result is channel ch of `a`, or channel ch - a_c of `b` from `a_c` on. The channels of both are
  -- whole vectors of 8 bytes, and `dst` overlaps neither tensor.
  pub concat2-at :
      (m : Bytes) (pix ch : ℕ)
      → pix < nr_pix
      → ch < a_c + b_c
      → Apart dst (nr_pix * (a_c + b_c)) a (nr_pix * a_c)
      → Apart dst (nr_pix * (a_c + b_c)) b (nr_pix * b_c)
      → concat2 a a_c b b_c nr_pix dst m (dst + pix * (a_c + b_c) + ch)
        ≡ (if ltb ch a_c then m (a + pix * a_c + ch) else m (b + pix * b_c + (ch - a_c)))
  concat2-at m pix ch in_pix in_c apart_a apart_b =
      let body = concat2_pixel a a_c b b_c dst in
      let m1 = for_below pix body m in
      let px = dst + pix * (a_c + b_c) in
      let m2 = vec_copy_bytes px (a + pix * a_c) a_c m1 in
      let room = slot_le pix nr_pix (a_c + b_c) in_pix in
      let room_a = slot_le pix nr_pix a_c in_pix in
      let room_b = slot_le pix nr_pix b_c in_pix in
      let slot = for_below-at body dst (a_c + b_c) pixel-Within nr_pix pix ch m in_pix in_c in
      elim (Bool-cases (ltb ch a_c)) [
        | inl first ↦ rw first (
            slot
            ∙ vec_copy_bytes-Within (px + a_c) (b + pix * b_c) b_c whole_b m2 (px + ch)
                (omega (arith, ltb→lt ch a_c first))
            ∙ vec_copy_bytes-at px (a + pix * a_c) a_c m1 ch whole_a
                (omega (arith, room, room_a, apart_a)) (ltb→lt ch a_c first)
            ∙ for_below-Within body dst (a_c + b_c) pixel-Within pix m (a + pix * a_c + ch)
                (omega (arith, room, room_a, apart_a, ltb→lt ch a_c first)))
        | inr second ↦
            (let here : px + ch ≡ px + a_c + (ch - a_c) = omega (arith, ltb→le ch a_c second) in
              rw second (
                slot
                ∙ ap (vec_copy_bytes (px + a_c) (b + pix * b_c) b_c m2) here
                ∙ vec_copy_bytes-at (px + a_c) (b + pix * b_c) b_c m2 (ch - a_c) whole_b
                    (omega (arith, room, room_b, apart_b)) (omega (arith, ltb→le ch a_c second))
                ∙ vec_copy_bytes-Within px (a + pix * a_c) a_c whole_a m1
                    (b + pix * b_c + (ch - a_c))
                    (omega (arith, room, room_b, apart_b, ltb→le ch a_c second))
                ∙ for_below-Within body dst (a_c + b_c) pixel-Within pix m
                    (b + pix * b_c + (ch - a_c))
                    (omega (arith, room, room_b, apart_b, ltb→le ch a_c second))))
      ]

module _ (a b c d c_each nr_pix dst : ℕ) (whole : c_each % 8 ≡ 0) where
  abbrev px : ℕ → ℕ
  px pix = dst + pix * (c_each * 4)

  abbrev join1 : ℕ → Bytes → Bytes
  join1 pix = vec_copy_bytes (px pix) (a + pix * c_each) c_each

  abbrev join2 : ℕ → Bytes → Bytes
  join2 pix m = vec_copy_bytes (px pix + c_each) (b + pix * c_each) c_each (join1 pix m)

  abbrev join3 : ℕ → Bytes → Bytes
  join3 pix m = vec_copy_bytes (px pix + 2 * c_each) (c + pix * c_each) c_each (join2 pix m)

  join1-Within : (pix : ℕ) → Within (join1 pix) (px pix) c_each
  join1-Within pix = vec_copy_bytes-Within (px pix) (a + pix * c_each) c_each whole

  join2-Within : (pix : ℕ) → Within (join2 pix) (px pix) (c_each * 2)
  join2-Within pix m i out =
      vec_copy_bytes-Within (px pix + c_each) (b + pix * c_each) c_each whole (join1 pix m) i
        (omega (arith, out))
      ∙ join1-Within pix m i (omega (arith, out))

  join3-Within : (pix : ℕ) → Within (join3 pix) (px pix) (c_each * 3)
  join3-Within pix m i out =
      vec_copy_bytes-Within (px pix + 2 * c_each) (c + pix * c_each) c_each whole (join2 pix m) i
        (omega (arith, out))
      ∙ join2-Within pix m i (omega (arith, out))

  pixel4-Within : (pix : ℕ) → Within (concat4_pixel a b c d c_each dst pix) (px pix) (c_each * 4)
  pixel4-Within pix m i out =
      vec_copy_bytes-Within (px pix + 3 * c_each) (d + pix * c_each) c_each whole (join3 pix m) i
        (omega (arith, out))
      ∙ join3-Within pix m i (omega (arith, out))
