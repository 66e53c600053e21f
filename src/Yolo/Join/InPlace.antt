-- ===== src/Yolo/Join/InPlace.antt =====
-- `yolov5n_concat2` (yolov5n/yolov5n_common.c) with the first tensor's buffer for the result, as
-- yolov5n/yolov5n_p0.c calls it.
use tpa.Base.{ℕ, zero, suc, ◌+◌, ◌*◌, ◌%◌, ◌≤◌, ◌<◌, ◌≡◌, ap, ◌∙◌, arith}
use tpa.Yolo.Bytes.{Bytes, for_below, vec_copy_bytes}
use tpa.Yolo.Loops.{for_below-at}
use tpa.Yolo.Rows.{Apart, vec_copy_bytes-Within, vec_copy_bytes-at}
use tpa.Yolo.Join.{concat2, concat2_pixel, pixel-Within}

-- If the result of `yolov5n_concat2` goes to the buffer of its first tensor, then the first half of
-- pixel 1 of the result is pixel 0 of the second tensor, and not pixel 1 of the first one: the round of
-- pixel 0 has overwritten it. Both tensors have equally many channels, in whole vectors of 8 bytes, and
-- at least 2 pixels, and the second one does not overlap the result.
pub concat2_in_place-overwrites :
    (a b c nr_pix ch : ℕ) (m : Bytes)
    → c % 8 ≡ 0
    → 2 ≤ nr_pix
    → ch < c
    → Apart a (nr_pix * (c + c)) b (nr_pix * c)
    → concat2 a c b c nr_pix a m (a + (c + c) + ch) ≡ m (b + ch)
concat2_in_place-overwrites a b c nr_pix ch m whole two in_c apart =
    let body = concat2_pixel a c b c a in
    let m1 = for_below 1 body m in
    let px = a + 1 * (c + c) in
    let m2 = vec_copy_bytes px (a + 1 * c) c m1 in
    let first = vec_copy_bytes (a + 0 * (c + c)) (a + 0 * c) c m in
    let second = vec_copy_bytes (a + 0 * (c + c) + c) (b + 0 * c) c first in
    let here : a + (c + c) + ch ≡ px + ch = omega arith in
    let there : a + 1 * c + ch ≡ a + 0 * (c + c) + c + ch = omega arith in
    let source : b + 0 * c + ch ≡ b + ch = omega arith in
    let room_b : 2 * c ≤ nr_pix * c = double c nr_pix two in
    let room_a : 2 * (c + c) ≤ nr_pix * (c + c) = double (c + c) nr_pix two in
    ap (concat2 a c b c nr_pix a m) here
    ∙ for_below-at body a (c + c) (pixel-Within a c b c nr_pix a whole whole) nr_pix 1 ch m
        (omega (arith, two)) (omega (arith, in_c))
    ∙ vec_copy_bytes-Within (px + c) (b + 1 * c) c whole m2 (px + ch) (omega (arith, in_c))
    ∙ vec_copy_bytes-at px (a + 1 * c) c m1 ch whole (omega arith) in_c
    ∙ ap second there
    ∙ vec_copy_bytes-at (a + 0 * (c + c) + c) (b + 0 * c) c first ch whole
        (omega (arith, apart, room_a, room_b)) in_c
    ∙ ap first source
    ∙ vec_copy_bytes-Within (a + 0 * (c + c)) (a + 0 * c) c whole m (b + ch)
        (omega (arith, apart, room_a, room_b, in_c))
  where
    double : (size n : ℕ) → 2 ≤ n → 2 * size ≤ n * size
    double size zero le = absurd (omega (arith, le))
    double size (suc zero) le = absurd (omega (arith, le))
    double size (suc (suc n)) le = omega arith
