-- ===== src/Yolo/Pool.antt =====
-- yolov5n/yolov5n_common.c: `yolov5n_maxpool5x5_s1_p2`, the maximum over a window of 5 by 5 pixels,
-- first along the rows, into `tmp`, and then along the columns.
pub mod Greatest
pub mod Line
pub mod Passes
pub mod Window
use tpa.Base.{ℕ, zero, suc, ◌+◌, ◌-◌, ◌*◌, leb, ltb, if◌then◌else◌}
use tpa.Yolo.Bytes.{Bytes, for_below, rounds, vec_copy8, vec_max_inplace8}

-- The first and the last index of a window around `at`, cut off at 0 and at `size`.
abbrev pub window_first : ℕ → ℕ
window_first at = if ltb 2 at then at - 2 else 0

abbrev pub window_last : ℕ → ℕ → ℕ
window_last at size = if leb size (at + 2) then size - 1 else at + 2

-- Eight channels at `dst`: those at `src` of the first index, and then the maximum with those of the
-- `n` indices after it, `step` bytes apart.
abbrev pub max_line : ℕ → ℕ → ℕ → ℕ → Bytes → Bytes
max_line dst src step n m =
    for_below n (λ j. vec_max_inplace8 dst (src + (j + 1) * step)) (vec_copy8 dst src m)

abbrev pub pool_row_pixel : ℕ → ℕ → ℕ → ℕ → ℕ → ℕ → ℕ → Bytes → Bytes
pool_row_pixel src w c tmp y x k =
    max_line (tmp + (y * w + x) * c + k * 8) (src + (y * w + window_first x) * c + k * 8) c
      (window_last x w - window_first x)

abbrev pub pool_rows : ℕ → ℕ → ℕ → ℕ → ℕ → Bytes → Bytes
pool_rows src h w c tmp =
    for_below h (λ y. for_below w (λ x. for_below (rounds c) (pool_row_pixel src w c tmp y x)))

abbrev pub pool_column_pixel : ℕ → ℕ → ℕ → ℕ → ℕ → ℕ → ℕ → ℕ → Bytes → Bytes
pool_column_pixel tmp h w c dst y x k =
    max_line (dst + (y * w + x) * c + k * 8) (tmp + (window_first y * w + x) * c + k * 8) (w * c)
      (window_last y h - window_first y)

abbrev pub pool_columns : ℕ → ℕ → ℕ → ℕ → ℕ → Bytes → Bytes
pool_columns tmp h w c dst =
    for_below h (λ y. for_below w (λ x. for_below (rounds c) (pool_column_pixel tmp h w c dst y x)))

abbrev pub maxpool5x5_s1_p2 : ℕ → ℕ → ℕ → ℕ → ℕ → ℕ → Bytes → Bytes
maxpool5x5_s1_p2 src h w c dst tmp m = pool_columns tmp h w c dst (pool_rows src h w c tmp m)
