-- ===== src/Yolo/Bytes.antt =====
-- The vector operations of yolov5n/yolov5n_common.c, on eight bytes at a time, and the loops over
-- them. An `int8_t` is the byte that holds it.
use tpa.Base.{ℕ, zero, suc, ◌+◌, ◌-◌, ◌*◌, ◌/◌, ◌%◌, ◌&&◌, leb, ltb, if◌then◌else◌}

abbrev pub Bytes : Type 0
Bytes = ℕ → ℕ

-- `for (i = 0; i < n; ++i)`
abbrev pub for_below : ℕ → (ℕ → Bytes → Bytes) → Bytes → Bytes
for_below zero body m = m
for_below (suc n) body m = body n (for_below n body m)

-- The rounds of `for (off = 0; off < n; off += 8)`.
abbrev pub rounds : ℕ → ℕ
rounds n = (n + 7) / 8

-- `fscb.ps`: eight lanes go to eight bytes.
abbrev pub scatter8 : ℕ → (ℕ → ℕ) → Bytes → Bytes
scatter8 dst lanes m a = if leb dst a && ltb a (dst + 8) then lanes (a - dst) else m a

abbrev pub vec_copy8 : ℕ → ℕ → Bytes → Bytes
vec_copy8 dst src m = scatter8 dst (λ i. m (src + i)) m

abbrev pub vec_zero8 : ℕ → Bytes → Bytes
vec_zero8 dst m = scatter8 dst (λ i. 0) m

-- The signed order of bytes, as an order of numbers: -128 is the least.
abbrev pub rank : ℕ → ℕ
rank b = (b + 128) % 256

-- `fmax.pi` on two lanes that are sign-extended bytes.
abbrev pub max_int8 : ℕ → ℕ → ℕ
max_int8 x y = if leb (rank y) (rank x) then x else y

abbrev pub vec_max_inplace8 : ℕ → ℕ → Bytes → Bytes
vec_max_inplace8 dst src m = scatter8 dst (λ i. max_int8 (m (dst + i)) (m (src + i))) m

abbrev pub vec_copy_bytes : ℕ → ℕ → ℕ → Bytes → Bytes
vec_copy_bytes dst src n = for_below (rounds n) (λ k. vec_copy8 (dst + k * 8) (src + k * 8))

abbrev pub vec_zero_bytes : ℕ → ℕ → Bytes → Bytes
vec_zero_bytes dst n = for_below (rounds n) (λ k. vec_zero8 (dst + k * 8))
