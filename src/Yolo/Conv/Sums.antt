-- ===== src/Yolo/Conv/Sums.antt =====
-- The rounds of `run_tensor_block` (yolov5n/yolov5n_common.c): what the sums of the tensor unit hold.
use tpa.Base.{
  ℕ, zero, suc, ◌+◌, ◌*◌, ◌%◌, ◌^◌, ◌≤◌, ◌<◌, ◌≡◌, ◌⊎◌, refl, ap, sym, ◌∙◌, Bool, false, ◌==◌,
  if◌then◌else◌, arith,
}
use tpa.Yolo.Bytes.{Bytes}
use tpa.Yolo.Layer.{TensorLayer}
use tpa.Yolo.Conv.{TensorUnit, tl8_wblk, multiply_block, k_round, rounds_of, quantised, Wait}

-- `k` products added to a sum.
abbrev pub mul_sum : {V : Type 0} → (V → ℕ → ℕ → V) → ℕ → V → (ℕ → ℕ) → (ℕ → ℕ) → V
mul_sum madd zero v x y = v
mul_sum madd (suc k) v x y = madd (mul_sum madd k v x y) (x k) (y k)

-- The four bytes of a word.
abbrev pub word : Bytes → ℕ → ℕ
word m a = m a + 256 * m (a + 1) + 65536 * m (a + 2) + 16777216 * m (a + 3)

-- What a load can read: rows from an address that is a multiple of `align`, a multiple of 64 apart, in
-- the lower half of the 48 bits of an address.
abbrev pub Loadable : (align base stride : ℕ) → Type 0
Loadable align base stride = (base % align ≡ 0) × (stride % 64 ≡ 0) × (base + 64 * stride < 2 ^ 47)

-- What a store can write: rows of 16 bytes at multiples of 16. The code counts them in 32 bits.
abbrev pub Storable : (base stride : ℕ) → Type 0
Storable base stride =
    (base % 16 ≡ 0) × (stride % 16 ≡ 0) × (base + 16 * stride < 2 ^ 47) × (16 * stride ≤ 2 ^ 32)

-- The documented behaviour of the unit, for the addresses and strides that its instructions take: 64
-- bytes for rows and lines, 16 for the rows that are interleaved, and 16 for what is stored.
-- Row r and column c have a sum, to which `madd` adds a product
-- of two bytes. The weights of column c stand in the rows of the second matrix. `post` makes a byte from
-- a sum, a bias and a scale, and a store writes the bytes of 16 rows of 16.
pub record Convolves (unit : TensorUnit) (V : Type 0) (nothing : V) (madd : V → ℕ → ℕ → V)
    (acc : unit.S → ℕ → ℕ → V) (post : V → ℕ → ℕ → ℕ) : Type 0 where
  pub adds :
      (a a_stride b b_stride k : ℕ) (last first : Bool) (m : Bytes) (s : unit.S) (r c : ℕ)
      → k % 4 ≡ 0
      → 4 ≤ k
      → k ≤ 64
      → r < 16
      → c < 16
      → Loadable 64 a a_stride
      → Loadable 16 b b_stride
      → acc (multiply_block unit a a_stride b b_stride k last first m s) r c
        ≡ mul_sum madd k
            (if first then nothing else acc s r c)
            (λ j. m (a + r * a_stride + j))
            (λ j. m (b + j * b_stride + c))
  pub stores :
      (bias scale out stride : ℕ) (m : Bytes) (s : unit.S) (r c : ℕ)
      → 16 ≤ stride
      → r < 16
      → c < 16
      → Loadable 64 bias 64
      → Loadable 64 scale 64
      → Storable out stride
      → (unit.store 1 0 0 15 out stride
            (quantised unit bias scale 16 m (unit.wait Wait.fma_wait s))
            m).1
          (out + r * stride + c)
        ≡ post (acc s r c) (word m (bias + c * 4)) (word m (scale + c * 4))
  pub keeps :
      (out stride : ℕ) (m : Bytes) (s : unit.S) (a : ℕ)
      → ((r : ℕ) → r < 16 → (a < out + r * stride) ⊎ (out + r * stride + 16 ≤ a))
      → Storable out stride
      → (unit.store 1 0 0 15 out stride s m).1 a ≡ m a

-- Row `i` of the weights of a block of output channels.
abbrev pub tl8_row : TensorLayer → ℕ → ℕ → ℕ
tl8_row layer oc_blk i =
    layer.tl8_b + (oc_blk * (layer.k_blocks * layer.k_block) + i) * layer.tl8_row_stride

-- The unit can read the weights, the biases and the scales of a layer.
pub record Placed (layer : TensorLayer) : Type 0 where
  pub weights :
      (oc_blk k_blk : ℕ)
      → oc_blk < layer.oc_blocks
      → k_blk < layer.k_blocks
      → Loadable 16 (tl8_wblk layer oc_blk k_blk) layer.tl8_row_stride
  pub biases :
      (oc_blk : ℕ) → oc_blk < layer.oc_blocks → Loadable 64 (layer.bias_blk + oc_blk * 64) 64
  pub scales :
      (oc_blk : ℕ) → oc_blk < layer.oc_blocks → Loadable 64 (layer.scale_blk + oc_blk * 64) 64

-- The unit can read the 16 rows of a block of input, in every round.
abbrev pub Readable : TensorLayer → ℕ → ℕ → Type 0
Readable layer in_blk in_stride =
    (k_blk : ℕ) → k_blk < layer.k_blocks → Loadable 64 (in_blk + k_blk * layer.k_block) in_stride

module _ {V : Type 0} (madd : V → ℕ → ℕ → V) where
  pub mul_sum-same :
      (k : ℕ) (v : V) (x y x' y' : ℕ → ℕ)
      → ((i : ℕ) → i < k → x i ≡ x' i)
      → ((i : ℕ) → i < k → y i ≡ y' i)
      → mul_sum madd k v x y ≡ mul_sum madd k v x' y'
  mul_sum-same zero v x y x' y' same_x same_y = refl
  mul_sum-same (suc k) v x y x' y' same_x same_y =
      ap (λ a. madd a (x k) (y k))
        (mul_sum-same k v x y x' y' (λ i lt. same_x i (omega arith))
          (λ i lt. same_y i (omega arith)))
      ∙ ap (λ z. madd (mul_sum madd k v x' y') z (y k)) (same_x k (omega arith))
      ∙ ap (madd (mul_sum madd k v x' y') (x' k)) (same_y k (omega arith))

  mul_sum-append :
      (n k : ℕ) (v : V) (x y : ℕ → ℕ)
      → mul_sum madd (n + k) v x y
        ≡ mul_sum madd k (mul_sum madd n v x y) (λ j. x (n + j)) (λ j. y (n + j))
  mul_sum-append n zero v x y = let e : n + 0 ≡ n = omega arith in ap (λ l. mul_sum madd l v x y) e
  mul_sum-append n (suc k) v x y =
      let e : n + suc k ≡ suc (n + k) = omega arith in
      ap (λ l. mul_sum madd l v x y) e
      ∙ ap (λ a. madd a (x (n + k)) (y (n + k))) (mul_sum-append n k v x y)

module _ (unit : TensorUnit) (V : Type 0) (nothing : V) (madd : V → ℕ → ℕ → V)
    (acc : unit.S → ℕ → ℕ → V) (post : V → ℕ → ℕ → ℕ) (law : Convolves unit V nothing madd acc post)
    (layer : TensorLayer) (whole : layer.k_block % 4 ≡ 0) (some_rows : 4 ≤ layer.k_block)
    (few_rows : layer.k_block ≤ 64) (placed : Placed layer) where
  round-acc :
      (in_blk in_stride oc_blk k_blk : ℕ) (m : Bytes) (s : unit.S) (r c : ℕ)
      → r < 16
      → c < 16
      → oc_blk < layer.oc_blocks
      → k_blk < layer.k_blocks
      → Readable layer in_blk in_stride
      → acc (k_round unit layer in_blk in_stride oc_blk m k_blk s) r c
        ≡ mul_sum madd layer.k_block
            (if k_blk == 0 then nothing else acc s r c)
            (λ j. m (in_blk + r * in_stride + (k_blk * layer.k_block + j)))
            (λ j. m (tl8_row layer oc_blk (k_blk * layer.k_block + j) + c))
  round-acc in_blk in_stride oc_blk k_blk m s r c in_row in_col in_oc in_k readable =
      law.adds (in_blk + k_blk * layer.k_block) in_stride (tl8_wblk layer oc_blk k_blk)
        layer.tl8_row_stride layer.k_block (k_blk + 1 == layer.k_blocks) (k_blk == 0) m s r c whole
        some_rows few_rows in_row in_col (readable k_blk in_k)
        (placed.weights oc_blk k_blk in_oc in_k)
      ∙ mul_sum-same madd layer.k_block (if k_blk == 0 then nothing else acc s r c) _ _ _ _
          (λ j lt. ap m (input_at j)) (λ j lt. ap m (weight_at j))
    where
      input_at :
          (j : ℕ)
          → in_blk + k_blk * layer.k_block + r * in_stride + j
            ≡ in_blk + r * in_stride + (k_blk * layer.k_block + j)
      input_at j = omega arith

      weight_at :
          (j : ℕ)
          → tl8_wblk layer oc_blk k_blk + j * layer.tl8_row_stride + c
            ≡ tl8_row layer oc_blk (k_blk * layer.k_block + j) + c
      weight_at j = omega arith

  -- The sums after the rounds: whole rows of input by whole columns of weights.
  pub rounds-acc :
      (n in_blk in_stride oc_blk : ℕ) (m : Bytes) (s : unit.S) (r c : ℕ)
      → r < 16
      → c < 16
      → oc_blk < layer.oc_blocks
      → suc n ≤ layer.k_blocks
      → Readable layer in_blk in_stride
      → acc (rounds_of unit (suc n) (k_round unit layer in_blk in_stride oc_blk m) s) r c
        ≡ mul_sum madd
            (suc n * layer.k_block)
            nothing
            (λ i. m (in_blk + r * in_stride + i))
            (λ i. m (tl8_row layer oc_blk i + c))
  rounds-acc zero in_blk in_stride oc_blk m s r c in_row in_col in_oc in_k readable =
      let e : layer.k_block ≡ 1 * layer.k_block = omega arith in
      let x : ℕ → ℕ = λ i. m (in_blk + r * in_stride + i) in
      let y : ℕ → ℕ = λ i. m (tl8_row layer oc_blk i + c) in
      let from : (i : ℕ) → 0 * layer.k_block + i ≡ i = λ i. omega arith in
      round-acc in_blk in_stride oc_blk 0 m s r c in_row in_col in_oc (omega (arith, in_k)) readable
      ∙ mul_sum-same madd layer.k_block nothing _ _ x y (λ i lt. ap x (from i))
          (λ i lt. ap y (from i))
      ∙ ap (λ l. mul_sum madd l nothing x y) e
  rounds-acc (suc n) in_blk in_stride oc_blk m s r c in_row in_col in_oc in_k readable =
      let so_far =
        rounds-acc n in_blk in_stride oc_blk m s r c in_row in_col in_oc (omega (arith, in_k))
          readable in
      let not_first : (suc n == 0) ≡ false = ground arith in
      let e : suc (suc n) * layer.k_block ≡ suc n * layer.k_block + layer.k_block = omega arith in
      let x : ℕ → ℕ = λ i. m (in_blk + r * in_stride + i) in
      let y : ℕ → ℕ = λ i. m (tl8_row layer oc_blk i + c) in
      round-acc in_blk in_stride oc_blk (suc n) m
        (rounds_of unit (suc n) (k_round unit layer in_blk in_stride oc_blk m) s) r c in_row in_col
        in_oc in_k readable
      ∙ ap
          (λ b.
            mul_sum madd layer.k_block
              (if b
                then nothing
                else acc (rounds_of unit (suc n) (k_round unit layer in_blk in_stride oc_blk m) s) r
                    c)
              (λ j. x (suc n * layer.k_block + j)) (λ j. y (suc n * layer.k_block + j)))
          not_first
      ∙ ap
          (λ v.
            mul_sum madd layer.k_block v (λ j. x (suc n * layer.k_block + j))
              (λ j. y (suc n * layer.k_block + j)))
          so_far
      ∙ sym (mul_sum-append madd (suc n * layer.k_block) layer.k_block nothing x y)
      ∙ ap (λ l. mul_sum madd l nothing x y) (sym e)
