-- ===== src/Yolo/Conv/Block.antt =====
-- `run_tensor_block` (yolov5n/yolov5n_common.c): the 16 by 16 bytes of a block, and what it leaves alone.
use tpa.Base.{
  ℕ, suc, ◌+◌, ◌-◌, ◌*◌, ◌/◌, ◌%◌, ◌^◌, ◌≤◌, ◌<◌, ◌≡◌, ◌⊎◌, refl, ap, sym, ◌∙◌, Bool, true, false,
  not, ◌==◌, if◌then◌else◌, arith,
}
use tpa.Yolo.Bytes.{Bytes, for_below}
use tpa.Yolo.Layer.{TensorLayer, pix_block}
use tpa.Yolo.Loops.{
  slot_le, for_below-same, Within, for_below-Within, for_below-at, for_below-after, scatter8-Within,
  scatter8-at,
}
use tpa.Yolo.Conv.{
  TensorUnit, Run, Wait, lut8, apply_lut_row, apply_lut_block_rows, k_round, rounds_of, quantised,
  failed, tensor_finish_block_rows, run_tensor_block,
}
use tpa.Yolo.Conv.Sums.{Placed, Readable, Storable, Convolves, mul_sum, word, tl8_row, rounds-acc}

-- Not in 16 bytes of one of the 16 rows.
abbrev pub Off : ℕ → ℕ → ℕ → Type 0
Off out stride a = (r : ℕ) → r < 16 → (a < out + r * stride) ⊎ (out + r * stride + 16 ≤ a)

-- A byte after the table of the activation, if there is one.
abbrev pub activated : Bytes → ℕ → ℕ → ℕ
activated m lut q = if lut == 0 then q else m (lut + q % 256)

-- A round of `apply_lut_block_rows` whose product does not wrap around.
abbrev lut_row : ℕ → ℕ → ℕ → ℕ → Bytes → Bytes
lut_row lut dst stride r = for_below 2 (λ c. lut8 lut (dst + r * stride + c * 8))

apply_lut-rows :
    (lut dst stride : ℕ) (m : Bytes)
    → 16 * stride ≤ 2 ^ 32
    → for_below 16 (apply_lut_row lut dst stride) m ≡ for_below 16 (lut_row lut dst stride) m
apply_lut-rows lut dst stride m fits =
    for_below-same 16 (apply_lut_row lut dst stride) (lut_row lut dst stride) m (λ r lt m1.
      ap (λ o. for_below 2 (λ c. lut8 lut (dst + o + c * 8)) m1)
        (small r (r * stride) (slot_le r 16 stride lt)))
  where
    small : (r o : ℕ) → o + stride ≤ 16 * stride → o % 2 ^ 32 ≡ o
    small r o le = omega (arith, le, fits)

module _ (lut dst stride : ℕ) (wide : 16 ≤ stride) where
  lut8-Within :
      (r c : ℕ) → Within (lut8 lut (dst + r * stride + c * 8)) (dst + r * stride + c * 8) 8
  lut8-Within r c m a out =
      scatter8-Within (dst + r * stride + c * 8)
        (λ i. m (lut + m (dst + r * stride + c * 8 + i) % 256)) m a out

  row-Within : (r : ℕ) → Within (lut_row lut dst stride r) (dst + r * stride) 16
  row-Within r m a out =
      for_below-Within (λ c. lut8 lut (dst + r * stride + c * 8)) (dst + r * stride) 8
        (lut8-Within r) 2 m a out

  row-at :
      (r i : ℕ) (m : Bytes)
      → i < 16
      → ((v : ℕ) → v < 256 → (lut + v < dst + r * stride) ⊎ (dst + r * stride + 16 ≤ lut + v))
      → lut_row lut dst stride r m (dst + r * stride + i) ≡ m (lut + m (dst + r * stride + i) % 256)
  row-at r i m lt apart =
      let base = dst + r * stride in
      let body : ℕ → Bytes → Bytes = λ c. lut8 lut (base + c * 8) in
      let before = for_below (i / 8) body m in
      let here : base + i ≡ base + i / 8 * 8 + i % 8 = omega arith in
      let kept : (a : ℕ) → (a < base) ⊎ (base + i / 8 * 8 ≤ a) → before a ≡ m a =
        λ a out. for_below-Within body base 8 (lut8-Within r) (i / 8) m a out in
      let same : before (base + i / 8 * 8 + i % 8) ≡ m (base + i / 8 * 8 + i % 8) =
        kept (base + i / 8 * 8 + i % 8) (omega arith) in
      let v = m (base + i / 8 * 8 + i % 8) % 256 in
      rw here (
        for_below-at body base 8 (lut8-Within r) 2 (i / 8) (i % 8) m (omega arith) (omega arith)
        ∙ scatter8-at (base + i / 8 * 8) (λ l. before (lut + before (base + i / 8 * 8 + l) % 256))
            before (i % 8) (omega arith)
        ∙ ap (λ b. before (lut + b % 256)) same
        ∙ kept (lut + v) (omega (arith, apart v (omega arith))))

  rows-Within : (r : ℕ) → Within (lut_row lut dst stride r) (dst + r * stride) stride
  rows-Within r m a out = row-Within r m a (omega (arith, wide, out))

  rows-Off :
      (n : ℕ) (m : Bytes) (a : ℕ)
      → n ≤ 16
      → Off dst stride a
      → for_below n (lut_row lut dst stride) m a ≡ m a
  rows-Off n m a le off =
      for_below-after (lut_row lut dst stride) a 0 n m (omega arith)
        (λ j from to m'. row-Within j m' a (off j (omega (arith, le, to))))

  rows-at :
      (r i : ℕ) (m : Bytes)
      → r < 16
      → i < 16
      → ((v : ℕ) → v < 256 → Off dst stride (lut + v))
      → for_below 16 (lut_row lut dst stride) m (dst + r * stride + i)
        ≡ m (lut + m (dst + r * stride + i) % 256)
  rows-at r i m in_row in_col apart =
      let rows = lut_row lut dst stride in
      let before = for_below r rows m in
      let same : before (dst + r * stride + i) ≡ m (dst + r * stride + i) =
        for_below-Within rows dst stride rows-Within r m (dst + r * stride + i) (omega arith) in
      for_below-at rows dst stride rows-Within 16 r i m in_row (omega (arith, wide, in_col))
      ∙ row-at r i before in_col (λ v lt. apart v lt r in_row)
      ∙ ap (λ b. before (lut + b % 256)) same
      ∙ rows-Off r m (lut + m (dst + r * stride + i) % 256) (omega (arith, in_row))
          (apart (m (dst + r * stride + i) % 256) (omega arith))

either-at :
    (b : Bool) (m m' : Bytes) (a v : ℕ)
    → m' a ≡ v
    → (if b then m else m') a ≡ (if b then m a else v)
either-at true m m' a v e = refl
either-at false m m' a v e = e

both_same : {A : Type 0} (b : Bool) (x : A) → (if b then x else x) ≡ x
both_same true x = refl
both_same false x = refl

module _ (layer : TensorLayer) (dst stride : ℕ) (wide : 16 ≤ stride)
    (fits : 16 * stride ≤ 2 ^ 32) where
  apply_lut-at :
      (r i : ℕ) (m : Bytes)
      → r < 16
      → i < 16
      → ((v : ℕ) → v < 256 → Off dst stride (layer.lut + v))
      → apply_lut_block_rows layer dst stride 16 m (dst + r * stride + i) ≡ (
          if layer.lut == 0
          then m (dst + r * stride + i)
          else m (layer.lut + m (dst + r * stride + i) % 256))
  apply_lut-at r i m in_row in_col apart =
      ap (λ looked_up. (if layer.lut == 0 then m else looked_up) (dst + r * stride + i))
        (apply_lut-rows layer.lut dst stride m fits)
      ∙ either-at (layer.lut == 0) m (for_below 16 (lut_row layer.lut dst stride) m)
          (dst + r * stride + i) (m (layer.lut + m (dst + r * stride + i) % 256))
          (rows-at layer.lut dst stride wide r i m in_row in_col apart)

  apply_lut-Off :
      (m : Bytes) (a : ℕ) → Off dst stride a → apply_lut_block_rows layer dst stride 16 m a ≡ m a
  apply_lut-Off m a off =
      ap (λ looked_up. (if layer.lut == 0 then m else looked_up) a)
        (apply_lut-rows layer.lut dst stride m fits)
      ∙ either-at (layer.lut == 0) m (for_below 16 (lut_row layer.lut dst stride) m) a (m a)
          (rows-Off layer.lut dst stride wide 16 m a (omega arith) off)
      ∙ both_same (layer.lut == 0) (m a)

pub three_tests :
    {A : Type 0} (b1 b2 b3 : Bool) (x y z w : A)
    → b1 ≡ true
    → b2 ≡ true
    → b3 ≡ true
    → (if not b1 then x else if not b2 then y else if b3 then z else w) ≡ z
three_tests b1 b2 b3 x y z w e1 e2 e3 = rw (e1, e2, e3) refl

pub is_zero : (n : ℕ) → n ≡ 0 → (n == 0) ≡ true
is_zero n e = rw e refl

pub activated-same :
    (m m' : Bytes) (lut q q' : ℕ)
    → q' ≡ q
    → ((v : ℕ) → v < 256 → m' (lut + v) ≡ m (lut + v))
    → (if lut == 0 then q' else m' (lut + q' % 256)) ≡ activated m lut q
activated-same m m' lut q q' same table =
    ap (λ z. if lut == 0 then z else m' (lut + z % 256)) same
    ∙ ap (λ z. if lut == 0 then q else z) (table (q % 256) (omega arith))

module _ {V : Type 0} (nothing : V) (madd : V → ℕ → ℕ → V) (post : V → ℕ → ℕ → ℕ)
    (layer : TensorLayer) where
  -- The byte of a row of input and an output channel, from the weights in memory.
  abbrev pub channel_byte : Bytes → (ℕ → ℕ) → ℕ → ℕ → ℕ
  channel_byte m x oc_blk c = activated m layer.lut (
      post
        (mul_sum madd (layer.k_blocks * layer.k_block) nothing x
          (λ i. m (tl8_row layer oc_blk i + c)))
        (word m (layer.bias_blk + oc_blk * 64 + c * 4))
        (word m (layer.scale_blk + oc_blk * 64 + c * 4)))

  -- What a block leaves, written at `out`: the bytes of 16 rows of input and 16 channels.
  pub record Block {unit : TensorUnit} (in_blk in_stride out stride oc_blk : ℕ) (m : Bytes)
      (p : Run unit) : Type 0 where
    pub ok : p.ok ≡ true
    pub bytes :
        (r c : ℕ)
        → r < 16
        → c < 16
        → p.mem (out + r * stride + c)
          ≡ channel_byte m (λ i. m (in_blk + r * in_stride + i)) oc_blk c
    pub kept : (a : ℕ) → Off out stride a → p.mem a ≡ m a

module _ (unit : TensorUnit) (V : Type 0) (nothing : V) (madd : V → ℕ → ℕ → V)
    (acc : unit.S → ℕ → ℕ → V) (post : V → ℕ → ℕ → ℕ) (law : Convolves unit V nothing madd acc post)
    (no_error : (s : unit.S) → unit.error s ≡ 0) (layer : TensorLayer)
    (whole : layer.k_block % 4 ≡ 0) (some_rows : 4 ≤ layer.k_block) (few_rows : layer.k_block ≤ 64)
    (some_blocks : 1 ≤ layer.k_blocks) (placed : Placed layer) where
  finished : ℕ → ℕ → ℕ → Bytes → unit.S → unit.S × Bytes
  finished out_blk out_stride oc_blk m s =
      unit.store 1 0 0 15 out_blk out_stride
        (quantised unit (layer.bias_blk + oc_blk * 64) (layer.scale_blk + oc_blk * 64) 16 m
          (unit.wait Wait.fma_wait s))
        m

  finish-ok :
      (out_blk out_stride oc_blk : ℕ) (m : Bytes) (s : unit.S)
      → tensor_finish_block_rows unit layer out_blk out_stride oc_blk pix_block m s ≡ record {
        ok = true;
        state = unit.wait Wait.store_wait (finished out_blk out_stride oc_blk m s).0;
        mem =
            apply_lut_block_rows layer out_blk out_stride pix_block
              (finished out_blk out_stride oc_blk m s).1;
      }
  unfolding finished
  finish-ok out_blk out_stride oc_blk m s =
      let bias = layer.bias_blk + oc_blk * 64 in
      let scale = layer.scale_blk + oc_blk * 64 in
      let s1 = unit.wait Wait.fma_wait s in
      let s2 = quantised unit bias scale 16 m s1 in
      let stored = unit.store 1 0 0 15 out_blk out_stride s2 m in
      let s3 = unit.wait Wait.store_wait stored.0 in
      three_tests (unit.error s1 == 0) (unit.error s2 == 0) (unit.error s3 == 0) (failed unit s1 m)
        (failed unit s2 m)
        (record {
          ok = true;
          state = s3;
          mem = apply_lut_block_rows layer out_blk out_stride pix_block stored.1;
        })
        (failed unit s3 stored.1) (is_zero (unit.error s1) (no_error s1))
        (is_zero (unit.error s2) (no_error s2)) (is_zero (unit.error s3) (no_error s3))

  sums :
      (in_blk in_stride oc_blk : ℕ) (m : Bytes) (s : unit.S) (r c : ℕ)
      → r < 16
      → c < 16
      → oc_blk < layer.oc_blocks
      → Readable layer in_blk in_stride
      → acc (rounds_of unit layer.k_blocks (k_round unit layer in_blk in_stride oc_blk m) s) r c
        ≡ mul_sum madd
            (layer.k_blocks * layer.k_block)
            nothing
            (λ i. m (in_blk + r * in_stride + i))
            (λ i. m (tl8_row layer oc_blk i + c))
  sums in_blk in_stride oc_blk m s r c in_row in_col in_oc readable =
      let n = layer.k_blocks - 1 in
      let e : layer.k_blocks ≡ suc n = omega (arith, some_blocks) in
      ap (λ l. acc (rounds_of unit l (k_round unit layer in_blk in_stride oc_blk m) s) r c) e
      ∙ rounds-acc unit V nothing madd acc post law layer whole some_rows few_rows placed n in_blk
          in_stride oc_blk m s r c in_row in_col in_oc (omega (arith, some_blocks)) readable
      ∙ ap
          (λ l.
            mul_sum madd (l * layer.k_block) nothing (λ i. m (in_blk + r * in_stride + i))
              (λ i. m (tl8_row layer oc_blk i + c)))
          (sym e)

  -- `run_tensor_block` multiplies 16 rows of input with the weights of 16 output channels: byte c of row
  -- r is the quantised and activated sum of row r with channel c, and all other bytes are kept.
  pub run_tensor_block-Block :
      (in_blk in_stride out stride oc_blk : ℕ) (p : Run unit)
      → 16 ≤ stride
      → ((v : ℕ) → v < 256 → Off out stride (layer.lut + v))
      → oc_blk < layer.oc_blocks
      → Readable layer in_blk in_stride
      → Storable out stride
      → Block nothing madd post layer in_blk in_stride out stride oc_blk p.mem
          (run_tensor_block unit layer in_blk in_stride out stride oc_blk p)
  unfolding finished
  run_tensor_block-Block in_blk in_stride out stride oc_blk p wide table in_oc readable storable =
      let s =
        rounds_of unit layer.k_blocks (k_round unit layer in_blk in_stride oc_blk p.mem) p.state in
      let bias = layer.bias_blk + oc_blk * 64 in
      let scale = layer.scale_blk + oc_blk * 64 in
      let after = finish-ok out stride oc_blk p.mem s in
      let m1 = (finished out stride oc_blk p.mem s).1 in
      let stored_off : (a : ℕ) → Off out stride a → m1 a ≡ p.mem a = λ a off.
        law.keeps out stride p.mem (quantised unit bias scale 16 p.mem (unit.wait Wait.fma_wait s))
          a off storable in
      record {
        ok = ap (λ q. q.ok) after;
        bytes = λ r c in_row in_col.
            ap (λ q. q.mem (out + r * stride + c)) after
            ∙ apply_lut-at layer out stride wide storable.3 r c m1 in_row in_col table
            ∙ activated-same p.mem m1 layer.lut
                (post
                  (mul_sum madd (layer.k_blocks * layer.k_block) nothing
                    (λ i. p.mem (in_blk + r * in_stride + i))
                    (λ i. p.mem (tl8_row layer oc_blk i + c)))
                  (word p.mem (bias + c * 4)) (word p.mem (scale + c * 4)))
                (m1 (out + r * stride + c))
                (law.stores bias scale out stride p.mem s r c wide in_row in_col
                    (placed.biases oc_blk in_oc) (placed.scales oc_blk in_oc) storable
                  ∙ ap (λ v. post v (word p.mem (bias + c * 4)) (word p.mem (scale + c * 4)))
                      (sums in_blk in_stride oc_blk p.mem p.state r c in_row in_col in_oc readable))
                (λ v lt. stored_off (layer.lut + v) (table v lt));
        kept = λ a off.
            ap (λ q. q.mem a) after
            ∙ apply_lut-Off layer out stride wide storable.3 m1 a off
            ∙ stored_off a off;
      }
