-- ===== src/Yolo/Conv/Layers.antt =====
-- The loops of the two layers (yolov5n/yolov5n_common.c) over blocks of pixels and of output channels.
use tpa.Base.{
  ℕ, zero, suc, ◌+◌, ◌-◌, ◌*◌, ◌/◌, ◌%◌, ◌≤◌, ◌<◌, ◌≡◌, ◌⊎◌, inl, inr, ap, sym, subst, ◌∙◌, Bool,
  true, if◌then◌else◌, arith,
}
use tpa.Yolo.Bytes.{Bytes}
use tpa.Yolo.Layer.{TensorLayer}
use tpa.Yolo.Loops.{slot_le, rows_le}
use tpa.Yolo.Conv.{TensorUnit, Run, run_tensor_block, run_loop, oc_rounds, pix_rounds}
use tpa.Yolo.Conv.Sums.{Placed, Readable, Storable, Convolves, mul_sum, mul_sum-same, word, tl8_row}
use tpa.Yolo.Conv.Block.{Off, activated-same, channel_byte, run_tensor_block-Block}

abbrev pub OutOf : ℕ → ℕ → ℕ → Type 0
OutOf base size a = (a < base) ⊎ (base + size ≤ a)

-- The unit can store every block of 16 pixels and 16 channels of an output.
abbrev pub BlocksStorable : TensorLayer → (dst dst_c nr_blocks : ℕ) → Type 0
BlocksStorable layer dst dst_c nr_blocks =
    (b n : ℕ) → b < nr_blocks → n < layer.oc_blocks → Storable (dst + b * 16 * dst_c + n * 16) dst_c

-- The addresses of the weights, biases, scales and the table of a layer are all in a set.
pub record ConstantsIn (layer : TensorLayer) (Safe : ℕ → Type 0) : Type 0 where
  pub weights :
      (oc_blk i c : ℕ)
      → oc_blk < layer.oc_blocks
      → i < layer.k_blocks * layer.k_block
      → c < 16
      → Safe (tl8_row layer oc_blk i + c)
  pub biases :
      (oc_blk c i : ℕ)
      → oc_blk < layer.oc_blocks
      → c < 16
      → i < 4
      → Safe (layer.bias_blk + oc_blk * 64 + c * 4 + i)
  pub scales :
      (oc_blk c i : ℕ)
      → oc_blk < layer.oc_blocks
      → c < 16
      → i < 4
      → Safe (layer.scale_blk + oc_blk * 64 + c * 4 + i)
  pub table : (v : ℕ) → v < 256 → Safe (layer.lut + v)

word-same :
    (m m' : Bytes) (a : ℕ) → ((i : ℕ) → i < 4 → m' (a + i) ≡ m (a + i)) → word m' a ≡ word m a
word-same m m' a same =
    let e0 : a + 0 ≡ a = omega arith in
    let same0 : m' a ≡ m a = ap m' (sym e0) ∙ same 0 (omega arith) ∙ ap m e0 in
    ap (λ z. z + 256 * m' (a + 1) + 65536 * m' (a + 2) + 16777216 * m' (a + 3)) same0
    ∙ ap (λ z. m a + 256 * z + 65536 * m' (a + 2) + 16777216 * m' (a + 3)) (same 1 (omega arith))
    ∙ ap (λ z. m a + 256 * m (a + 1) + 65536 * z + 16777216 * m' (a + 3)) (same 2 (omega arith))
    ∙ ap (λ z. m a + 256 * m (a + 1) + 65536 * m (a + 2) + 16777216 * z) (same 3 (omega arith))

module _ {V : Type 0} (nothing : V) (madd : V → ℕ → ℕ → V) (post : V → ℕ → ℕ → ℕ)
    (layer : TensorLayer) where
  channel_byte-same :
      (m m' : Bytes) (x x' : ℕ → ℕ) (Safe : ℕ → Type 0) (oc_blk c : ℕ)
      → ConstantsIn layer Safe
      → ((a : ℕ) → Safe a → m' a ≡ m a)
      → ((i : ℕ) → i < layer.k_blocks * layer.k_block → x' i ≡ x i)
      → oc_blk < layer.oc_blocks
      → c < 16
      → channel_byte nothing madd post layer m' x' oc_blk c
        ≡ channel_byte nothing madd post layer m x oc_blk c
  channel_byte-same m m' x x' Safe oc_blk c constants same inputs in_oc in_c =
      let bias = layer.bias_blk + oc_blk * 64 + c * 4 in
      let scale = layer.scale_blk + oc_blk * 64 + c * 4 in
      let w : ℕ → ℕ = λ i. m (tl8_row layer oc_blk i + c) in
      let w' : ℕ → ℕ = λ i. m' (tl8_row layer oc_blk i + c) in
      let n = layer.k_blocks * layer.k_block in
      let sum' = mul_sum madd n nothing x' w' in
      let sum = mul_sum madd n nothing x w in
      activated-same m m' layer.lut (post sum (word m bias) (word m scale))
        (post sum' (word m' bias) (word m' scale))
        (ap (λ v. post v (word m' bias) (word m' scale))
            (mul_sum-same madd n nothing x' w' x w inputs (λ i lt.
              same (tl8_row layer oc_blk i + c) (constants.weights oc_blk i c in_oc lt in_c)))
          ∙ ap (λ b. post sum b (word m' scale))
              (word-same m m' bias
                (λ i lt. same (bias + i) (constants.biases oc_blk c i in_oc in_c lt)))
          ∙ ap (λ b. post sum (word m bias) b)
              (word-same m m' scale
                (λ i lt. same (scale + i) (constants.scales oc_blk c i in_oc in_c lt))))
        (λ v lt. same (layer.lut + v) (constants.table v lt))

if_true : {A : Type 0} (b : Bool) (x y : A) → b ≡ true → (if b then x else y) ≡ x
if_true b x y e = ap (λ c. if c then x else y) e

-- A place of `n` bytes in a row before another row.
row_before : (j n size i : ℕ) → j < n → i < size → j * size + i < n * size
row_before j n size i lt in_row = omega (arith, slot_le j n size lt)

slot_in : (n blocks width c : ℕ) → n < blocks → blocks * 16 ≤ width → c < 16 → n * 16 + c < width
slot_in n blocks width c lt le in_c = omega arith

module _ (unit : TensorUnit) (V : Type 0) (nothing : V) (madd : V → ℕ → ℕ → V)
    (acc : unit.S → ℕ → ℕ → V) (post : V → ℕ → ℕ → ℕ) (law : Convolves unit V nothing madd acc post)
    (no_error : (s : unit.S) → unit.error s ≡ 0) (layer : TensorLayer)
    (whole : layer.k_block % 4 ≡ 0) (some_rows : 4 ≤ layer.k_block) (few_rows : layer.k_block ≤ 64)
    (some_blocks : 1 ≤ layer.k_blocks) (placed : Placed layer) (dst dst_c nr_blocks in_stride : ℕ)
    (m0 : Bytes) (input : ℕ → ℕ → ℕ) (wide : 16 ≤ dst_c) (channels : layer.oc_blocks * 16 ≤ dst_c)
    (Safe : ℕ → Type 0) (constants : ConstantsIn layer Safe)
    (apart : (a : ℕ) → Safe a → OutOf dst (nr_blocks * 16 * dst_c) a)
    (storable : BlocksStorable layer dst dst_c nr_blocks) where
  abbrev expected : ℕ → ℕ → ℕ → ℕ
  expected pix oc_blk c = channel_byte nothing madd post layer m0 (input pix) oc_blk c

  -- The first `b` blocks of pixels are done, and of the next one `n` blocks of channels.
  record Filled (b n : ℕ) (p : Run unit) : Type 0 where
    ok : p.ok ≡ true
    earlier :
        (pix oc_blk c : ℕ)
        → pix < b * 16
        → oc_blk < layer.oc_blocks
        → c < 16
        → p.mem (dst + pix * dst_c + oc_blk * 16 + c) ≡ expected pix oc_blk c
    current :
        (r oc_blk c : ℕ)
        → r < 16
        → oc_blk < n
        → c < 16
        → p.mem (dst + (b * 16 + r) * dst_c + oc_blk * 16 + c) ≡ expected (b * 16 + r) oc_blk c
    safe : (a : ℕ) → Safe a → p.mem a ≡ m0 a

  -- The 16 rows that a block reads.
  abbrev There : ℕ → ℕ → Run unit → Type 0
  There b in_blk p =
      (r i : ℕ)
      → r < 16
      → i < layer.k_blocks * layer.k_block
      → p.mem (in_blk + r * in_stride + i) ≡ input (b * 16 + r) i

  module _ (b in_blk : ℕ) (in_image : b < nr_blocks)
      (input_off : (r i : ℕ)
        → r < 16
        → i < layer.k_blocks * layer.k_block
        → OutOf dst (nr_blocks * 16 * dst_c) (in_blk + r * in_stride + i))
      (readable : Readable layer in_blk in_stride) where
    abbrev out : ℕ → ℕ
    out n = dst + b * 16 * dst_c + n * 16

    region-Off :
        (n a : ℕ) → n < layer.oc_blocks → OutOf dst (nr_blocks * 16 * dst_c) a → Off (out n) dst_c a
    region-Off n a lt away r in_row =
        let row = slot_le (b * 16 + r) (nr_blocks * 16) dst_c (omega (arith, in_image, in_row)) in
        omega (arith, row, away, slot_in n layer.oc_blocks dst_c 15 lt channels (omega arith))

    earlier-Off :
        (n pix oc_blk c : ℕ)
        → pix < b * 16
        → oc_blk < layer.oc_blocks
        → c < 16
        → Off (out n) dst_c (dst + pix * dst_c + oc_blk * 16 + c)
    earlier-Off n pix oc_blk c before in_oc in_c r in_row = inl (
        omega (
          arith,
          slot_le pix (b * 16) dst_c before,
          slot_in oc_blk layer.oc_blocks dst_c c in_oc channels in_c,
        ))

    current-Off :
        (n r' oc_blk c : ℕ)
        → n < layer.oc_blocks
        → oc_blk < n
        → c < 16
        → Off (out n) dst_c (dst + (b * 16 + r') * dst_c + oc_blk * 16 + c)
    current-Off n r' oc_blk c lt before in_c r in_row =
        let mine =
          slot_in oc_blk layer.oc_blocks dst_c c (omega (arith, lt, before)) channels in_c in
        let last = slot_in n layer.oc_blocks dst_c 15 lt channels (omega arith) in
        elim (order r' r) [
          | inl le ↦ inl (omega (arith, rows_le r' r dst_c le, mine, before, in_c))
          | inr gt ↦ inr (omega (arith, slot_le r r' dst_c gt, last))
        ]
      where
        order : (x y : ℕ) → (x ≤ y) ⊎ (y < x)
        order x y = omega arith

    Filled-step :
        (n : ℕ) (p : Run unit)
        → n < layer.oc_blocks
        → Filled b n p
        → There b in_blk p
        → (Filled b (suc n) (run_tensor_block unit layer in_blk in_stride (out n) dst_c n p))
          × There b in_blk (run_tensor_block unit layer in_blk in_stride (out n) dst_c n p)
    Filled-step n p lt so_far there =
        let after = run_tensor_block unit layer in_blk in_stride (out n) dst_c n p in
        let block =
          run_tensor_block-Block unit V nothing madd acc post law no_error layer whole some_rows
            few_rows some_blocks placed in_blk in_stride (out n) dst_c n p wide
            (λ v in_table.
              region-Off n (layer.lut + v) lt (apart (layer.lut + v) (constants.table v in_table)))
            lt readable (storable b n in_image lt) in
        (
          record {
            ok = block.ok;
            earlier = λ pix oc_blk c before in_oc in_c.
                block.kept (dst + pix * dst_c + oc_blk * 16 + c)
                  (earlier-Off n pix oc_blk c before in_oc in_c)
                ∙ so_far.earlier pix oc_blk c before in_oc in_c;
            current = λ r oc_blk c in_row in_oc in_c. elim (split oc_blk n in_oc) [
              | inl before ↦
                  block.kept (dst + (b * 16 + r) * dst_c + oc_blk * 16 + c)
                    (current-Off n r oc_blk c lt before in_c)
                  ∙ so_far.current r oc_blk c in_row before in_c
              | inr now ↦
                  (let place : dst + (b * 16 + r) * dst_c + oc_blk * 16 + c
                        ≡ out n + r * dst_c + c =
                      omega (arith, now) in
                    ap after.mem place
                    ∙ block.bytes r c in_row in_c
                    ∙ channel_byte-same nothing madd post layer m0 p.mem (input (b * 16 + r))
                        (λ i. p.mem (in_blk + r * in_stride + i)) Safe n c constants so_far.safe
                        (λ i in_sum. there r i in_row in_sum) lt in_c
                    ∙ ap (λ o. expected (b * 16 + r) o c) (sym now))
            ];
            safe = λ a is_safe.
                block.kept a (region-Off n a lt (apart a is_safe)) ∙ so_far.safe a is_safe;
          },
          λ r i in_row in_sum.
              block.kept (in_blk + r * in_stride + i)
                (region-Off n (in_blk + r * in_stride + i) lt (input_off r i in_row in_sum))
              ∙ there r i in_row in_sum,
        )
      where
        split : (x y : ℕ) → x < suc y → (x < y) ⊎ (x ≡ y)
        split x y lt = omega arith

    Filled-oc_rounds :
        (n : ℕ) (p : Run unit)
        → n ≤ layer.oc_blocks
        → Filled b 0 p
        → There b in_blk p
        → (Filled b n (
            run_loop unit n
              (λ oc_blk. run_tensor_block unit layer in_blk in_stride (out oc_blk) dst_c oc_blk)
              p))
          × There b in_blk (
              run_loop unit n
                (λ oc_blk. run_tensor_block unit layer in_blk in_stride (out oc_blk) dst_c oc_blk)
                p)
    Filled-oc_rounds zero p le start there = (start, there)
    Filled-oc_rounds (suc n) p le start there =
        let body : ℕ → Run unit → Run unit =
          λ oc_blk. run_tensor_block unit layer in_blk in_stride (out oc_blk) dst_c oc_blk in
        let (so_far, still) = Filled-oc_rounds n p (omega (arith, le)) start there in
        let before = run_loop unit n body p in
        subst (λ q. (Filled b (suc n) q) × There b in_blk q)
          (sym (if_true before.ok (body n before) before so_far.ok))
          (Filled-step n before (omega (arith, le)) so_far still)

  -- Every block of pixels is packed before its rounds: what stands at `in_at` then is its input, and
  -- packing keeps what is safe, and the output.
  module _ (prepare : ℕ → Bytes → Bytes) (in_at : ℕ → ℕ)
      (prepare-safe : (b a : ℕ) (m : Bytes) → b < nr_blocks → Safe a → prepare (b * 16) m a ≡ m a)
      (prepare-output : (b a : ℕ) (m : Bytes)
        → b < nr_blocks
        → dst ≤ a
        → a < dst + nr_blocks * 16 * dst_c
        → prepare (b * 16) m a ≡ m a)
      (prepared : (b : ℕ) (m : Bytes) (r i : ℕ)
        → b < nr_blocks
        → ((a : ℕ) → Safe a → m a ≡ m0 a)
        → r < 16
        → i < layer.k_blocks * layer.k_block
        → prepare (b * 16) m (in_at (b * 16) + r * in_stride + i) ≡ input (b * 16 + r) i)
      (input_off : (b r i : ℕ)
        → b < nr_blocks
        → r < 16
        → i < layer.k_blocks * layer.k_block
        → OutOf dst (nr_blocks * 16 * dst_c) (in_at (b * 16) + r * in_stride + i))
      (readable : (b : ℕ) → b < nr_blocks → Readable layer (in_at (b * 16)) in_stride) where
    abbrev round : ℕ → Run unit → Run unit
    round b p =
        oc_rounds unit layer (in_at (b * 16)) in_stride (dst + b * 16 * dst_c) dst_c
          (record p { mem = prepare (b * 16) p.mem })

    packed-Filled :
        (b : ℕ) (p : Run unit)
        → b < nr_blocks
        → Filled b 0 p
        → Filled b 0 (record p { mem = prepare (b * 16) p.mem })
    packed-Filled b p lt so_far = record {
      ok = so_far.ok;
      earlier = λ pix oc_blk c before in_oc in_c.
          prepare-output b (dst + pix * dst_c + oc_blk * 16 + c) p.mem lt (omega arith) (
            omega (
              arith,
              slot_le pix (nr_blocks * 16) dst_c (omega (arith, before, lt)),
              slot_in oc_blk layer.oc_blocks dst_c c in_oc channels in_c,
            ))
          ∙ so_far.earlier pix oc_blk c before in_oc in_c;
      current = λ r oc_blk c in_row none_yet in_c. absurd (omega (arith, none_yet));
      safe = λ a is_safe. prepare-safe b a p.mem lt is_safe ∙ so_far.safe a is_safe;
    }

    next-Filled : (b : ℕ) (p : Run unit) → Filled b layer.oc_blocks p → Filled (suc b) 0 p
    next-Filled b p done = record {
      ok = done.ok;
      earlier = λ pix oc_blk c before in_oc in_c. elim (split pix b before) [
        | inl long_before ↦ done.earlier pix oc_blk c long_before in_oc in_c
        | inr here ↦
            (let e : b * 16 + (pix - b * 16) ≡ pix = omega (arith, here) in
              ap (λ k. p.mem (dst + k * dst_c + oc_blk * 16 + c)) (sym e)
              ∙ done.current (pix - b * 16) oc_blk c (omega (arith, here, before)) in_oc in_c
              ∙ ap (λ k. expected k oc_blk c) e)
      ];
      current = λ r oc_blk c in_row none_yet in_c. absurd (omega (arith, none_yet));
      safe = done.safe;
    }
      where
        split : (x y : ℕ) → x < suc y * 16 → (x < y * 16) ⊎ (y * 16 ≤ x)
        split x y lt = omega arith

    Filled-pix_rounds :
        (n : ℕ) (p : Run unit) → n ≤ nr_blocks → Filled 0 0 p → Filled n 0 (run_loop unit n round p)
    Filled-pix_rounds zero p le start = start
    Filled-pix_rounds (suc n) p le start =
        let before = run_loop unit n round p in
        let so_far = Filled-pix_rounds n p (omega (arith, le)) start in
        let lt : n < nr_blocks = omega (arith, le) in
        let done =
          Filled-oc_rounds n (in_at (n * 16)) lt (λ r i. input_off n r i lt) (readable n lt)
            layer.oc_blocks (record before { mem = prepare (n * 16) before.mem }) (omega arith)
            (packed-Filled n before lt so_far) (λ r i. prepared n before.mem r i lt so_far.safe) in
        subst (Filled (suc n) 0) (sym (if_true before.ok (round n before) before so_far.ok))
          (next-Filled n (round n before) done.0)

    -- `pix_rounds` fills the output, and reports no error: what the layers have in common.
    pub pix_rounds-at :
        (nr_pix : ℕ) (p : Run unit)
        → nr_pix ≡ nr_blocks * 16
        → p.ok ≡ true
        → p.mem ≡ m0
        → ((pix_rounds unit layer prepare in_at in_stride dst dst_c nr_pix p).ok ≡ true)
          × ((pix oc_blk c : ℕ)
              → pix < nr_pix
              → oc_blk < layer.oc_blocks
              → c < 16
              → (pix_rounds unit layer prepare in_at in_stride dst dst_c nr_pix p).mem
                  (dst + pix * dst_c + oc_blk * 16 + c)
                ≡ expected pix oc_blk c)
          × ((a : ℕ)
              → Safe a
              → (pix_rounds unit layer prepare in_at in_stride dst dst_c nr_pix p).mem a ≡ m0 a)
    pix_rounds-at nr_pix p size begun memory =
        let e : (nr_pix + 15) / 16 ≡ nr_blocks = omega (arith, size) in
        let done = Filled-pix_rounds nr_blocks p (omega arith) (record {
          ok = begun;
          earlier = λ pix oc_blk c before in_oc in_c. absurd (omega (arith, before));
          current = λ r oc_blk c in_row none_yet in_c. absurd (omega (arith, none_yet));
          safe = λ a is_safe. ap (λ m. m a) memory;
        }) in
        let ended : Filled nr_blocks 0 (run_loop unit ((nr_pix + 15) / 16) round p) =
          subst (λ n. Filled nr_blocks 0 (run_loop unit n round p)) (sym e) done in
        (
          ended.ok,
          λ pix oc_blk c in_image in_oc in_c.
              ended.earlier pix oc_blk c (omega (arith, in_image, size)) in_oc in_c,
          ended.safe,
        )
