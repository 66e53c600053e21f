-- ===== src/Attention/Pipeline/Verdict.antt =====
-- The verdict of `attention_output_check` (attention/attention_output.c).
use tpa.Base.{
  ℕ, zero, suc, ◌<◌, ◌≤◌, ◌≡◌, Bool, true, false, ◌==◌, ◌&&◌, not, if◌then◌else◌, some, List, [],
  ◌∷◌, ◌++◌, refl, ap, sym, ◌∙◌, arith, Bool-cases, inl, inr,
}
use tpa.Attention.{
  Float, Matrix, SoftmaxPacket, heads, seq_len, head_dim, softmax_packet_bytes, absf, tolerance,
  reference_output_value,
}
use tpa.Attention.Unit.{
  TensorUnit, Et, Multiplies, matmul_16x16, store_rf_16x16, load_normal, multiply,
}
use tpa.Attention.Tensor.{ended, after, matmul-ended, product-normal}
use tpa.Attention.Program.{Report, trace_head, fail, Result, stop_failed}
use tpa.Depth.Program.{tpa_stop}
use tpa.Attention.Program.Output.{
  OutputWs, Progress, all_below, all_heads, close, validate_output, right_head,
  compute_output_packet, multiplied, multiply_head, validate_head, over_heads, check_end,
  output_check,
}

-- A list of reports that ends in `TEST_PASS`.
abbrev pub ends_in_pass : List Report → Bool
ends_in_pass [] = false
ends_in_pass (Report.test_pass ∷ []) = true
ends_in_pass (r ∷ []) = false
ends_in_pass (r ∷ s ∷ rest) = ends_in_pass (s ∷ rest)

ends-++ :
    (rs : List Report) (r : Report) (rest : List Report)
    → ends_in_pass (rs ++ r ∷ rest) ≡ ends_in_pass (r ∷ rest)
ends-++ [] r rest = refl
ends-++ (a ∷ []) r rest = refl
ends-++ (a ∷ b ∷ rs) r rest = ends-++ (b ∷ rs) r rest

if_true : {A : Type 0} (b : Bool) (x y : A) → b ≡ true → (if b then x else y) ≡ x
if_true b x y e = ap (λ c. if c then x else y) e

pub if_false : {A : Type 0} (b : Bool) (x y : A) → b ≡ false → (if b then x else y) ≡ y
if_false b x y e = ap (λ c. if c then x else y) e

pub all_below-same :
    (n : ℕ) (f g : ℕ → Bool) → ((i : ℕ) → i < n → f i ≡ g i) → all_below n f ≡ all_below n g
all_below-same zero f g same = refl
all_below-same (suc n) f g same =
    ap (λ b. b && f n) (all_below-same n f g (λ i lt. same i (omega arith)))
    ∙ ap (λ b. all_below n g && b) (same n (omega arith))

-- The output of a head, as the unit multiplies.
abbrev pub head_output :
    (fl : Float) → ((ℕ → fl.F) → (ℕ → fl.F) → fl.F) → (ℕ → SoftmaxPacket fl) → ℕ → Matrix fl
head_output fl dot pkt head row dim = dot ((pkt head).weight row) (λ k. (pkt head).v k dim)

-- Every entry of every head's output is close to the reference.
abbrev pub all_close :
    (fl : Float) → ((ℕ → fl.F) → (ℕ → fl.F) → fl.F) → (ℕ → SoftmaxPacket fl) → Bool
all_close fl dot pkt = all_below heads (λ head.
    all_below seq_len (λ row. all_below head_dim (close fl (head_output fl dot pkt head) head row)))

module _ (fl : Float) (unit : TensorUnit fl) where
  over_heads-on :
      (n : ℕ) (round : ℕ → Progress fl unit → Progress fl unit) (p : Progress fl unit)
      → (over_heads fl unit n round p).going ≡ true
      → over_heads fl unit (suc n) round p ≡ round n (over_heads fl unit n round p)
  over_heads-on n round p on =
      if_true (over_heads fl unit n round p).going (round n (over_heads fl unit n round p)) _ on

  over_heads-off :
      (n : ℕ) (round : ℕ → Progress fl unit → Progress fl unit) (p : Progress fl unit)
      → (over_heads fl unit n round p).going ≡ false
      → over_heads fl unit (suc n) round p ≡ over_heads fl unit n round p
  over_heads-off n round p off =
      if_false (over_heads fl unit n round p).going (round n (over_heads fl unit n round p)) _ off

  abbrev valid : OutputWs fl → ℕ → Bool
  valid ws head = validate_output fl (ws.pkt head) (ws.output head) head

  validate_head-valid :
      (head : ℕ) (p : Progress fl unit)
      → p.going ≡ true
      → ((validate_head fl unit head p).ws ≡ p.ws)
        × ((validate_head fl unit head p).going ≡ valid p.ws head)
  validate_head-valid head p going = elim (Bool-cases (valid p.ws head)) [
    | inl right ↦ rw right (refl, going)
    | inr wrong ↦ rw wrong (refl, refl)
  ]

  -- The rounds of the second loop: they leave the workspace, and go on as long as the heads are right.
  validate-rounds :
      (n : ℕ) (p : Progress fl unit)
      → p.going ≡ true
      → ((over_heads fl unit n (validate_head fl unit) p).ws ≡ p.ws)
        × ((over_heads fl unit n (validate_head fl unit) p).going ≡ all_below n (valid p.ws))
  validate-rounds zero p going = (refl, going)
  validate-rounds (suc n) p going =
      let before = over_heads fl unit n (validate_head fl unit) p in
      let (same, so_far) = validate-rounds n p going in
      elim (Bool-cases before.going) [
        | inl on ↦
            (let (same_one, one) = validate_head-valid n before on in
              let next = over_heads-on n (validate_head fl unit) p on in
              let all : all_below n (valid p.ws) ≡ true = sym so_far ∙ on in
              (
                ap (λ q. q.ws) next ∙ same_one ∙ same,
                ap (λ q. q.going) next
                    ∙ one
                    ∙ ap (λ ws. valid ws n) same
                    ∙ ap (λ b. b && valid p.ws n) (sym all),
              ))
        | inr off ↦
            (let next = over_heads-off n (validate_head fl unit) p off in
              let not_all : all_below n (valid p.ws) ≡ false = sym so_far ∙ off in
              (
                ap (λ q. q.ws) next ∙ same,
                ap (λ q. q.going) next ∙ off ∙ ap (λ b. b && valid p.ws n) (sym not_all),
              ))
      ]

  module _ (dot : (ℕ → fl.F) → (ℕ → fl.F) → fl.F) (law : Multiplies fl unit dot)
      (no_error : (lhs rhs : ℕ → ℕ → fl.F) (transform : ℕ) (s : unit.S)
        → unit.error (multiply fl unit lhs rhs transform s) ≡ 0)
      (w : OutputWs fl) (pkt : ℕ → SoftmaxPacket fl)
      (there : (head : ℕ) → head < heads → w.pkt head ≡ some (pkt head))
      (numbered : (head : ℕ) → head < heads → (pkt head).head ≡ head)
      (whole : (head : ℕ) → head < heads → w.len head ≡ softmax_packet_bytes) where
    -- After `n` rounds of the first loop.
    record Multiplied (n : ℕ) (p : Progress fl unit) : Type 0 where
      going : p.going ≡ true
      same_pkt : p.ws.pkt ≡ w.pkt
      same_len : p.ws.len ≡ w.len
      outputs :
          (head row dim : ℕ)
          → head < n
          → row < 16
          → dim < 16
          → p.ws.output head row dim ≡ head_output fl dot pkt head row dim

    -- The round of a head multiplies and goes on.
    multiply_head-some :
        (n : ℕ) (p : Progress fl unit)
        → n < heads
        → Multiplied n p
        → multiply_head fl unit n p
          ≡ multiplied fl unit n
              (record p { reports = p.reports ++ trace_head 2809528320 n ∷ [] })
              (
                some (
                    store_rf_16x16 fl unit
                      (ended fl unit dot law (pkt n).weight (pkt n).v load_normal p.et)),
                after fl unit dot law (pkt n).weight (pkt n).v load_normal p.et,
              )
    multiply_head-some n p lt so_far =
        let k = pkt n in
        let len_right : not (p.ws.len n == softmax_packet_bytes) ≡ false =
          ap (λ len. not (len n == softmax_packet_bytes)) so_far.same_len
          ∙ ap (λ len. not (len == softmax_packet_bytes)) (whole n lt) in
        let present : p.ws.pkt n ≡ some k = ap (λ f. f n) so_far.same_pkt ∙ there n lt in
        let right : right_head fl k n ≡ true = ground (arith, numbered n lt, lt) in
        if_false (not (p.ws.len n == softmax_packet_bytes)) _ _ len_right
        ∙ ap
            (λ o.
              multiplied fl unit n
                (record p { reports = p.reports ++ trace_head 2809528320 n ∷ [] })
                (compute_output_packet fl unit o n p.et))
            present
        ∙ ap
            (multiplied fl unit n
              (record p { reports = p.reports ++ trace_head 2809528320 n ∷ [] }))
            (if_true (right_head fl k n) (matmul_16x16 fl unit k.weight k.v load_normal p.et) _
                right
              ∙ matmul-ended fl unit dot law k.weight k.v load_normal p.et
                  (no_error k.weight k.v load_normal _))

    multiply_head-Multiplied :
        (n : ℕ) (p : Progress fl unit)
        → n < heads
        → Multiplied n p
        → Multiplied (suc n) (multiply_head fl unit n p)
    multiply_head-Multiplied n p lt so_far = rw (multiply_head-some n p lt so_far) (record {
      going = so_far.going;
      same_pkt = so_far.same_pkt;
      same_len = so_far.same_len;
      outputs = λ head row dim below in_row in_dim. elim (Bool-cases (head == n)) [
        | inl same ↦
            (let e : head ≡ n = ground arith in
              let self : (n == n) ≡ true = ground arith in
              rw (e, self)
                (product-normal fl unit dot law (pkt n).weight (pkt n).v p.et row dim
                  (no_error (pkt n).weight (pkt n).v load_normal _) in_row in_dim))
        | inr other ↦ rw other (so_far.outputs head row dim (ground arith) in_row in_dim)
      ];
    })

    multiply-rounds :
        (n : ℕ) (p : Progress fl unit)
        → n ≤ heads
        → Multiplied 0 p
        → Multiplied n (over_heads fl unit n (multiply_head fl unit) p)
    multiply-rounds zero p le start = start
    multiply-rounds (suc n) p le start =
        let so_far = multiply-rounds n p (omega arith) start in
        rw (over_heads-on n (multiply_head fl unit) p so_far.going) (
          multiply_head-Multiplied n (over_heads fl unit n (multiply_head fl unit) p) (omega arith)
            so_far)

    closes-same :
        (p : Progress fl unit) (head : ℕ)
        → Multiplied heads p
        → head < heads
        → valid p.ws head
          ≡ all_below seq_len
              (λ row. all_below head_dim (close fl (head_output fl dot pkt head) head row))
    closes-same p head done lt =
        let k = pkt head in
        let present : p.ws.pkt head ≡ some k = ap (λ f. f head) done.same_pkt ∙ there head lt in
        let right : right_head fl k head ≡ true = ground (arith, numbered head lt, lt) in
        ap (λ o. validate_output fl o (p.ws.output head) head) present
        ∙ ap
            (λ b.
              b
              && all_below seq_len
                  (λ row. all_below head_dim (close fl (p.ws.output head) k.head row)))
            right
        ∙ ap
            (λ h. all_below seq_len (λ row. all_below head_dim (close fl (p.ws.output head) h row)))
            (numbered head lt)
        ∙ all_below-same seq_len (λ row. all_below head_dim (close fl (p.ws.output head) head row))
            (λ row. all_below head_dim (close fl (head_output fl dot pkt head) head row))
            (λ row in_row.
              all_below-same head_dim (close fl (p.ws.output head) head row)
                (close fl (head_output fl dot pkt head) head row)
                (λ dim in_dim.
                  ap
                    (λ got.
                      fl.le (absf fl (fl.sub got (reference_output_value fl head row dim)))
                        (tolerance fl))
                    (done.outputs head row dim lt in_row in_dim)))

    abbrev passed : Progress fl unit → Result fl (OutputWs fl) × Et fl unit
    passed p = (
      (
        some p.ws,
        tpa_stop,
        p.reports ++ Report.trace 2809462785 ∷ Report.trace 2810118399 ∷ Report.test_pass ∷ [],
      ),
      p.et,
    )

    abbrev failed : Progress fl unit → Result fl (OutputWs fl) × Et fl unit
    failed p = ((some p.ws, tpa_stop, p.reports ++ fail), p.et)

    check_end-verdict : (p : Progress fl unit) → ends_in_pass ((check_end fl unit p).0.2) ≡ p.going
    check_end-verdict p = elim (Bool-cases p.going) [
      | inl on ↦
          ap (λ r. ends_in_pass (r.0.2)) (if_true p.going (passed p) (failed p) on)
          ∙ ends-++ p.reports (Report.trace 2809462785)
              (Report.trace 2810118399 ∷ Report.test_pass ∷ [])
          ∙ sym on
      | inr off ↦
          ap (λ r. ends_in_pass (r.0.2)) (if_false p.going (passed p) (failed p) off)
          ∙ ends-++ p.reports (Report.trace 2810118382) (Report.test_fail ∷ [])
          ∙ sym off
    ]

    -- The output process passes exactly if every entry of every head's product is close to the
    -- reference. It holds the packets of all four heads, each of the right length and number, and has
    -- received all; its tensor unit multiplies as documented and reports no error.
    pub output_check-verdict :
        (et : Et fl unit)
        → w.received_mask ≡ all_heads
        → ends_in_pass ((output_check fl unit (some w) et).0.2) ≡ all_close fl dot pkt
    output_check-verdict et received =
        let start : Progress fl unit = record { going = true; ws = w; et = et; reports = [] } in
        let multiplied_all = over_heads fl unit heads (multiply_head fl unit) start in
        let done = multiply-rounds heads start (omega arith) (record {
          going = refl;
          same_pkt = refl;
          same_len = refl;
          outputs = λ head row dim below in_row in_dim. absurd (omega arith);
        }) in
        let validated = over_heads fl unit heads (validate_head fl unit) multiplied_all in
        let all_received : not (w.received_mask == all_heads) ≡ false =
          ap (λ mask. not (mask == all_heads)) received in
        ap (λ r. ends_in_pass (r.0.2))
          (if_false (not (w.received_mask == all_heads)) (stop_failed fl (some w), et)
              (if multiplied_all.going
                then check_end fl unit validated
                else check_end fl unit multiplied_all)
              all_received
            ∙ if_true multiplied_all.going (check_end fl unit validated)
                (check_end fl unit multiplied_all) done.going)
        ∙ check_end-verdict validated
        ∙ (validate-rounds heads multiplied_all done.going).1
        ∙ all_below-same heads (valid multiplied_all.ws)
            (λ head.
              all_below seq_len
                (λ row. all_below head_dim (close fl (head_output fl dot pkt head) head row)))
            (λ head lt. closes-same multiplied_all head done lt)
