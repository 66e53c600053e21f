-- ===== src/Attention/Receive.antt =====
-- How `attention_output_after_recv` (attention/attention_output.c) counts the heads.
use tpa.Base.{
  ℕ, zero, suc, ◌+◌, ◌^◌, ◌%◌, ◌<◌, ◌≡◌, Bool, true, false, ◌==◌, ◌||◌, not, leb, ltb,
  if◌then◌else◌, some, refl, ap, ◌∙◌, arith, bit_or, Bool-cases, inl, inr,
}
use tpa.Attention.{Float, heads}
use tpa.Attention.Unit.{TensorUnit, Et}
use tpa.Attention.Program.{Report, Symbols, Result, reporting, stop_failed}
use tpa.Attention.Pipeline.Verdict.{if_false}
use tpa.Attention.Program.Output.{
  OutputWs, received_right, output_check, output_recv_next, output_after_recv,
}

-- The bits of the heads below `n`.
abbrev pub mask_below : ℕ → ℕ
mask_below zero = 0
mask_below (suc n) = mask_below n + 2 ^ n

bit_or-mask_below : (n : ℕ) → n < heads → bit_or (mask_below n) (2 ^ n) ≡ mask_below (suc n)
bit_or-mask_below zero lt = refl
bit_or-mask_below (suc zero) lt = refl
bit_or-mask_below (suc (suc zero)) lt = refl
bit_or-mask_below (suc (suc (suc zero))) lt = refl
bit_or-mask_below (suc (suc (suc (suc n)))) lt = absurd (omega arith)

leb-missing : (n : ℕ) → n < heads → leb heads n ≡ false
leb-missing n lt = ground (arith, lt)

ltb-last : (n : ℕ) → n < heads → ltb (suc n) heads ≡ not (n == 3)
ltb-last n lt = elim (Bool-cases (n == 3)) [
  | inl last ↦ ground (arith, last)
  | inr more ↦ ground (arith, more, lt)
]

if_not : {A : Type 0} (b : Bool) (x y : A) → (if not b then x else y) ≡ (if b then y else x)
if_not true x y = refl
if_not false x y = refl

small : (n : ℕ) → n < heads → (n + 1) % 2 ^ 32 ≡ suc n
small n lt = ground (arith, lt)

module _ (fl : Float) (unit : TensorUnit fl) (at : Symbols) (chan : ℕ → ℕ) where
  -- `n` heads have come in, in the order of their ports.
  pub record Counted (n : ℕ) (w : OutputWs fl) : Type 0 where
    pub port : w.next_port ≡ n
    pub mask : w.received_mask ≡ mask_below n

  abbrev pub counted : OutputWs fl → OutputWs fl
  counted w = record w {
    received_mask = bit_or w.received_mask (2 ^ w.next_port);
    next_port = (w.next_port + 1) % 2 ^ 32;
  }

  counted-Counted :
      (n : ℕ) (w : OutputWs fl) → n < heads → Counted n w → Counted (suc n) (counted w)
  counted-Counted n w lt so_far = record {
    port = ap (λ k. (k + 1) % 2 ^ 32) so_far.port ∙ small n lt;
    mask =
        ap (λ m. bit_or m (2 ^ w.next_port)) so_far.mask
        ∙ ap (λ k. bit_or (mask_below n) (2 ^ k)) so_far.port
        ∙ bit_or-mask_below n lt;
  }

  -- What comes after a packet of the right head: as long as heads are missing, the process asks for
  -- the next one, and then it checks.
  abbrev pub next_or_check : ℕ → OutputWs fl → Et fl unit → Result fl (OutputWs fl) × Et fl unit
  next_or_check n w et =
      let checked = output_check fl unit (some w) et in
      if n == 3
      then (reporting fl (Report.trace 2809462786) checked.0, checked.1)
      else (output_recv_next fl unit at chan (some w), et)

  -- A packet of the right length and head that comes in after `n` others, at most 3, in the order
  -- of their ports, leaves a workspace that counts one more head, and the process asks for the
  -- next head, or, after the fourth, checks them all, with the mask of all heads.
  pub output_after_recv-Counted :
      (n : ℕ) (w : OutputWs fl) (et : Et fl unit)
      → n < heads
      → Counted n w
      → received_right fl unit at chan (w.pkt n) (w.len n) n ≡ true
      → (output_after_recv fl unit at chan (some w) et ≡ next_or_check n (counted w) et)
        × Counted (suc n) (counted w)
  output_after_recv-Counted n w et lt so_far right =
      let next = counted-Counted n w lt so_far in
      let there : (leb heads w.next_port
            || not (
                received_right fl unit at chan (w.pkt w.next_port) (w.len w.next_port) w.next_port))
          ≡ false =
        ap (λ k. leb heads k || not (received_right fl unit at chan (w.pkt k) (w.len k) k))
          so_far.port
        ∙ ap (λ b. leb heads n || not b) right
        ∙ ap (λ b. b || false) (leb-missing n lt) in
      let more : ltb (counted w).next_port heads ≡ not (n == 3) =
        ap (λ k. ltb k heads) next.port ∙ ltb-last n lt in
      let go_on : Result fl (OutputWs fl) × Et fl unit =
        (output_recv_next fl unit at chan (some (counted w)), et) in
      let checked = output_check fl unit (some (counted w)) et in
      let at_end : Result fl (OutputWs fl) × Et fl unit =
        (reporting fl (Report.trace 2809462786) checked.0, checked.1) in
      (
        if_false
              (leb heads w.next_port
                || not (
                    received_right fl unit at chan (w.pkt w.next_port) (w.len w.next_port)
                      w.next_port))
              (stop_failed fl (some w), et)
              (if ltb (counted w).next_port heads then go_on else at_end) there
            ∙ ap (λ b. if b then go_on else at_end) more
            ∙ if_not (n == 3) go_on at_end,
        next,
      )
