-- ===== src/Step/Bits.antt =====
-- The loop over the ready bits of a word visits the slots whose bits are set, each once, from the
-- lowest on.
use tpa.Base.{
  ℕ, zero, suc, ◌+◌, ◌-◌, ◌*◌, ◌/◌, ◌%◌, ◌^◌, ◌≤◌, ◌<◌, ◌≡◌, ◌≢◌, refl, ap, inl, inr, false, List,
  [], ◌∷◌, bit_and, arith, ◌==◌, if◌then◌else◌, Bool-cases, length, elem,
}
use tpa.Base.Bits.{has_bit, clear_lowest_odd, clear_lowest_even, bit_and-le}
use tpa.State.{Config, Cmd, pure, ◌>>◌, Unit0}
use tpa.Step.{ctz, reload_slot, reload_bits}
use native.Mathlib.Nat.{pow-suc}

-- The positions of the bits of `b`, of `n` bits, counted from `base`, from the lowest on.
unfoldable pub bits_of : ℕ → ℕ → ℕ → List ℕ
bits_of zero base b = []
bits_of (suc n) base b =
    let rest = bits_of n (suc base) (b / 2) in if b % 2 == 0 then rest else base ∷ rest

abbrev pub each : (ℕ → Cmd Unit0) → List ℕ → Cmd Unit0
each f [] = pure tt
each f (s ∷ ss) = f s >> each f ss

length-bits_of : (n base b : ℕ) → length (bits_of n base b) ≤ n
unfolding bits_of
length-bits_of zero base b = omega arith
length-bits_of (suc n) base b = ground (arith, length-bits_of n (suc base) (b / 2))

bits_of-zero : (n base : ℕ) → bits_of n base 0 ≡ []
unfolding bits_of
bits_of-zero zero base = refl
bits_of-zero (suc n) base = bits_of-zero n (suc base)

-- The lowest bit is at `ctz`, and `b & (b - 1)` has the others.
bits_of_step :
    (n base b : ℕ)
    → b ≢ 0
    → b < 2 ^ n
    → bits_of n base b ≡ (base + ctz n b) ∷ bits_of n base (bit_and b (b - 1))
unfolding ctz bits_of
bits_of_step zero base b ne lt = absurd (omega arith)
bits_of_step (suc n) base b ne lt = elim (Bool-cases (b % 2 == 0)) [
  | inl even ↦
      let zero_bit : b % 2 ≡ 0 = ground arith in
      let c : bit_and b (b - 1) ≡ bit_and (b / 2) (b / 2 - 1) * 2 =
        clear_lowest_even b zero_bit ne in
      let low : bit_and b (b - 1) % 2 ≡ 0 = omega arith in
      let high : bit_and b (b - 1) / 2 ≡ bit_and (b / 2) (b / 2 - 1) = omega arith in
      rw (even, low, high)
        (rw (bits_of_step n (suc base) (b / 2) (omega arith) (omega (arith, pow-suc 2 n)))
          (ap (λ (k : ℕ). k ∷ bits_of n (suc base) (bit_and (b / 2) (b / 2 - 1))) (omega arith)))
  | inr odd ↦
      let c : bit_and b (b - 1) ≡ b / 2 * 2 = clear_lowest_odd b (ground arith) in
      let low : bit_and b (b - 1) % 2 ≡ 0 = omega arith in
      let high : bit_and b (b - 1) / 2 ≡ b / 2 = omega arith in
      rw (odd, low, high) (ap (λ (k : ℕ). k ∷ bits_of n (suc base) (b / 2)) (omega arith))
]

elem-bits_of_below : (n base b x : ℕ) → x < base → elem x (bits_of n base b) ≡ false
unfolding bits_of
elem-bits_of_below zero base b x lt = refl
elem-bits_of_below (suc n) base b x lt = ground (arith, elem-bits_of_below n (suc base) (b / 2) x)

-- The slots of a word are those whose bits are set.
pub elem-bits_of : (n base b i : ℕ) → i < n → elem (base + i) (bits_of n base b) ≡ has_bit b i
unfolding bits_of
elem-bits_of zero base b i lt = elim lt [ ]
elem-bits_of (suc n) base b zero lt =
    ground (arith, elem-bits_of_below n (suc base) (b / 2) (base + 0))
elem-bits_of (suc n) base b (suc i) lt =
    let e : base + suc i ≡ suc base + i = omega arith in
    ground (
      arith,
      ap (λ (k : ℕ). elem k (bits_of n (suc base) (b / 2))) e,
      elem-bits_of n (suc base) (b / 2) i,
    )

reload_bits_fuel :
    (cfg : Config) (h word f bits : ℕ)
    → bits < 2 ^ 64
    → length (bits_of 64 (word * 64) bits) < f
    → reload_bits cfg h word f bits ≡ each (reload_slot cfg h) (bits_of 64 (word * 64) bits)
unfolding reload_bits
reload_bits_fuel cfg h word zero bits lt enough = elim enough [ ]
reload_bits_fuel cfg h word (suc f) bits lt enough = elim (Bool-cases (bits == 0)) [
  | inl none_left ↦ rw none_left (let e : bits ≡ 0 = ground arith in rw (e, bits_of-zero) refl)
  | inr some_left ↦ rw some_left (
      let rest = bit_and bits (bits - 1) in
      let e = bits_of_step 64 (word * 64) bits (ground arith) lt in
      let shorter : length (bits_of 64 (word * 64) rest) < f = omega (arith, ap length e) in
      rw
        (e, reload_bits_fuel cfg h word f rest (omega (arith, bit_and-le bits (bits - 1))) shorter))
]

-- The loop of `tpa_reload` over a word of 64 ready bits ends, within 65 rounds. It reloads the
-- slots of a list, one after the other, and a slot of the word is in that list exactly if its bit
-- is set.
pub reload_bits-each :
    (cfg : Config) (h word bits i : ℕ)
    → bits < 2 ^ 64
    → i < 64
    → (reload_bits cfg h word 65 bits ≡ each (reload_slot cfg h) (bits_of 64 (word * 64) bits))
      × (elem (word * 64 + i) (bits_of 64 (word * 64) bits) ≡ has_bit bits i)
reload_bits-each cfg h word bits i lt in_word = (
  reload_bits_fuel cfg h word 65 bits lt (omega (arith, length-bits_of 64 (word * 64) bits)),
  elem-bits_of 64 (word * 64) bits i in_word,
)
