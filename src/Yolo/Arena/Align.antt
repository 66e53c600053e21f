-- ===== src/Yolo/Arena/Align.antt =====
-- Rounding up to a multiple of a power of two, and one allocation.
use tpa.Base.{
  ℕ, zero, suc, ◌+◌, ◌-◌, ◌*◌, ◌/◌, ◌%◌, ◌^◌, ◌≤◌, ◌<◌, ◌≡◌, inl, inr, refl, ap, ◌∙◌, arith, true,
  false, ◌||◌, ◌==◌, ltb, if◌then◌else◌, Option, none, some, bit_and, Bool-cases, ltb→le,
}
use native.Mathlib.Nat.{
  pow-suc, mod-lt, mod-add-div', mul-mod_left, div-div-eq-div-mul, pow-le-pow_right, one-le-pow,
}
use tpa.Base.Bits.{bit_and_step}
use tpa.Yolo.Arena.{ArenaState, align_up, arena_take}

-- `~0u` masks nothing, once it has enough bits.
mask_none : (n x : ℕ) → x < 2 ^ n → bit_and x (2 ^ n - 1) ≡ x
mask_none zero x lt = let e : x ≡ 0 = omega arith in rw e refl
mask_none (suc n) x lt =
    let p = pow-suc 2 n in
    let half : (2 ^ suc n - 1) / 2 ≡ 2 ^ n - 1 = omega (arith, p) in
    omega (
      arith,
      p,
      bit_and_step x (2 ^ suc n - 1),
      ap (bit_and (x / 2)) half,
      mask_none n (x / 2) (omega (arith, p)),
    )

-- A mask of n ones, then k zeros.
mask_low : (k n x : ℕ) → x < 2 ^ n * 2 ^ k → bit_and x ((2 ^ n - 1) * 2 ^ k) ≡ x / 2 ^ k * 2 ^ k
mask_low zero n x lt =
    let e : (2 ^ n - 1) * 1 ≡ 2 ^ n - 1 = omega arith in
    ap (bit_and x) e ∙ mask_none n x (omega (arith, lt)) ∙ omega arith
mask_low (suc k) n x lt =
    let p = pow-suc 2 k in
    let mask = (2 ^ n - 1) * 2 ^ k in
    let twice : (2 ^ n - 1) * 2 ^ suc k ≡ mask * 2 = ap (λ z. (2 ^ n - 1) * z) p ∙ omega arith in
    let half : mask * 2 / 2 ≡ mask = omega arith in
    let steps : x / 2 / 2 ^ k ≡ x / 2 ^ suc k =
      div-div-eq-div-mul x 2 (2 ^ k) ∙ ap (λ z. x / z) (omega (arith, p)) in
    let rest = mask_low k n (x / 2) (omega (arith, ap (λ z. 2 ^ n * z) p, lt)) in
    ap (bit_and x) twice
    ∙ bit_and_step x (mask * 2)
    ∙ omega (
      arith,
      p,
      ap (bit_and (x / 2)) half,
      rest,
      ap (λ z. z * 2 ^ k) steps,
      ap (λ z. x / 2 ^ suc k * z) p,
    )

-- The least multiple of `2 ^ k` that is not below `at`.
abbrev pub aligned : ℕ → ℕ → ℕ
aligned at k = (at + (2 ^ k - 1)) / 2 ^ k * 2 ^ k

pub aligned-bounds : (at k : ℕ) → (at ≤ aligned at k) × (aligned at k < at + 2 ^ k)
aligned-bounds at k =
    let one = one-le-pow k 2 (omega arith) in
    let whole = mod-add-div' (at + (2 ^ k - 1)) (2 ^ k) in
    let rest = mod-lt (at + (2 ^ k - 1)) one in
    (omega (arith, one, whole, rest), omega (arith, one, whole))

pub aligned-multiple : (at k : ℕ) → aligned at k % 2 ^ k ≡ 0
aligned-multiple at k = mul-mod_left ((at + (2 ^ k - 1)) / 2 ^ k) (2 ^ k)

pow-split : (j k : ℕ) → 2 ^ j * 2 ^ k ≡ 2 ^ (j + k)
pow-split zero k = let e : 0 + k ≡ k = omega arith in rw e (omega arith)
pow-split (suc j) k =
    let e : suc j + k ≡ suc (j + k) = omega arith in
    let doubled : 2 ^ (suc j + k) ≡ 2 ^ (j + k) * 2 = ap (λ n. 2 ^ n) e ∙ pow-suc 2 (j + k) in
    omega (arith, doubled, ap (λ z. z * 2 ^ k) (pow-suc 2 j), pow-split j k)

pow-32 : (k : ℕ) → k ≤ 31 → (2 ^ (32 - k) * 2 ^ k ≡ 2 ^ 32) × (2 ^ k ≤ 2 ^ 31)
pow-32 k le =
    let e : 32 - k + k ≡ 32 = omega arith in
    (pow-split (32 - k) k ∙ ap (λ n. 2 ^ n) e, pow-le-pow_right (omega arith) le)

pub align_up-aligned : (at k : ℕ) → k ≤ 31 → at ≤ 2 ^ 31 → align_up at (2 ^ k) ≡ aligned at k
align_up-aligned at k le small =
    let one = one-le-pow k 2 (omega arith) in
    let (all_bits, few) = pow-32 k le in
    let sum : (at + 2 ^ k + (2 ^ 32 - 1)) % 2 ^ 32 ≡ at + (2 ^ k - 1) = omega (arith, one, few) in
    let mask : 2 ^ 32 - 1 - (2 ^ k + (2 ^ 32 - 1)) % 2 ^ 32 ≡ (2 ^ (32 - k) - 1) * 2 ^ k =
      (let more : 2 ^ (32 - k) ≡ 2 ^ (32 - k) - 1 + 1 =
          omega (arith, one-le-pow (32 - k) 2 (omega arith)) in
        omega (arith, one, few, all_bits, ap (λ z. z * 2 ^ k) more)) in
    ap (λ z. bit_and z (2 ^ 32 - 1 - (2 ^ k + (2 ^ 32 - 1)) % 2 ^ 32)) sum
    ∙ ap (bit_and (at + (2 ^ k - 1))) mask
    ∙ mask_low k (32 - k) (at + (2 ^ k - 1)) (omega (arith, all_bits, one, few))

-- An arena between two calls. No arena is as large as half of the 32-bit address space.
pub record IsArena (st : ArenaState) : Type 0 where
  pub small : st.cap ≤ 2 ^ 31
  pub declared : st.declared_cap ≤ st.cap
  pub used : st.brk ≤ st.cap

abbrev pub limit_of : ArenaState → ℕ
limit_of st = if st.declared_cap == 0 then st.cap else st.declared_cap

abbrev pub taken : ℕ → ℕ → ArenaState → ArenaState
taken off bytes st = record st {
  brk = off + bytes;
  hi = if ltb st.hi (off + bytes) then off + bytes else st.hi;
}

-- What is left of `arena_take` once the offset is known.
abbrev end_at : ℕ → ArenaState → ℕ → Option (ℕ × ArenaState)
end_at bytes st off =
    let end = (off + bytes % 2 ^ 32) % 2 ^ 32 in
    if ltb end off || ltb (limit_of st) end || ltb st.cap end
    then none
    else some (off, record st { brk = end; hi = if ltb st.hi end then end else st.hi })

abbrev end_of : ℕ → ℕ → ℕ
end_of bytes off = (off + bytes % 2 ^ 32) % 2 ^ 32

pub limit-cap : (st : ArenaState) → IsArena st → limit_of st ≤ st.cap
limit-cap st is = ground arith

end_at-lem :
    (bytes off : ℕ) (st : ArenaState)
    → IsArena st
    → off < 2 ^ 32
    → bytes < 2 ^ 32
    → end_at bytes st off
      ≡ (if ltb (limit_of st) (off + bytes) then none else some (off, taken off bytes st))
end_at-lem bytes off st is small fits =
    let bound = limit-cap st is in
    elim (Bool-cases (ltb (limit_of st) (off + bytes))) [
      | inl over ↦
          let test : (ltb (end_of bytes off) off
                || ltb (limit_of st) (end_of bytes off)
                || ltb st.cap (end_of bytes off))
              ≡ true =
            ground (arith, bound, over) in
          rw (test, over) refl
      | inr enough ↦
          let e : (off + bytes % 2 ^ 32) % 2 ^ 32 ≡ off + bytes =
            omega (arith, bound, ltb→le _ _ enough, is.small) in
          let test : (ltb (off + bytes) off
                || ltb (limit_of st) (off + bytes)
                || ltb st.cap (off + bytes))
              ≡ false =
            ground (arith, bound, ltb→le _ _ enough) in
          rw (e, test, enough) refl
    ]

-- The 32-bit arithmetic of `yolov5n_arena_alloc` does not go wrong: on an arena of at most 2 GB, for
-- less than 4 GB at an alignment of `2 ^ k`, it gives the block at the next aligned offset if that
-- ends within the declared limit, and traps otherwise.
pub arena_take-aligned :
    (bytes k : ℕ) (st : ArenaState)
    → IsArena st
    → k ≤ 31
    → bytes < 2 ^ 32
    → arena_take bytes (2 ^ k) st ≡ (
        if ltb (limit_of st) (aligned st.brk k + bytes)
        then none
        else some (aligned st.brk k, taken (aligned st.brk k) bytes st))
arena_take-aligned bytes k st is le fits =
    let one = one-le-pow k 2 (omega arith) in
    let few = (pow-32 k le).1 in
    let align : (if 2 ^ k == 0 then 1 else 2 ^ k) % 2 ^ 32 ≡ 2 ^ k = ground (arith, one, few) in
    let offset = align_up-aligned st.brk k le (omega (arith, is.small, is.used)) in
    let bound = (aligned-bounds st.brk k).1 in
    ap (λ a. end_at bytes st (align_up st.brk a)) align
    ∙ ap (end_at bytes st) offset
    ∙ end_at-lem bytes (aligned st.brk k) st is (omega (arith, bound, few, is.small, is.used)) fits
