-- ===== src/Yolo/Pool/Greatest.antt =====
-- The greatest of a family of bytes, in the signed order.
use tpa.Base.{ℕ, suc, ◌≤◌, ◌≡◌, ◌⊎◌, inl, inr, refl, sym, ◌∙◌, leb, arith, Bool-cases}
use tpa.Yolo.Bytes.{rank, max_int8}

-- `v` is one of `f i`, i ≤ n, and none of them is greater.
pub record Greatest (f : ℕ → ℕ) (n v : ℕ) : Type 0 where
  pub place : ℕ
  pub in_range : place ≤ n
  pub reached : f place ≡ v
  pub above : (i : ℕ) → i ≤ n → rank (f i) ≤ rank v

pub Greatest-first : (f : ℕ → ℕ) → Greatest f 0 (f 0)
Greatest-first f = record {
  place = 0;
  in_range = omega arith;
  reached = refl;
  above = λ i le. let e : i ≡ 0 = omega arith in rw e (omega arith);
}

pub Greatest-next :
    (f : ℕ → ℕ) (n v : ℕ) → Greatest f n v → Greatest f (suc n) (max_int8 v (f (suc n)))
Greatest-next f n v best = elim (Bool-cases (leb (rank (f (suc n))) (rank v))) [
  | inl less ↦ rw less (record {
    place = best.place;
    in_range = omega (arith, best.in_range);
    reached = best.reached;
    above = λ i le. elim (split i n le) [
      | inl earlier ↦ best.above i earlier
      | inr last ↦ rw last (ground arith)
    ];
  })
  | inr more ↦ rw more (record {
    place = suc n;
    in_range = omega arith;
    reached = refl;
    above = λ i le. elim (split i n le) [
      | inl earlier ↦ ground (arith, best.above i earlier, more)
      | inr last ↦ rw last (omega arith)
    ];
  })
]
  where
    split : (i n : ℕ) → i ≤ suc n → (i ≤ n) ⊎ (i ≡ suc n)
    split i n le = omega arith

pub Greatest-same :
    (f g : ℕ → ℕ) (n v : ℕ) → ((i : ℕ) → i ≤ n → f i ≡ g i) → Greatest f n v → Greatest g n v
Greatest-same f g n v same best = record {
  place = best.place;
  in_range = best.in_range;
  reached = sym (same best.place best.in_range) ∙ best.reached;
  above = λ i le. rw (sym (same i le)) (best.above i le);
}
