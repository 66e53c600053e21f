-- ===== src/Depth/Cost.antt =====
-- The search for the best disparity.
use tpa.Base.{
  ℕ, zero, suc, ◌%◌, ◌^◌, ◌≤◌, ◌<◌, ◌≡◌, ◌⊎◌, inl, inr, refl, ap, sym, arith, Bool-cases, ltb,
  lt→ltb,
}
use tpa.Depth.{dmax, cost_at, best_after, best_disparity}

module _ (cost : ℕ → ℕ) where
  best_after-least : (n d : ℕ) → d < n → (best_after cost n).0 ≤ cost d
  unfolding best_after
  best_after-least zero d lt = elim lt [ ]
  best_after-least (suc n) d lt =
      let same = λ (e : d ≡ n). ap cost e in ground (arith, best_after-least n d, same)

  best_after-below : (n : ℕ) → (best_after cost n).1 ≤ n
  unfolding best_after
  best_after-below zero = omega arith
  best_after-below (suc n) =
      let low : n % 256 ≤ n = omega arith in ground (arith, low, best_after-below n)

  -- No earlier disparity is as good.
  best_after-first :
      (n d : ℕ) → n ≤ 256 → d < n → ((best_after cost n).1 ≤ d) ⊎ ((best_after cost n).0 < cost d)
  unfolding best_after
  best_after-first zero d in_range lt = elim lt [ ]
  best_after-first (suc n) d in_range lt =
      let low : n % 256 ≡ n = omega arith in
      let same = λ (e : d ≡ n). ap cost e in
      let before = best_after-first n d (omega arith) in
      ground (arith, low, same, before, best_after-least n d, best_after-below n)

  best_after-attained :
      (n : ℕ)
      → n < 256
      → ((d : ℕ) → cost d < 0xffff_ffff)
      → ((best_after cost (suc n)).0 ≡ cost (best_after cost (suc n)).1)
        × ((best_after cost (suc n)).1 ≤ n)
  unfolding best_after
  best_after-attained zero in_range low = rw (lt→ltb _ _ (low 0)) (refl, omega arith)
  best_after-attained (suc n) in_range low =
      let below : suc n % 256 ≡ suc n = omega arith in
      let before = best_after-attained n (omega arith) low in
      elim (Bool-cases (ltb (cost (suc n)) (best_after cost (suc n)).0)) [
        | inl better ↦ rw (better) (ap cost (sym below), omega arith)
        | inr worse ↦ rw (worse) (before.0, omega (arith, before.1))
      ]

cost_at-low : (left right : ℕ → ℕ) (x local_y d : ℕ) → cost_at left right x local_y d < 2 ^ 16
cost_at-low left right x local_y d = omega arith

-- The search for the best disparity gives one of the disparities, together with its cost. No
-- disparity costs less, and every smaller one costs more.
pub best_disparity-least :
    (left right : ℕ → ℕ) (x local_y d : ℕ)
    → d < dmax
    → let (best_d, best_cost) = best_disparity left right x local_y in
      (best_d < dmax)
      × (best_cost ≡ cost_at left right x local_y best_d)
      × (best_cost ≤ cost_at left right x local_y d)
      × ((best_d ≤ d) ⊎ (best_cost < cost_at left right x local_y d))
best_disparity-least left right x local_y d lt =
    let cost = cost_at left right x local_y in
    let best = best_after cost 32 in
    let got =
      best_after-attained cost 31 (omega arith)
        (λ e. omega (arith, cost_at-low left right x local_y e)) in
    let low : best.0 % 2 ^ 16 ≡ best.0 =
      omega (arith, got.0, cost_at-low left right x local_y best.1) in
    rw low (
      omega (arith, got.1),
      got.0,
      best_after-least cost 32 d lt,
      best_after-first cost 32 d (omega arith) lt,
    )
