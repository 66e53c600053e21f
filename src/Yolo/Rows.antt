-- ===== src/Yolo/Rows.antt =====
-- Rows of bytes that are whole vectors: what `vec_copy_bytes` and `vec_zero_bytes` do to them.
use tpa.Base.{ℕ, ◌+◌, ◌*◌, ◌/◌, ◌%◌, ◌≤◌, ◌<◌, ◌≡◌, ◌⊎◌, ◌∙◌, arith}
use tpa.Yolo.Bytes.{Bytes, for_below, rounds, vec_copy8, vec_zero8, vec_copy_bytes, vec_zero_bytes}
use tpa.Yolo.Loops.{Within, for_below-Within, for_below-at, scatter8-Within, scatter8-at}

-- Two regions without a byte in common.
abbrev pub Apart : ℕ → ℕ → ℕ → ℕ → Type 0
Apart a len b size = (a + len ≤ b) ⊎ (b + size ≤ a)

pub rounds-size : (n : ℕ) → n % 8 ≡ 0 → rounds n * 8 ≡ n
rounds-size n whole = omega arith

module _ (dst src : ℕ) where
  copy8-Within : (k : ℕ) → Within (vec_copy8 (dst + k * 8) (src + k * 8)) (dst + k * 8) 8
  copy8-Within k m a out = scatter8-Within (dst + k * 8) (λ i. m (src + k * 8 + i)) m a out

  pub vec_copy_bytes-Within : (n : ℕ) → n % 8 ≡ 0 → Within (vec_copy_bytes dst src n) dst n
  vec_copy_bytes-Within n whole m a out =
      for_below-Within (λ k. vec_copy8 (dst + k * 8) (src + k * 8)) dst 8 copy8-Within (rounds n) m
        a (omega (arith, rounds-size n whole, out))

  pub vec_copy_bytes-at :
      (n : ℕ) (m : Bytes) (i : ℕ)
      → n % 8 ≡ 0
      → Apart dst n src n
      → i < n
      → vec_copy_bytes dst src n m (dst + i) ≡ m (src + i)
  vec_copy_bytes-at n m i whole apart lt =
      let body : ℕ → Bytes → Bytes = λ k. vec_copy8 (dst + k * 8) (src + k * 8) in
      let before = for_below (i / 8) body m in
      let here : dst + i ≡ dst + i / 8 * 8 + i % 8 = omega arith in
      let there : src + i ≡ src + i / 8 * 8 + i % 8 = omega arith in
      let slot =
        for_below-at body dst 8 copy8-Within (rounds n) (i / 8) (i % 8) m (omega arith)
          (omega arith) in
      let lane =
        scatter8-at (dst + i / 8 * 8) (λ l. before (src + i / 8 * 8 + l)) before (i % 8)
          (omega arith) in
      let kept =
        for_below-Within body dst 8 copy8-Within (i / 8) m (src + i / 8 * 8 + i % 8)
          (omega (arith, apart)) in
      rw (here, there) (slot ∙ lane ∙ kept)

module _ (dst : ℕ) where
  zero8-Within : (k : ℕ) → Within (vec_zero8 (dst + k * 8)) (dst + k * 8) 8
  zero8-Within k m a out = scatter8-Within (dst + k * 8) (λ i. 0) m a out

  pub vec_zero_bytes-Within : (n : ℕ) → n % 8 ≡ 0 → Within (vec_zero_bytes dst n) dst n
  vec_zero_bytes-Within n whole m a out =
      for_below-Within (λ k. vec_zero8 (dst + k * 8)) dst 8 zero8-Within (rounds n) m a
        (omega (arith, rounds-size n whole, out))

  pub vec_zero_bytes-at : (n : ℕ) (m : Bytes) (i : ℕ) → i < n → vec_zero_bytes dst n m (dst + i) ≡ 0
  vec_zero_bytes-at n m i lt =
      let body : ℕ → Bytes → Bytes = λ k. vec_zero8 (dst + k * 8) in
      let before = for_below (i / 8) body m in
      let here : dst + i ≡ dst + i / 8 * 8 + i % 8 = omega arith in
      let slot =
        for_below-at body dst 8 zero8-Within (rounds n) (i / 8) (i % 8) m (omega arith)
          (omega arith) in
      let lane = scatter8-at (dst + i / 8 * 8) (λ l. 0) before (i % 8) (omega arith) in
      rw here (slot ∙ lane)
