-- ===== src/Yolo/Loops.antt =====
-- Loops whose rounds write one slot each of a region: what they leave alone, and what a slot holds
-- in the end.
use tpa.Base.{ℕ, zero, suc, ◌+◌, ◌-◌, ◌*◌, ◌≤◌, ◌<◌, ◌≡◌, ◌⊎◌, inl, inr, refl, ap, ◌∙◌, arith}
use tpa.Yolo.Bytes.{Bytes, for_below, scatter8}

-- Outside of `size` bytes from `base` on, nothing changes.
abbrev pub Within : (Bytes → Bytes) → ℕ → ℕ → Type 0
Within body base size = (m : Bytes) (a : ℕ) → (a < base) ⊎ (base + size ≤ a) → body m a ≡ m a

pub slot_le : (j n size : ℕ) → j < n → j * size + size ≤ n * size
slot_le j zero size lt = absurd (omega arith)
slot_le j (suc n) size lt = elim (split j n lt) [
  | inl earlier ↦ omega (arith, slot_le j n size earlier)
  | inr last ↦ rw last (omega arith)
]
  where
    split : (j n : ℕ) → j < suc n → (j < n) ⊎ (j ≡ n)
    split j n lt = omega arith

pub scatter8-Within :
    (dst : ℕ) (lanes : ℕ → ℕ) (m : Bytes) (a : ℕ)
    → (a < dst) ⊎ (dst + 8 ≤ a)
    → scatter8 dst lanes m a ≡ m a
scatter8-Within dst lanes m a out = ground arith

pub scatter8-at :
    (dst : ℕ) (lanes : ℕ → ℕ) (m : Bytes) (i : ℕ) → i < 8 → scatter8 dst lanes m (dst + i) ≡ lanes i
scatter8-at dst lanes m i lt = let e : dst + i - dst ≡ i = omega arith in ground (arith, e)

module _ (body : ℕ → Bytes → Bytes) (base size : ℕ)
    (fits : (j : ℕ) → Within (body j) (base + j * size) size) where
  pub for_below-Within : (n : ℕ) → Within (for_below n body) base (n * size)
  for_below-Within zero m a out = refl
  for_below-Within (suc n) m a out =
      fits n (for_below n body m) a (omega (arith, out))
      ∙ for_below-Within n m a (omega (arith, out))

  -- A slot holds in the end what its own round has left there.
  pub for_below-at :
      (n j i : ℕ) (m : Bytes)
      → j < n
      → i < size
      → for_below n body m (base + j * size + i) ≡ body j (for_below j body m) (base + j * size + i)
  for_below-at zero j i m lt in_slot = absurd (omega arith)
  for_below-at (suc n) j i m lt in_slot = elim (split j n lt) [
    | inl earlier ↦
        fits n (for_below n body m) (base + j * size + i)
          (inl (omega (arith, slot_le j n size earlier)))
        ∙ for_below-at n j i m earlier in_slot
    | inr last ↦ rw last refl
  ]
    where
      split : (j n : ℕ) → j < suc n → (j < n) ⊎ (j ≡ n)
      split j n lt = omega arith

-- Rounds that leave a byte alone can be left out.
pub for_below-after :
    (body : ℕ → Bytes → Bytes) (a i n : ℕ) (m : Bytes)
    → i ≤ n
    → ((j : ℕ) → i ≤ j → j < n → (m : Bytes) → body j m a ≡ m a)
    → for_below n body m a ≡ for_below i body m a
for_below-after body a zero zero m le kept = refl
for_below-after body a (suc i) zero m le kept = absurd (omega arith)
for_below-after body a i (suc n) m le kept = elim (split i n le) [
  | inl later ↦
      kept n later (omega arith) (for_below n body m)
      ∙ for_below-after body a i n m later (λ j from to. kept j from (omega arith))
  | inr last ↦ rw last refl
]
  where
    split : (i n : ℕ) → i ≤ suc n → (i ≤ n) ⊎ (i ≡ suc n)
    split i n le = omega arith

pub for_below-same :
    (n : ℕ) (f g : ℕ → Bytes → Bytes) (m : Bytes)
    → ((j : ℕ) → j < n → (m : Bytes) → f j m ≡ g j m)
    → for_below n f m ≡ for_below n g m
for_below-same zero f g m same = refl
for_below-same (suc n) f g m same =
    same n (omega arith) (for_below n f m)
    ∙ ap (g n) (for_below-same n f g m (λ j lt. same j (omega arith)))

pub rows_le : (x y size : ℕ) → x ≤ y → x * size ≤ y * size
rows_le x y size le = elim (split x y le) [
  | inl before ↦ omega (arith, slot_le x y size before)
  | inr same ↦ rw same (omega arith)
]
  where
    split : (x y : ℕ) → x ≤ y → (x < y) ⊎ (x ≡ y)
    split x y le = omega arith
