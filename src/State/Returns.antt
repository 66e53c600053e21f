-- ===== src/State/Returns.antt =====
-- Total correctness of a command: it returns, and the result and the state it leaves satisfy `P`.
use tpa.Base.{ℕ, ◌≡◌}
use tpa.State.{World, Run, ok, hung, spinning, Cmd, and_then}

abbrev pub Returns : {A : Type 0} → (A → World → Type 0) → Run A → Type 0
Returns P (ok a w) = P a w
Returns P (hung w) = ⊥
Returns P (spinning w) = ⊥

-- The command ends in the endless loop of `channel_bug`, in a state that satisfies `P`.
abbrev pub Hangs : {A : Type 0} → (World → Type 0) → Run A → Type 0
Hangs P (ok a w) = ⊥
Hangs P (hung w) = P w
Hangs P (spinning w) = ⊥

module _ {A : Type 0} (P : A → World → Type 0) where
  pub bind :
      {B : Type 0} (Q : B → World → Type 0) (r : Run A) (k : A → Cmd B)
      → Returns P r
      → ((a : A) (w : World) → P a w → Returns Q (k a w))
      → Returns Q (and_then r k)
  bind Q (ok a w) k p next = next a w p
  bind Q (hung w) k p next = absurd p
  bind Q (spinning w) k p next = absurd p

  pub mono :
      (Q : A → World → Type 0) (r : Run A)
      → Returns P r
      → ((a : A) (w : World) → P a w → Q a w)
      → Returns Q r
  mono Q (ok a w) p weaken = weaken a w p
  mono Q (hung w) p weaken = p
  mono Q (spinning w) p weaken = p

pub both :
    {A : Type 0} (P Q : A → World → Type 0) (r : Run A)
    → Returns P r
    → Returns Q r
    → Returns (λ a w. P a w × Q a w) r
both P Q (ok a w) p q = (p, q)
both P Q (hung w) p q = p
both P Q (spinning w) p q = p

-- No run queue is locked.
abbrev pub LocksFree : World → Type 0
LocksFree w = (h : ℕ) → (w.runq h).lock ≡ 0
