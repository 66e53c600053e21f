-- ===== src/Wake/Safety.antt =====
-- The states that the moves of the wake protocol lead to.
use tpa.Base.{ℕ, ◌<◌, ◌≡◌, ◌≢◌, ◌⊎◌, Bool, true, false, inl, inr, arith, ap, refl, ◌∙◌}
use tpa.Wake.{Bed, SleeperPc, WakerPc, SleeperMove, Night, Step, Reach, evening}
use tpa.Wake.Invariant.{Inv, NoneAt, is_waking, owes_wake, is_announcing}
use tpa.Wake.Moves.{SleeperMove-Inv, WakerMove-Inv}

evening-Inv : (n : ℕ) → Inv (evening n).bed SleeperPc.busy (evening n).wakers
evening-Inv n = ground arith

Step-Inv : {s t : Night} → Step s t → Inv s.bed s.sleeper s.wakers → Inv t.bed t.sleeper t.wakers
Step-Inv {s} (Step.sleeper_moves move) inv = SleeperMove-Inv s.wakers move inv
Step-Inv {s} (Step.waker_moves i move) inv = WakerMove-Inv s.wakers i inv refl move

pub Reach-Inv : {n : ℕ} {s : Night} → Reach n s → Inv s.bed s.sleeper s.wakers
Reach-Inv {n} Reach.start = evening-Inv n
Reach-Inv (Reach.later before step) = Step-Inv step (Reach-Inv before)

abbrev pub AllIdle : (ℕ → WakerPc) → Type 0
AllIdle wakers = (i : ℕ) → wakers i ≡ WakerPc.idle

idle-NoneAt :
    (at : WakerPc → Bool) {wakers : ℕ → WakerPc}
    → at WakerPc.idle ≡ false
    → AllIdle wakers
    → NoneAt at wakers
idle-NoneAt at none all i = ap at (all i) ∙ none

module _ {b : Bed} {wakers : ℕ → WakerPc} (inv : Inv b SleeperPc.wait wakers)
    (all : AllIdle wakers) where
  -- A bell that has rung has sent a wake.
  rung-credits : (b.rx.bell ≡ 1) ⊎ (0 < b.credits) → 0 < b.credits
  rung-credits (inl rings) = inv.rung rings refl (idle-NoneAt is_waking refl all)
  rung-credits (inr more) = more

  pub first-credits : b.rx.bits 0 ≢ 0 → 0 < b.credits
  first-credits set = rung-credits (inv.first refl set (idle-NoneAt owes_wake refl all))

  pub second-credits : b.rx.bits 1 ≢ 0 → 0 < b.credits
  second-credits set = rung-credits (inv.second refl set (idle-NoneAt owes_wake refl all))

  pub done-credits : b.done ≡ true → 0 < b.credits
  done-credits over = inv.done refl over (idle-NoneAt is_announcing refl all)

  pub failed-credits : b.failed ≡ true → 0 < b.credits
  failed-credits over = inv.failed refl over (idle-NoneAt is_announcing refl all)

  -- Without a wake on its way there is nothing to wake up for.
  silent :
      b.credits ≡ 0 → (b.rx.bits 0 ≡ 0) × (b.rx.bits 1 ≡ 0) × (b.done ≡ false) × (b.failed ≡ false)
  silent none = ground (arith, first-credits, second-credits, done-credits, failed-credits)

-- However the harts interleave: when a hart waits for a wake and none is on its way, and no other
-- hart is in the middle of waking it or of announcing the end, then none of its ready bits is set,
-- processes are still alive, and nothing has failed. No wake is lost.
pub no_lost_wakeup :
    {n : ℕ} {b : Bed} {wakers : ℕ → WakerPc}
    → Reach n (record { bed = b; sleeper = SleeperPc.wait; wakers = wakers })
    → AllIdle wakers
    → b.credits ≡ 0
    → (b.rx.bits 0 ≡ 0) × (b.rx.bits 1 ≡ 0) × (b.done ≡ false) × (b.failed ≡ false)
no_lost_wakeup reach all none = silent (Reach-Inv reach) all none

-- The moves of the sleeper alone.
pub data SleeperRun (s : Night) : Night → Type 0 where
  stays : SleeperRun s s
  goes :
      {t : Night} {b : Bed} {p : SleeperPc}
      → SleeperRun s t
      → SleeperMove t.bed t.sleeper b p
      → SleeperRun s (record t { bed = b; sleeper = p })
