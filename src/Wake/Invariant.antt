-- ===== src/Wake/Invariant.antt =====
-- The invariant of the wake protocol: what a hart that falls asleep relies on.
use tpa.Base.{ℕ, ◌<◌, ◌≡◌, ◌≢◌, ◌⊎◌, Bool, true, false, if◌then◌else◌}
use tpa.Wake.{Bed, SleeperPc, WakerPc}

-- Between the store of 1 and the store of 0 in `armed`.
abbrev pub is_armed : SleeperPc → Bool
is_armed SleeperPc.armed_first = true
is_armed SleeperPc.armed_second = true
is_armed SleeperPc.armed_pop = true
is_armed SleeperPc.check_done = true
is_armed SleeperPc.check_failed = true
is_armed SleeperPc.wait = true
is_armed SleeperPc.disarm = true
is_armed _ = false

-- Awake, and about to clear the bell.
abbrev pub clears_bell : SleeperPc → Bool
clears_bell SleeperPc.disarm = true
clears_bell SleeperPc.silence = true
clears_bell _ = false

-- Word 0 has been taken since the hart was armed.
abbrev pub took_first : SleeperPc → Bool
took_first SleeperPc.armed_second = true
took_first SleeperPc.armed_pop = true
took_first SleeperPc.check_done = true
took_first SleeperPc.check_failed = true
took_first SleeperPc.wait = true
took_first _ = false

abbrev pub took_second : SleeperPc → Bool
took_second SleeperPc.armed_pop = true
took_second SleeperPc.check_done = true
took_second SleeperPc.check_failed = true
took_second SleeperPc.wait = true
took_second _ = false

abbrev pub passed_done : SleeperPc → Bool
passed_done SleeperPc.check_failed = true
passed_done SleeperPc.wait = true
passed_done _ = false

abbrev pub passed_failed : SleeperPc → Bool
passed_failed SleeperPc.wait = true
passed_failed _ = false

abbrev pub is_waking : WakerPc → Bool
is_waking WakerPc.waking = true
is_waking _ = false

-- Has set a bit, and may still send a wake for it.
abbrev pub owes_wake : WakerPc → Bool
owes_wake WakerPc.asking = true
owes_wake WakerPc.ringing = true
owes_wake WakerPc.waking = true
owes_wake _ = false

abbrev pub is_announcing : WakerPc → Bool
is_announcing WakerPc.announcing = true
is_announcing _ = false

-- None of the others is at such a place.
abbrev pub NoneAt : (WakerPc → Bool) → (ℕ → WakerPc) → Type 0
NoneAt at wakers = (i : ℕ) → at (wakers i) ≡ false

pub record Inv (b : Bed) (p : SleeperPc) (wakers : ℕ → WakerPc) : Type 0 where
  pub armed : b.rx.armed ≡ (if is_armed p then 1 else 0)
  pub bell : b.rx.bell < 2
  -- Whoever rang the bell has sent a wake.
  pub rung : b.rx.bell ≡ 1 → clears_bell p ≡ false → NoneAt is_waking wakers → 0 < b.credits
  -- Whoever set a bit since has rung the bell, or a wake is still to come.
  pub first :
      took_first p ≡ true
      → b.rx.bits 0 ≢ 0
      → NoneAt owes_wake wakers
      → (b.rx.bell ≡ 1) ⊎ (0 < b.credits)
  pub second :
      took_second p ≡ true
      → b.rx.bits 1 ≢ 0
      → NoneAt owes_wake wakers
      → (b.rx.bell ≡ 1) ⊎ (0 < b.credits)
  pub done : passed_done p ≡ true → b.done ≡ true → NoneAt is_announcing wakers → 0 < b.credits
  pub failed :
      passed_failed p ≡ true → b.failed ≡ true → NoneAt is_announcing wakers → 0 < b.credits
