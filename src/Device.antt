-- ===== src/Device.antt =====
-- tpa-device/runtime/tpa_scheduler.c: the main loop of a hart.
use tpa.Base.{ℕ, zero, suc, ◌&&◌, ◌||◌, not, ◌==◌, leb, if◌then◌else◌}
use tpa.State.{
  null, runtime_enter, runtime_leave, wait_for_wake, test_pass, test_fail, World, spinning, Cmd, ok,
  ◌>>=◌, ◌>>◌, Unit0, act, emit, Config,
}
use tpa.Hal.{atomic_compare_exchange_u32}
use tpa.Sched
use tpa.Runtime
use tpa.Boot
use tpa.Boot.{Image}
use tpa.Step
use tpa.Step.{Op}

module _ (cfg : Config) (code : ℕ → ℕ → Cmd Op) (me : ℕ) where
  -- `tpa_sched_set_armed(hartid, 0); (void)tpa_sched_take_bell(hartid);`
  unfoldable pub disarm : World → World
  disarm w = (Sched.take_bell cfg me (Sched.set_armed cfg me 0 w)).1

  unfoldable pub sleep : World → World
  sleep w =
      let idle = not (Runtime.done w) && not (Runtime.has_failed w) in
      disarm (if idle then emit wait_for_wake w else w)

  -- The second half of a round, when the first look found nothing to run.
  unfoldable pub look_again : Cmd Unit0
  look_again = do
    act (Sched.set_armed cfg me 1)
    Step.reload cfg me
    p ← Step.runq_pop cfg me
    if p == null then act sleep else act disarm >> Step.step cfg code me p

  -- One round of the loop after its test.
  unfoldable pub round : Cmd Unit0
  round = do
    Step.reload cfg me
    p ← Step.runq_pop cfg me
    if p == null then look_again else Step.step cfg code me p

  -- `for (;;)`, for at most `n` rounds.
  unfoldable pub rounds : ℕ → Cmd Unit0
  rounds zero w = spinning w
  rounds (suc n) w =
      let rest = (round >> rounds n) w in
      if Runtime.has_failed w || Runtime.done w then ok tt w else rest

  unfoldable pub scheduler_main : Image → ℕ → Cmd Unit0
  scheduler_main image n = do
    act (emit (runtime_enter me))
    Boot.boot_hart cfg me image me
    rounds n
    act (emit (runtime_leave me))

  -- `reported` is the variable `tpa_reported`, which is returned beside the outcome.
  unfoldable pub report : ℕ → Cmd ℕ
  report reported w =
      let (old, new) = atomic_compare_exchange_u32 reported 0 1 in
      if old == 0
      then ok new (if Runtime.has_failed w then emit test_fail w else emit test_pass w)
      else ok new w

  -- A hart that takes no part waits for ever.
  unfoldable pub hart_main : Image → ℕ → ℕ → Cmd ℕ
  hart_main image n reported w =
      if leb cfg.nr_harts me
      then spinning (emit wait_for_wake w)
      else (do Boot.init cfg image; scheduler_main image n; report reported) w
