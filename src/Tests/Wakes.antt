-- ===== src/Tests/Wakes.antt =====
-- Tests of the wake protocol.
use tpa.Base.{ℕ, ◌≡◌, ◌↔◌, refl, false, arith, update}
use tpa.State.{World, set_rx}
use tpa.Runtime.{wake_slot}
use tpa.Wake.{Bed, SleeperPc, WakerPc, SleeperMove, WakerMove, Step, Reach}
use tpa.Wake.Safety.{AllIdle, no_lost_wakeup}
use tpa.Wake.Alone.{Finish, bed_of, marked, wake_slot-moves}
use tpa.Tests.{machine, blank}

-- A hart set ready bit 3 before the sleeper looked; the sleeper took it, and found it stale.
abbrev rested : Bed
rested = record {
  rx = record {
    bits = update (update (update (update (update (λ _. 0) 0 8) 0 0) 1 0) 0 0) 1 0;
    armed = 1;
    bell = 0;
  };
  credits = 0;
  done = false;
  failed = false;
}

abbrev others : ℕ → WakerPc
others = update (update (λ _. WakerPc.idle) 0 WakerPc.asking) 0 WakerPc.idle

others_idle : AllIdle others
others_idle i = ground arith

abbrev asleep : Reach 0 (record { bed = rested; sleeper = SleeperPc.wait; wakers = others })
asleep =
    Reach.later
      (Reach.later
        (Reach.later
          (Reach.later
            (Reach.later
              (Reach.later
                (Reach.later
                  (Reach.later
                    (Reach.later
                      (Reach.later
                        (Reach.later Reach.start
                          (Step.waker_moves 0 (WakerMove.mark 3 (omega arith))))
                        (Step.waker_moves 0 (WakerMove.not_armed refl)))
                      (Step.sleeper_moves SleeperMove.go_on))
                    (Step.sleeper_moves SleeperMove.take_first))
                  (Step.sleeper_moves SleeperMove.take_second))
                (Step.sleeper_moves SleeperMove.arm))
              (Step.sleeper_moves SleeperMove.retake_first))
            (Step.sleeper_moves SleeperMove.retake_second))
          (Step.sleeper_moves SleeperMove.none_left))
        (Step.sleeper_moves (SleeperMove.not_done refl)))
      (Step.sleeper_moves (SleeperMove.not_failed refl))

-- Another hart has set bit 5 since, rung the bell and sent a wake.
abbrev called : Bed
called = record {
  rx = record { bits = update rested.rx.bits 0 32; armed = 1; bell = 1 };
  credits = 1;
  done = false;
  failed = false;
}

abbrev callers : ℕ → WakerPc
callers =
    update (update (update (update others 1 WakerPc.asking) 1 WakerPc.ringing) 1 WakerPc.waking) 1
      WakerPc.idle

abbrev called_night : Reach 0 (record { bed = called; sleeper = SleeperPc.wait; wakers = callers })
called_night =
    Reach.later
      (Reach.later
        (Reach.later (Reach.later asleep (Step.waker_moves 1 (WakerMove.mark 5 (omega arith))))
          (Step.waker_moves 1 (WakerMove.is_armed refl)))
        (Step.waker_moves 1 (WakerMove.first_ring refl)))
      (Step.waker_moves 1 WakerMove.send_wake)

abbrev armed_world : World
armed_world = set_rx 1 (record { bits = λ _. 0; armed = 1; bell = 0 }) blank

no_lost_wakeup_example :
    (rested.rx.bits 0 ≡ 0)
    × (rested.rx.bits 1 ≡ 0)
    × (rested.done ≡ false)
    × (rested.failed ≡ false)
no_lost_wakeup_example = no_lost_wakeup asleep others_idle refl

wake_slot-moves_example :
    Finish (marked 3 (bed_of 1 armed_world)) WakerPc.asking called
    ↔ (called ≡ bed_of 1 (wake_slot machine 1 3 armed_world))
wake_slot-moves_example = wake_slot-moves machine 1 3 armed_world called (omega arith) (omega arith)
