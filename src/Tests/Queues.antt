-- ===== src/Tests/Queues.antt =====
-- Tests of the run queues, the ready bits and the bell.
use tpa.Base.{◌≡◌, refl, [], ◌∷◌, ◌++◌, arith}
use tpa.State.{SchedState}
use tpa.State.Returns.{Returns}
use tpa.Tests.{machine, blank, busy}
use tpa.Sched.{run, pop}
use tpa.Sched.Queue.{IsQueue}
use tpa.Sched.Push.{run-append}
use tpa.Sched.Take.{pop-cons}

busy-IsQueue : IsQueue busy 0 (1 ∷ [])
busy-IsQueue = record {
  chain = (refl, omega arith, refl);
  tail = refl;
  distinct = (refl, tt);
  free = refl;
}

other-IsQueue : IsQueue busy 1 (3 ∷ [])
other-IsQueue = record {
  chain = (refl, omega arith, refl);
  tail = refl;
  distinct = (refl, tt);
  free = refl;
}

blank-IsQueue : IsQueue blank 0 []
blank-IsQueue = record { chain = refl; tail = refl; distinct = tt; free = refl }

run-append_example :
    Returns
      (λ r v.
        (r ≡ 1)
        × IsQueue v (busy.nodes 2).hartid ((1 ∷ []) ++ 2 ∷ [])
        × ((v.nodes 2).state ≡ SchedState.ready))
      (run machine 2 busy)
run-append_example =
    run-append machine 2 busy (1 ∷ []) (omega arith) (omega arith) busy-IsQueue refl

pop-cons_example :
    Returns
      (λ r v. (r ≡ 1) × IsQueue v 0 [] × ((v.nodes 1).state ≡ SchedState.running))
      (pop machine 0 busy)
pop-cons_example = pop-cons machine 0 1 busy [] (omega arith) busy-IsQueue
