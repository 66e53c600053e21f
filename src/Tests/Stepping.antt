-- ===== src/Tests/Stepping.antt =====
-- Tests of scheduling, reloading, stopping and starting up.
use tpa.Base.{◌+◌, ◌*◌, ◌≡◌, refl, [], ◌∷◌, ◌++◌, elem, arith}
use tpa.Base.Bits.{has_bit}
use tpa.State.{ProcessState}
use tpa.State.Returns.{Returns}
use tpa.Tests.{machine, blank, crowded, waiting, first_ent}
use tpa.Sched.Queue.{Chain, IsQueue}
use tpa.Runtime.{node_at}
use tpa.Runtime.Schedule.{IsPlaced}
use tpa.Step.{reload_slot, reload_bits}
use tpa.Step.Bits.{bits_of, each, reload_bits-each}
use tpa.Step.Laws.{reload_slot-wait, reload_slot_ready-loses}
use tpa.Boot.{boot_ent}
use tpa.Boot.Laws.{boot_ent-queues}

waiting-IsPlaced : IsPlaced machine waiting 1 0 0
waiting-IsPlaced = record {
  some_proc = omega arith;
  hartid = refl;
  slot_of = refl;
  hart_exists = omega arith;
  slot_exists = omega arith;
  node_hart = refl;
}

crowded-IsPlaced : IsPlaced machine crowded 1 0 0
crowded-IsPlaced = record {
  some_proc = omega arith;
  hartid = refl;
  slot_of = refl;
  hart_exists = omega arith;
  slot_exists = omega arith;
  node_hart = refl;
}

waiting-IsQueue : IsQueue waiting 0 []
waiting-IsQueue = record { chain = refl; tail = refl; distinct = tt; free = refl }

crowded-IsQueue : IsQueue crowded 0 (1 ∷ 2 ∷ [])
crowded-IsQueue = record {
  chain = (refl, omega arith, (refl, omega arith, refl));
  tail = refl;
  distinct = (refl, (refl, tt));
  free = refl;
}

blank-IsQueue : IsQueue blank 1 []
blank-IsQueue = record { chain = refl; tail = refl; distinct = tt; free = refl }

reload_slot-wait_example :
    Returns
      (λ _ v.
        IsQueue v 0 ([] ++ node_at 0 0 ∷ [])
        × ((v.procs 1).k ≡ (waiting.procs 1).k)
        × ((v.procs 1).state ≡ ProcessState.ready))
      (reload_slot machine 0 0 waiting)
reload_slot-wait_example =
    reload_slot-wait machine 0 0 1 waiting [] refl waiting-IsPlaced refl waiting-IsQueue refl

reload_slot_ready-loses_example :
    Returns
      (λ _ v. Chain v.nodes (v.runq 0).head (node_at 0 0 ∷ []))
      (reload_slot machine 0 0 crowded)
reload_slot_ready-loses_example =
    reload_slot_ready-loses machine 0 0 1 crowded 2 [] refl crowded-IsPlaced refl crowded-IsQueue

reload_bits-each_example :
    (reload_bits machine 0 1 65 5 ≡ each (reload_slot machine 0) (bits_of 64 (1 * 64) 5))
    × (elem (1 * 64 + 2) (bits_of 64 (1 * 64) 5) ≡ has_bit 5 2)
reload_bits-each_example = reload_bits-each machine 0 1 5 2 (omega arith) (omega arith)

boot_ent-queues_example :
    Returns
      (λ _ v.
        IsQueue v first_ent.hartid ([] ++ node_at first_ent.hartid first_ent.slot ∷ [])
        × ((v.procs first_ent.proc).k ≡ first_ent.start)
        × ((v.procs first_ent.proc).state ≡ ProcessState.ready))
      (boot_ent machine 1 first_ent blank)
boot_ent-queues_example =
    boot_ent-queues machine 1 first_ent blank (omega arith) (omega arith) (omega arith)
      (omega arith) [] blank-IsQueue refl
