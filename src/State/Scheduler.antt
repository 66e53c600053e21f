-- ===== src/State/Scheduler.antt =====
-- The structs of tpa/lib/include/tpa/scheduler.h and tpa/lib/src/scheduler.c.
use tpa.Base.{ℕ}

abbrev pub sched_no_slot : ℕ
sched_no_slot = 0xffff

pub data SchedState : Type 0 where
  dead ready wait running failed : SchedState

pub record SchedNode : Type 0 where
  pub next : ℕ
  pub hartid : ℕ
  pub slot : ℕ
  pub state : SchedState

pub record Runq : Type 0 where
  pub lock : ℕ
  pub head : ℕ
  pub tail : ℕ

pub record Rx : Type 0 where
  pub bits : ℕ → ℕ
  pub armed : ℕ
  pub bell : ℕ
