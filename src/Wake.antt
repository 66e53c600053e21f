-- ===== src/Wake.antt =====
-- How a hart that has nothing to run goes to sleep, and how others wake it, one shared access at a
-- time: `tpa_sched_set_ready_slot` and `tpa_sched_ring_if_armed` of tpa/lib/src/scheduler.c, as
-- `runtime_wake_slot` of tpa/lib/src/tpa_runtime.c calls them, against the loop of
-- tpa-device/runtime/tpa_scheduler.c. Any number of harts may wake, `i` being the number of one; the
-- wakes that the hardware has not handed out yet are `credits`.
pub mod Moves
pub mod Invariant
pub mod Safety
pub mod Alone
use tpa.Base.{ℕ, zero, suc, ◌+◌, ◌/◌, ◌%◌, ◌^◌, ◌<◌, ◌≡◌, ◌≢◌, Bool, true, false, bit_or, update}
use tpa.State.{Rx, ready_words}

-- What the sleeper and those that wake it share.
pub record Bed : Type 0 where
  pub rx : Rx
  pub credits : ℕ
  pub done : Bool
  pub failed : Bool

-- Where the sleeper stands in `tpa_scheduler_main`.
pub data SleeperPc : Type 0 where
  busy : SleeperPc  -- at the top of the loop, or in a step
  reload_first : SleeperPc  -- `tpa_reload`, before word 0
  reload_second : SleeperPc  -- `tpa_reload`, before word 1
  idle : SleeperPc  -- `tpa_runq_pop` has found nothing
  armed_first : SleeperPc  -- `tpa_reload` once more, armed
  armed_second : SleeperPc
  armed_pop : SleeperPc  -- before `tpa_runq_pop`
  check_done : SleeperPc  -- before `tpa_done` in the last test
  check_failed : SleeperPc  -- before `tpa_failed` in the last test
  wait : SleeperPc  -- in `tpa_hal_wait_for_wake`
  disarm : SleeperPc  -- before `tpa_sched_set_armed(hartid, 0)`
  silence : SleeperPc  -- before `tpa_sched_take_bell`

-- Where one of the others stands.
pub data WakerPc : Type 0 where
  idle : WakerPc
  asking : WakerPc  -- the ready bit is set, and `armed` is not read yet
  ringing : WakerPc  -- before the atomic or on `bell`
  waking : WakerPc  -- before `tpa_hal_wake_hart`
  announcing : WakerPc  -- before `tpa_hal_wake_all_harts`, in `tpa_step` or `tpa_fail`

abbrev pub set_word : Rx → ℕ → ℕ → Rx
set_word r word v = record r { bits = update r.bits word v }

abbrev pub set_rx : Rx → Bed → Bed
set_rx r b = record b { rx = r }

pub data SleeperMove (b : Bed) : SleeperPc → Bed → SleeperPc → Type 0 where
  go_on : SleeperMove b SleeperPc.busy b SleeperPc.reload_first
  take_first :
      SleeperMove b SleeperPc.reload_first (set_rx (set_word b.rx 0 0) b) SleeperPc.reload_second
  take_second : SleeperMove b SleeperPc.reload_second (set_rx (set_word b.rx 1 0) b) SleeperPc.idle
  work : SleeperMove b SleeperPc.idle b SleeperPc.busy
  arm : SleeperMove b SleeperPc.idle (set_rx (record (b.rx) { armed = 1 }) b) SleeperPc.armed_first
  retake_first :
      SleeperMove b SleeperPc.armed_first (set_rx (set_word b.rx 0 0) b) SleeperPc.armed_second
  retake_second :
      SleeperMove b SleeperPc.armed_second (set_rx (set_word b.rx 1 0) b) SleeperPc.armed_pop
  work_after_all : SleeperMove b SleeperPc.armed_pop b SleeperPc.disarm
  none_left : SleeperMove b SleeperPc.armed_pop b SleeperPc.check_done
  is_done : b.done ≡ true → SleeperMove b SleeperPc.check_done b SleeperPc.disarm
  not_done : b.done ≡ false → SleeperMove b SleeperPc.check_done b SleeperPc.check_failed
  has_failed : b.failed ≡ true → SleeperMove b SleeperPc.check_failed b SleeperPc.disarm
  not_failed : b.failed ≡ false → SleeperMove b SleeperPc.check_failed b SleeperPc.wait
  woken :
      {n : ℕ}
      → b.credits ≡ suc n
      → SleeperMove b SleeperPc.wait (record b { credits = n }) SleeperPc.disarm
  put_off :
      SleeperMove b SleeperPc.disarm (set_rx (record (b.rx) { armed = 0 }) b) SleeperPc.silence
  take_bell : SleeperMove b SleeperPc.silence (set_rx (record (b.rx) { bell = 0 }) b) SleeperPc.busy

pub data WakerMove (b : Bed) : WakerPc → Bed → WakerPc → Type 0 where
  mark :
      (slot : ℕ)
      → slot / 64 < ready_words
      → WakerMove b WakerPc.idle
          (set_rx (set_word b.rx (slot / 64) (bit_or (b.rx.bits (slot / 64)) (2 ^ (slot % 64)))) b)
          WakerPc.asking
  not_armed : b.rx.armed % 2 ≡ 0 → WakerMove b WakerPc.asking b WakerPc.idle
  is_armed : b.rx.armed % 2 ≡ 1 → WakerMove b WakerPc.asking b WakerPc.ringing
  rung_already :
      b.rx.bell % 2 ≡ 1
      → WakerMove b WakerPc.ringing
          (set_rx (record (b.rx) { bell = bit_or b.rx.bell 1 }) b)
          WakerPc.idle
  first_ring :
      b.rx.bell % 2 ≡ 0
      → WakerMove b WakerPc.ringing
          (set_rx (record (b.rx) { bell = bit_or b.rx.bell 1 }) b)
          WakerPc.waking
  send_wake : WakerMove b WakerPc.waking (record b { credits = suc b.credits }) WakerPc.idle
  finish : WakerMove b WakerPc.idle (record b { done = true }) WakerPc.announcing
  fail : WakerMove b WakerPc.idle (record b { failed = true }) WakerPc.announcing
  announce : WakerMove b WakerPc.announcing (record b { credits = suc b.credits }) WakerPc.idle

pub record Night : Type 0 where
  pub bed : Bed
  pub sleeper : SleeperPc
  pub wakers : ℕ → WakerPc

pub data Step (s : Night) : Night → Type 0 where
  sleeper_moves :
      {b : Bed} {p : SleeperPc}
      → SleeperMove s.bed s.sleeper b p
      → Step s (record s { bed = b; sleeper = p })
  waker_moves :
      (i : ℕ) {b : Bed} {p : WakerPc}
      → WakerMove s.bed (s.wakers i) b p
      → Step s (record s { bed = b; wakers = update s.wakers i p })

-- After `tpa_init`, with `n` wakes left over from the loop in which the hart waited for it.
abbrev pub evening : ℕ → Night
evening n = record {
  bed = record {
    rx = record { bits = λ _. 0; armed = 0; bell = 0 };
    credits = n;
    done = false;
    failed = false;
  };
  sleeper = SleeperPc.busy;
  wakers = λ _. WakerPc.idle;
}

pub data Reach (n : ℕ) : Night → Type 0 where
  start : Reach n (evening n)
  later : {s t : Night} → Reach n s → Step s t → Reach n t
