-- ===== src/State/Hal.antt =====
-- tpa/hal/include/tpa/hal.h: the operations of the hardware layer that leave no value behind, as
-- events. A cache operation names the object whose bytes it covers.
use tpa.Base.{ℕ}

pub data Region : Type 0 where
  bytes_at : (addr len : ℕ) → Region
  proc_obj : (p : ℕ) → Region
  mailbox_of : (p : ℕ) → Region  -- the first cache line of a process
  chan_obj : (c : ℕ) → Region
  node_obj : (n : ℕ) → Region
  table_obj : Region
  slots_of : (hartid : ℕ) → Region
  slot_count_of : (hartid : ℕ) → Region
  runq_of : (hartid : ℕ) → Region
  rx_of : (hartid : ℕ) → Region
  all_runq : Region
  all_rx : Region

pub data Event : Type 0 where
  trace : (tag : ℕ) → Event
  flush : Region → Event
  evict : Region → Event
  fence_rw : Event
  wake_hart : (hartid : ℕ) → Event
  wake_all_harts : Event
  wait_for_wake : Event
  runtime_enter : (hartid : ℕ) → Event
  runtime_leave : (hartid : ℕ) → Event
  test_pass : Event
  test_fail : Event
  diag : (c : ℕ) → Event
