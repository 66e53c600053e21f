-- ===== src/State/Process.antt =====
-- The structs of tpa/lib/include/tpa/process.h. A pointer is a number, and 0 is the null pointer.
-- Padding is left out; a continuation is the number of a function.
use tpa.Base.{ℕ}

abbrev pub null : ℕ
null = 0

abbrev pub process_no_slot : ℕ
process_no_slot = 0xffff

abbrev pub max_procs_per_hart : ℕ
max_procs_per_hart = 128

abbrev pub ready_words : ℕ
ready_words = 2

pub record PortRef : Type 0 where
  pub id : ℕ
  pub ch : ℕ

pub data ProcessState : Type 0 where
  dead ready wait running failed : ProcessState

-- `portv` is the array that the pointer leads to, by index.
pub record Proc : Type 0 where
  pub msg_ready : ℕ
  pub msg_len : ℕ
  pub msg_buf : ℕ
  pub k : ℕ
  pub ws : ℕ
  pub portv : ℕ → PortRef
  pub next : ℕ
  pub hartid : ℕ
  pub state : ProcessState
  pub slot : ℕ
  pub nr_portv : ℕ
  pub bufp : ℕ
  pub lenp : ℕ

-- `nslot[h].n` and `slotv[h].v[s]`
pub record ProcessTable : Type 0 where
  pub nslot : ℕ → ℕ
  pub slotv : ℕ → ℕ → ℕ

pub record ProcessBoot : Type 0 where
  pub hartid : ℕ
  pub slot : ℕ
  pub nr_portv : ℕ
  pub proc : ℕ
  pub start : ℕ
  pub ws : ℕ
  pub portv : ℕ → PortRef

pub record ProcessWait : Type 0 where
  pub next : ℕ
  pub bufp : ℕ
  pub lenp : ℕ
