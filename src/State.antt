-- ===== src/State.antt =====
-- The state that the runtime keeps, as one record, and commands over it.
-- `World` gathers the static variables of tpa/lib/src/scheduler.c (`runq`, `rx`) and of
-- tpa/lib/src/tpa_runtime.c (`proc_table`, `nodes`, `current_proc`, `init_state`, `live_procs`,
-- `failed`), the objects that C code reaches by pointer (processes, channels, scheduler nodes), the
-- memory that messages travel through, and the calls made of the hardware layer, newest first.
mod Process
mod Scheduler
mod Channel
mod Hal
pub mod Kind
pub mod ChannelState
pub mod ChannelTrace
pub mod Returns
pub use Process.*
pub use Scheduler.*
pub use Channel.*
pub use Hal.*
use tpa.Base.{ℕ, ◌+◌, ◌-◌, List, ◌∷◌, ◌&&◌, leb, ltb, if◌then◌else◌, update}

-- Typed views of memory, which are taken not to overlap: bytes, variables of type `void *`, and
-- variables of type `uint32_t`.
pub record Memory : Type 0 where
  pub bytes : ℕ → ℕ
  pub ptrs : ℕ → ℕ
  pub words : ℕ → ℕ

pub record World : Type 0 where
  pub procs : ℕ → Proc
  pub chans : ℕ → Chan
  pub nodes : ℕ → SchedNode
  pub node_proc : ℕ → ℕ
  pub proc_table : ProcessTable
  pub runq : ℕ → Runq
  pub rx : ℕ → Rx
  pub current_proc : ℕ → ℕ
  pub init_state : ℕ
  pub live_procs : ℕ
  pub failed : ℕ
  pub mem : Memory
  pub log : List Event

-- How a call ends: it returns; it is in the endless loop of `channel_bug`; or it still polls a
-- shared variable, having polled it as often as allowed.
pub data Run (A : Type 0) : Type 0 where
  ok : A → World → Run A
  hung : World → Run A
  spinning : World → Run A

abbrev pub Cmd : Type 0 → Type 0
Cmd A = World → Run A

abbrev pub pure : {A : Type 0} → A → Cmd A
pure = ok

module _ {A B : Type 0} where
  abbrev pub and_then : Run A → (A → Cmd B) → Run B
  and_then (ok a w) k = k a w
  and_then (hung w) k = hung w
  and_then (spinning w) k = spinning w

  infixl 5 ◌>>=◌ ◌>>◌
  abbrev pub ◌>>=◌ : Cmd A → (A → Cmd B) → Cmd B
  m >>= k = λ w. and_then (m w) k

  abbrev pub ◌>>◌ : Cmd A → Cmd B → Cmd B
  m >> n = m >>= λ _. n

abbrev pub Unit0 : Type 0
Unit0 = Unit {0}

-- A command that changes the state and always returns.
abbrev pub act : (World → World) → Cmd Unit0
act f w = ok tt (f w)

abbrev pub emit : Event → World → World
emit e w = record w { log = e ∷ w.log }

abbrev pub set_proc : ℕ → Proc → World → World
set_proc p v w = record w { procs = update w.procs p v }

abbrev pub set_chan : ℕ → Chan → World → World
set_chan c v w = record w { chans = update w.chans c v }

abbrev pub set_node : ℕ → SchedNode → World → World
set_node n v w = record w { nodes = update w.nodes n v }

abbrev pub set_runq : ℕ → Runq → World → World
set_runq h v w = record w { runq = update w.runq h v }

abbrev pub set_rx : ℕ → Rx → World → World
set_rx h v w = record w { rx = update w.rx h v }

abbrev pub set_ptr : ℕ → ℕ → World → World
set_ptr a v w = record w { mem = record (w.mem) { ptrs = update w.mem.ptrs a v } }

abbrev pub set_word : ℕ → ℕ → World → World
set_word a v w = record w { mem = record (w.mem) { words = update w.mem.words a v } }

-- `memcpy` for regions that do not overlap; C leaves any other call undefined.
abbrev pub memcpy : ℕ → ℕ → ℕ → World → World
memcpy dst src len w = record w { mem = record (w.mem) { bytes = copied } }
  where
    copied : ℕ → ℕ
    copied a =
        if leb dst a && ltb a (dst + len) then w.mem.bytes (src + (a - dst)) else w.mem.bytes a

-- `nr_harts` is `TPA_HAL_NR_HARTS`; a loop that polls a shared variable gives up after `retries`
-- more looks than the first.
pub record Config : Type 0 where
  pub nr_harts : ℕ
  pub retries : ℕ
