-- ===== src/Tests.antt =====
-- A small machine of two harts, with a channel, some queues and some processes, on which the tests
-- in the modules below run.
mod Stages
mod Convs
mod Attentions
mod Meeting
mod Queues
mod Processes
mod Stepping
mod Devices
mod Wakes
mod Pipes
mod Talks
mod Tensors
use tpa.Base.{ℕ, ◌+◌, List, [], ◌∷◌, Option, some}
use tpa.State.{
  null, process_no_slot, PortRef, ProcessState, Proc, ProcessTable, ProcessWait, SchedState,
  SchedNode, ChannelOp, Chan, Memory, World, set_chan, set_node, set_runq, Config,
}
use tpa.State.Kind
use tpa.State.ChannelState
use tpa.Sched.{idle_runq, idle_rx}
use tpa.Boot.{BootEnt, Image}

abbrev pub machine : Config
machine = record { nr_harts = 2; retries = 3 }

abbrev pub some_ports : ℕ → PortRef
some_ports i = record { id = i + 4; ch = i + 10 }

abbrev pub idle_proc : Proc
idle_proc = record {
  msg_ready = 0;
  msg_len = 0;
  msg_buf = null;
  k = 9;
  ws = null;
  portv = some_ports;
  next = null;
  hartid = 0;
  state = ProcessState.dead;
  slot = process_no_slot;
  nr_portv = 3;
  bufp = null;
  lenp = null;
}

abbrev pub quiet_chan : Chan
quiet_chan = record {
  state = ChannelState.empty;
  kind = Kind.fabric;
  nrbuf = 2;
  turn = 0;
  len = 0;
  tx = record { hartid = 0; slot = 0 };
  rx = record { hartid = 1; slot = 0 };
  buf = null;
  bufv0 = 64;
  bufv1 = 128;
  cap = 32;
}

abbrev pub idle_node : SchedNode
idle_node = record { next = null; hartid = 0; slot = 0; state = SchedState.dead }

abbrev pub blank : World
blank = record {
  procs = λ _. idle_proc;
  chans = λ _. quiet_chan;
  nodes = λ _. idle_node;
  node_proc = λ _. null;
  proc_table = record { nslot = λ _. 0; slotv = λ _ _. null };
  runq = λ _. idle_runq;
  rx = λ _. idle_rx;
  current_proc = λ _. 1;
  init_state = 0;
  live_procs = 2;
  failed = 0;
  mem = record { bytes = λ a. a; ptrs = λ _. 0; words = λ _. 0 };
  log = [];
}

abbrev pub to_one : ChannelOp
to_one = record { next = 7; ch = 1; buf = 16; bufp = null; lenp = null; len = 8 }

abbrev pub long_to_one : ChannelOp
long_to_one = record to_one { len = 40 }

abbrev pub from_one : ChannelOp
from_one = record { next = 9; ch = 1; buf = null; bufp = 200; lenp = 300; len = 0 }

abbrev pub tx_waits : World
tx_waits = set_chan 1 (record quiet_chan { state = ChannelState.wait_tx; buf = 16; len = 8 }) blank

abbrev pub rx_waits : World
rx_waits = set_chan 1 (record quiet_chan { state = ChannelState.wait_rx }) blank

abbrev pub outside : World
outside = set_chan 1 (record quiet_chan { kind = Kind.external }) blank

-- Node 1 waits on hart 0, node 3 on hart 1.
abbrev pub busy : World
busy =
    set_runq 1 (record { lock = 0; head = 3; tail = 3 })
      (set_runq 0 (record { lock = 0; head = 1; tail = 1 }) blank)

-- Nodes 1 and 2 wait on hart 0.
abbrev pub crowded : World
crowded =
    set_node 1 (record idle_node { next = 2 })
      (set_runq 0 (record { lock = 0; head = 1; tail = 2 }) boarded)
  where
    boarded : World
    boarded = record blank {
      procs = λ _. record idle_proc { state = ProcessState.ready; slot = 0 };
      proc_table = record { nslot = λ _. 1; slotv = λ _ _. 1 };
    }

-- Process 1 waits in slot 0 of hart 0.
abbrev pub waiting : World
waiting = record blank {
  procs = λ _. record idle_proc { state = ProcessState.wait; slot = 0 };
  proc_table = record { nslot = λ _. 1; slotv = λ _ _. 1 };
}

abbrev pub ready_again : World
ready_again = record blank { init_state = 2 }

abbrev pub for_message : ProcessWait
for_message = record { next = 9; bufp = 200; lenp = 300 }

abbrev pub first_ent : BootEnt
first_ent = record {
  hartid = 1;
  slot = 0;
  nr_portv = 0;
  start = 7;
  ws = null;
  portv = some_ports;
  proc = 1;
}

abbrev pub small_image : Image
small_image = some first_ent ∷ []
