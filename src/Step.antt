-- ===== src/Step.antt =====
-- tpa/lib/src/tpa_runtime.c: `tpa_runq_pop`, `tpa_reload` and `tpa_step`. `code` runs a
-- continuation, which is a process's own program.
pub mod Bits
pub mod Laws
use tpa.Base.{
  ℕ, zero, suc, ◌+◌, ◌-◌, ◌*◌, ◌/◌, ◌%◌, Bool, true, false, ◌||◌, bit_and, ◌==◌, ltb, if◌then◌else◌,
  update,
}
use tpa.State.{
  null, ProcessState, ChannelOp, Region, flush, fence_rw, wake_all_harts, World, spinning, Cmd, ok,
  pure, ◌>>=◌, ◌>>◌, Unit0, act, emit, set_proc, Config,
}
use tpa.Hal.{atomic_add_u32}
use tpa.Process
use tpa.Sched
use tpa.Channel
use tpa.Channel.{ChannelRuntime}
use tpa.Runtime.{fail, schedule_local, channel_rt}

-- `struct tpa_op`, and the codes of `TPA_OP_*`
pub record Op : Type 0 where
  pub op : ℕ
  pub next : ℕ
  pub ch : ℕ
  pub buf : ℕ
  pub bufp : ℕ
  pub lenp : ℕ
  pub len : ℕ

abbrev pub op_stop : ℕ
op_stop = 0

abbrev pub op_yield : ℕ
op_yield = 1

abbrev pub op_block : ℕ
op_block = 2

abbrev pub op_send : ℕ
op_send = 3

abbrev pub op_recv : ℕ
op_recv = 4

unfoldable pub runq_pop : Config → ℕ → Cmd ℕ
runq_pop cfg hartid = do
  node ← Sched.pop cfg hartid
  λ w. ok (if node == null then null else w.node_proc node) w

-- `__builtin_ctzll`, at a number of at most `n` bits that is not 0
unfoldable pub ctz : ℕ → ℕ → ℕ
ctz zero b = 0
ctz (suc n) b = if b % 2 == 0 then suc (ctz n (b / 2)) else 0

abbrev pub is_live : ProcessState → Bool
is_live ProcessState.dead = false
is_live ProcessState.failed = false
is_live _ = true

-- A process whose ready bit was set.
unfoldable pub reload_slot : Config → ℕ → ℕ → Cmd Unit0
reload_slot cfg hartid slot w =
    let (p, w1) = Process.lookup cfg hartid slot w in
    let w2 = Process.complete_wait p w1 in
    if p == null
    then ok tt w1
    else if is_live (w1.procs p).state
    then schedule_local cfg p (w2.procs p).k w2
    else ok tt w1

-- `while (bits)`: each round clears the lowest bit, so 64 rounds and the last test are enough.
unfoldable pub reload_bits : Config → ℕ → ℕ → ℕ → ℕ → Cmd Unit0
reload_bits cfg hartid word zero bits = spinning
reload_bits cfg hartid word (suc n) bits =
    let rest = reload_bits cfg hartid word n (bit_and bits (bits - 1)) in
    if bits == 0 then pure tt else reload_slot cfg hartid (word * 64 + ctz 64 bits) >> rest

abbrev pub reload_word : Config → ℕ → ℕ → Cmd Unit0
reload_word cfg hartid word w =
    let (bits, w1) = Sched.take_ready_word cfg hartid word w in
    reload_bits cfg hartid word 65 bits w1

-- `ready_words` is 2.
unfoldable pub reload : Config → ℕ → Cmd Unit0
reload cfg hartid = reload_word cfg hartid 0 >> reload_word cfg hartid 1

abbrev pub set_current : Config → ℕ → ℕ → World → World
set_current cfg me p w =
    if ltb me cfg.nr_harts then record w { current_proc = update w.current_proc me p } else w

abbrev pub set_process_state : ℕ → ProcessState → World → World
set_process_state p s w = set_proc p (record (w.procs p) { state = s }) w

unfoldable pub stop : ℕ → World → World
stop p w =
    let w1 = set_process_state p ProcessState.dead w in
    let (old, new) = atomic_add_u32 w1.live_procs 0xffff_ffff in
    let w2 = record w1 { live_procs = new } in if old == 1 then emit wake_all_harts w2 else w2

abbrev pub send_op : Op → ChannelOp
send_op op = record {
  next = op.next;
  ch = op.ch;
  buf = op.buf;
  bufp = null;
  lenp = null;
  len = op.len;
}

abbrev pub recv_op : Op → ChannelOp
recv_op op = record {
  next = op.next;
  ch = op.ch;
  buf = null;
  bufp = op.bufp;
  lenp = op.lenp;
  len = 0;
}

unfoldable pub dispatch : Config → ℕ → ℕ → Op → Cmd Unit0
dispatch cfg me p op =
    if op.op == op_stop
    then act (stop p)
    else if op.op == op_yield
    then schedule_local cfg p op.next
    else if op.op == op_block
    then act (λ w. set_proc p (record (w.procs p) { k = op.next; state = ProcessState.wait }) w)
    else if op.op == op_send
    then Channel.send cfg (channel_rt cfg me) p (send_op op)
    else if op.op == op_recv
    then Channel.recv cfg (channel_rt cfg me) p (recv_op op)
    else act (fail cfg me)

unfoldable pub step : Config → (ℕ → ℕ → Cmd Op) → ℕ → ℕ → Cmd Unit0
step cfg code me p w =
    if p == null || (w.procs p).k == null
    then ok tt w
    else (do
      act (set_current cfg me p)
      act (set_process_state p ProcessState.running)
      op ← code me (w.procs p).k
      dispatch cfg me p op
      act (set_current cfg me null)
      act (emit (flush (Region.proc_obj p)))
      act (emit fence_rw))
        w
