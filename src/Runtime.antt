-- ===== src/Runtime.antt =====
-- tpa/lib/src/tpa_runtime.c, first part: how processes, channels and the scheduler are joined, the
-- callbacks that a channel is given, and what a process may ask for.
-- `me` is what `tpa_hal_runtime_hartid` returns to the caller.
pub mod Laws
pub mod Promises
pub mod Schedule
pub mod Faults
pub mod Ports
use tpa.Base.{ℕ, zero, suc, ◌+◌, ◌*◌, Bool, true, false, ◌||◌, some, ◌==◌, leb, ltb, if◌then◌else◌}
use tpa.State.{
  null, max_procs_per_hart, PortRef, ProcessState, ChannelEp, ChannelOp, Region, trace, flush,
  wake_all_harts, World, Cmd, ok, pure, ◌>>◌, Unit0, act, emit, set_proc, Config,
}
use tpa.Hal.{atomic_or_u32, atomic_exchange_u32}
use tpa.Process
use tpa.Sched
use tpa.Channel.{ChannelRuntime}

-- The address of `nodes[hartid][slot].node`.
abbrev pub node_at : ℕ → ℕ → ℕ
node_at hartid slot = suc (hartid * max_procs_per_hart + slot)

abbrev pub node_for : Config → World → ℕ → ℕ
node_for cfg w p =
    let q = w.procs p in
    if p == null || leb cfg.nr_harts q.hartid || leb max_procs_per_hart q.slot
    then null
    else node_at q.hartid q.slot

unfoldable pub self : Config → ℕ → World → ℕ
self cfg me w = if ltb me cfg.nr_harts then w.current_proc me else null

unfoldable pub fail : Config → ℕ → World → World
fail cfg me w =
    let w1 = Process.mark_failed (self cfg me w) w in
    emit wake_all_harts (record w1 { failed = (atomic_exchange_u32 w1.failed 1).1 })

unfoldable pub schedule_local : Config → ℕ → ℕ → Cmd Unit0
schedule_local cfg p next w =
    if node_for cfg w p == null
    then ok tt w
    else (do
      act (set_proc p (record (w.procs p) { k = next; state = ProcessState.ready }))
      act (emit (flush (Region.proc_obj p)))
      Sched.run cfg (node_for cfg w p)
      pure tt)
        w

unfoldable pub wake_slot : Config → ℕ → ℕ → World → World
wake_slot cfg hartid slot w =
    if leb cfg.nr_harts hartid || leb max_procs_per_hart slot
    then w
    else Sched.ring_if_armed cfg hartid (Sched.set_ready_slot cfg hartid slot w)

unfoldable pub wake_ep : Config → ChannelEp → World → World
wake_ep cfg ep = wake_slot cfg ep.hartid ep.slot

unfoldable pub run_proc : Config → ℕ → ℕ → ℕ → Cmd Unit0
run_proc cfg me p next w =
    if p == null
    then ok tt w
    else (let w1 = Process.complete_wait p (set_proc p (record (w.procs p) { k = next }) w) in
        let q = w1.procs p in
        if q.hartid == me
        then schedule_local cfg p next w1
        else ok tt (wake_slot cfg q.hartid q.slot w1))

unfoldable pub wait_send : ℕ → ChannelOp → World → World
wait_send p op = Process.wait_send p (record { next = op.next; bufp = null; lenp = null })

unfoldable pub wait_recv : ℕ → ChannelOp → World → World
wait_recv p op = Process.wait_recv p (record { next = op.next; bufp = op.bufp; lenp = op.lenp })

unfoldable pub publish_msg : Config → ChannelEp → ℕ → ℕ → World → World
publish_msg cfg ep buf len w =
    let (p, w1) = Process.lookup cfg ep.hartid ep.slot w in Process.publish_msg p buf len w1

unfoldable pub channel_rt : Config → ℕ → ChannelRuntime
channel_rt cfg me = record {
  bug = some (fail cfg me);
  trace_tag = some (λ tag. emit (trace tag));
  wake_ep = some (wake_ep cfg);
  run_proc = some (run_proc cfg me);
  wait_send = some wait_send;
  wait_recv = some wait_recv;
  publish_msg = some (publish_msg cfg);
}

unfoldable pub done : World → Bool
done w = (atomic_or_u32 w.live_procs 0).0 == 0

unfoldable pub has_failed : World → Bool
has_failed w = if (atomic_or_u32 w.failed 0).0 == 0 then false else true

unfoldable pub wake : Config → ℕ → World → World
wake cfg p w = if p == null then w else wake_slot cfg (w.procs p).hartid (w.procs p).slot w

unfoldable pub ws : Config → ℕ → World → ℕ
ws cfg me w = let p = self cfg me w in if p == null then null else (w.procs p).ws

-- The loop over `portv`, with `n` entries left from index `i` on.
unfoldable pub find_port : (ℕ → PortRef) → ℕ → ℕ → ℕ → ℕ
find_port portv port zero i = null
find_port portv port (suc n) i =
    let rest = find_port portv port n (i + 1) in if (portv i).id == port then (portv i).ch else rest

unfoldable pub chan : Config → ℕ → ℕ → World → ℕ
chan cfg me port w =
    let p = self cfg me w in
    if p == null then null else find_port (w.procs p).portv port (w.procs p).nr_portv 0
