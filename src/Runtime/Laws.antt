-- ===== src/Runtime/Laws.antt =====
-- The callbacks of tpa_runtime.c keep the laws that channel.c relies on.
use tpa.Base.{ℕ, refl, ◌∙◌, ◌||◌, arith, ◌==◌, leb, Bool-cases, inl, inr}
use tpa.State.{
  null, ProcessState, ChannelEp, ChannelOp, Region, flush, set_proc, emit, World, Config,
}
use tpa.State.Returns
use tpa.State.Returns.{Returns, LocksFree}
use tpa.Process
use tpa.Sched
use tpa.Sched.Push.{runq_lock-free}
use tpa.Channel.Laws.{Keeps, RuntimeLaws}
use tpa.Runtime.{
  node_for, schedule_local, wake_slot, wake_ep, run_proc, wait_send, wait_recv, publish_msg,
  channel_rt,
}

module _ (cfg : Config) (w : World) (free : LocksFree w) where
  pub run-Keeps : (n : ℕ) → Returns (λ _ v. Keeps w v) (Sched.run cfg n w)
  unfolding Sched.run Sched.runq_push Sched.runq_unlock
  run-Keeps n =
      let h = (w.nodes n).hartid in
      elim (Bool-cases (n == null || leb cfg.nr_harts h)) [
        | inl bad ↦ rw bad (record { chans = refl; locks = free })
        | inr good ↦
            rw (good, runq_lock-free cfg.retries h w (free h))
              (record { chans = ground arith; locks = λ g. ground (arith, free g) })
      ]

  pub wake_slot-Keeps : (h s : ℕ) → Keeps w (wake_slot cfg h s w)
  unfolding wake_slot Sched.set_ready_slot Sched.ring_if_armed
  wake_slot-Keeps h s = record { chans = ground arith; locks = λ g. ground (arith, free g) }

  pub complete_wait-Keeps : (p : ℕ) → Keeps w (Process.complete_wait p w)
  unfolding Process.complete_wait
  complete_wait-Keeps p = record { chans = ground arith; locks = λ g. ground (arith, free g) }

  publish_msg-Keeps : (ep : ChannelEp) (buf len : ℕ) → Keeps w (publish_msg cfg ep buf len w)
  unfolding publish_msg Process.lookup Process.publish_msg
  publish_msg-Keeps ep buf len = record {
    chans = ground arith;
    locks = λ g. ground (arith, free g);
  }

  wait_send-Keeps : (p : ℕ) (op : ChannelOp) → Keeps w (wait_send p op w)
  unfolding wait_send Process.wait_send
  wait_send-Keeps p op = record { chans = ground arith; locks = λ g. ground (arith, free g) }

  wait_recv-Keeps : (p : ℕ) (op : ChannelOp) → Keeps w (wait_recv p op w)
  unfolding wait_recv Process.wait_recv
  wait_recv-Keeps p op = record { chans = ground arith; locks = λ g. ground (arith, free g) }

pub schedule_local-Keeps :
    (cfg : Config) (p next : ℕ) (w : World)
    → LocksFree w
    → Returns (λ _ v. Keeps w v) (schedule_local cfg p next w)
unfolding schedule_local
schedule_local-Keeps cfg p next w free =
    let w1 =
      emit (flush (Region.proc_obj p))
        (set_proc p (record (w.procs p) { k = next; state = ProcessState.ready }) w) in
    elim (Bool-cases (node_for cfg w p == null)) [
      | inl none_for ↦ rw none_for (record { chans = refl; locks = free })
      | inr some_node ↦ rw some_node (
          Returns.bind (λ _ v. Keeps w1 v) _ _ _ (run-Keeps cfg w1 free (node_for cfg w p))
            (λ _ v k. record { chans = k.chans; locks = k.locks }))
    ]

run_proc-Keeps :
    (cfg : Config) (me p next : ℕ) (w : World)
    → LocksFree w
    → Returns (λ _ v. Keeps w v) (run_proc cfg me p next w)
unfolding run_proc
run_proc-Keeps cfg me p next w free =
    let w0 = set_proc p (record (w.procs p) { k = next }) w in
    let w1 = Process.complete_wait p w0 in
    let k1 = complete_wait-Keeps cfg w0 free p in
    elim (Bool-cases (p == null)) [
      | inl none_there ↦ rw none_there (record { chans = refl; locks = free })
      | inr some_proc ↦ elim (Bool-cases ((w1.procs p).hartid == me)) [
        | inl here ↦
            rw (some_proc, here)
              (Returns.mono (λ _ v. Keeps w1 v) (λ _ v. Keeps w v) _
                (schedule_local-Keeps cfg p next w1 k1.locks)
                (λ _ v k. record { chans = k.chans ∙ k1.chans; locks = k.locks }))
        | inr away ↦
            rw (some_proc, away)
              (let k = wake_slot-Keeps cfg w1 k1.locks (w1.procs p).hartid (w1.procs p).slot in
                record { chans = k.chans ∙ k1.chans; locks = k.locks })
      ]
    ]

-- From a state where no run queue is locked, each callback that channel.c goes on from returns,
-- touches no channel and leaves no run queue locked.
pub channel_rt-RuntimeLaws : (cfg : Config) (me : ℕ) → RuntimeLaws cfg (channel_rt cfg me)
unfolding channel_rt wake_ep
channel_rt-RuntimeLaws cfg me = record {
  tracing = λ tag w free. record { chans = refl; locks = free };
  waking = λ ep w free. wake_slot-Keeps cfg w free ep.hartid ep.slot;
  publishing = λ ep buf len w free. publish_msg-Keeps cfg w free ep buf len;
  running = λ p next w free. run_proc-Keeps cfg me p next w free;
  waiting_send = λ p op w free. wait_send-Keeps cfg w free p op;
  waiting_recv = λ p op w free. wait_recv-Keeps cfg w free p op;
}
