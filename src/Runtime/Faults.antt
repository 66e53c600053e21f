-- ===== src/Runtime/Faults.antt =====
-- How tpa_runtime.c and channel.c fail.
use tpa.Base.{ℕ, ◌<◌, ◌≡◌, ◌≢◌, ◌⊎◌, true, arith}
use tpa.State.{null, ProcessState, ChannelOp, trace, World, emit, Config}
use tpa.State.ChannelTrace
use tpa.State.Kind
use tpa.State.Returns.{Hangs}
use tpa.Process
use tpa.Channel
use tpa.Channel.Handoff.{IsCarried}
use tpa.Runtime.{self, fail, has_failed, channel_rt}

module _ (cfg : Config) (me : ℕ) where
  -- `tpa_fail` makes `tpa_has_failed` true, marks the process that runs on the hart, if any, as
  -- failed, and changes no other process and no channel.
  pub fail-has_failed :
      (w : World) (p : ℕ)
      → p ≢ self cfg me w
      → (has_failed (fail cfg me w) ≡ true)
        × ((fail cfg me w).chans ≡ w.chans)
        × ((fail cfg me w).procs p ≡ w.procs p)
        × ((self cfg me w ≡ null)
            ⊎ (((fail cfg me w).procs (self cfg me w)).state ≡ ProcessState.failed))
  unfolding fail has_failed Process.mark_failed
  fail-has_failed w p other = (ground arith, ground arith, ground arith, ground arith)

  pub fail-failed : (w : World) → (fail cfg me w).failed ≡ 1
  unfolding fail Process.mark_failed
  fail-failed w = ground arith

  pub fail-chans : (w : World) → (fail cfg me w).chans ≡ w.chans
  unfolding fail Process.mark_failed
  fail-chans w = ground arith

  -- `tpa_channel_send` of a message that does not fit, or on a channel without capacity, of a kind
  -- that the core carries out, does not return. The runtime has failed then, and no channel has
  -- changed.
  pub send-unfit :
      (p : ℕ) (op : ChannelOp) (w : World)
      → op.ch ≢ null
      → IsCarried (w.chans op.ch)
      → ((w.chans op.ch).cap ≡ 0) ⊎ ((w.chans op.ch).cap < op.len)
      → Hangs
          (λ v. (v.failed ≡ 1) × (v.chans ≡ w.chans))
          (Channel.send cfg (channel_rt cfg me) p op w)
  unfolding Channel.send Channel.send_handoff channel_rt
  send-unfit p op w ne carried unfit =
      let v = emit (trace ChannelTrace.send_beg) w in ground (arith, fail-failed v, fail-chans v)

  -- A channel of a kind that the core does not carry out is refused by both operations: neither
  -- returns. The runtime has failed then, and no channel has changed.
  pub kind-refused :
      (p : ℕ) (op : ChannelOp) (w : World)
      → op.ch ≢ null
      → Kind.fabric < (w.chans op.ch).kind
      → Hangs
          (λ v. (v.failed ≡ 1) × (v.chans ≡ w.chans))
          (Channel.send cfg (channel_rt cfg me) p op w)
        × Hangs
            (λ v. (v.failed ≡ 1) × (v.chans ≡ w.chans))
            (Channel.recv cfg (channel_rt cfg me) p op w)
  unfolding Channel.send Channel.recv channel_rt
  kind-refused p op w ne big = ground (arith, fail-failed w, fail-chans w)
