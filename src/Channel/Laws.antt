-- ===== src/Channel/Laws.antt =====
-- What channel.c relies on in the runtime that it is given: every callback is there and returns,
-- and none of them touches a channel. `Runtime.Laws` proves this of the callbacks of tpa_runtime.c.
use tpa.Base.{ℕ, ◌≡◌, ap, ◌∙◌, fun_ext, update, arith}
use tpa.State.{World, Chan, ChannelEp, ChannelOp, Config}
use tpa.State.Returns.{Returns, LocksFree}
use tpa.Channel.{
  ChannelRuntime, channel_trace, call_wake_ep, call_publish_msg, call_run_proc, call_wait_send,
  call_wait_recv, set_state,
}

-- The channels are untouched, and no run queue is locked.
pub record Keeps (w v : World) : Type 0 where
  pub chans : v.chans ≡ w.chans
  pub locks : LocksFree v

pub record RuntimeLaws (cfg : Config) (rt : ChannelRuntime) : Type 0 where
  pub tracing : (tag : ℕ) (w : World) → LocksFree w → Keeps w (channel_trace cfg rt tag w)
  pub waking :
      (ep : ChannelEp) (w : World)
      → LocksFree w
      → Returns (λ _ v. Keeps w v) (call_wake_ep cfg rt ep w)
  pub publishing :
      (ep : ChannelEp) (buf len : ℕ) (w : World)
      → LocksFree w
      → Returns (λ _ v. Keeps w v) (call_publish_msg cfg rt ep buf len w)
  pub running :
      (p next : ℕ) (w : World)
      → LocksFree w
      → Returns (λ _ v. Keeps w v) (call_run_proc cfg rt p next w)
  pub waiting_send :
      (p : ℕ) (op : ChannelOp) (w : World)
      → LocksFree w
      → Returns (λ _ v. Keeps w v) (call_wait_send cfg rt p op w)
  pub waiting_recv :
      (p : ℕ) (op : ChannelOp) (w : World)
      → LocksFree w
      → Returns (λ _ v. Keeps w v) (call_wait_recv cfg rt p op w)

-- One channel is as stated, the others are untouched, and no run queue is locked.
pub record Leaves (w : World) (c : ℕ) (ch : Chan) (v : World) : Type 0 where
  pub chans : v.chans ≡ update w.chans c ch
  pub locks : LocksFree v

pub at_chan : {f g : ℕ → Chan} (d : ℕ) → f ≡ g → f d ≡ g d
at_chan d e = ap (λ (k : ℕ → Chan). k d) e

module _ {w w1 : World} {ch : Chan} where
  -- What a callback does after that changes nothing of it.
  pub then-Keeps : {w2 : World} (c : ℕ) → Leaves w c ch w1 → Keeps w1 w2 → Leaves w c ch w2
  then-Keeps c l k = record { chans = k.chans ∙ l.chans; locks = k.locks }

  pub then_set_state :
      (c s : ℕ) → Leaves w c ch w1 → Leaves w c (record ch { state = s }) (set_state c s w1)
  then_set_state c s l = record {
    chans = fun_ext λ d. ground (arith, at_chan d l.chans, at_chan c l.chans);
    locks = l.locks;
  }

-- The same, seen from a state that differs in that channel alone.
pub since :
    (w u : World) (c : ℕ) (x ch ch' : Chan) (v : World)
    → u.chans ≡ update w.chans c x
    → ch' ≡ ch
    → Leaves u c ch' v
    → Leaves w c ch v
since w u c x ch ch' v e same l = record {
  chans = fun_ext λ d. ground (arith, at_chan d l.chans, at_chan d e);
  locks = l.locks;
}
