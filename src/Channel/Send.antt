-- ===== src/Channel/Send.antt =====
-- The loop of `tpa_channel_send` and its two endings, over any runtime that keeps the laws.
pub mod Outcome
use tpa.Base.{
  ℕ, zero, suc, ◌≤◌, ◌<◌, ◌≡◌, ◌≢◌, ◌⊎◌, refl, ap, sym, fun_ext, ◌∙◌, Bool, true, false, ◌&&◌, not,
  arith, ◌==◌, ltb, Bool-cases, inl, inr, ne→==, if◌then◌else◌, update,
}
use tpa.State.{
  null, Chan, ChannelEp, act, ◌>>◌, ChannelOp, Region, flush, World, spinning, hung, emit, set_chan,
  Config, Unit0, and_then, evict, ok,
}
use tpa.State.Kind
use tpa.State.ChannelState
use tpa.State.ChannelTrace
use tpa.State.Returns
use tpa.State.Returns.{Returns, LocksFree}
use tpa.Channel.{
  ChannelRuntime, channel_bug, channel_trace, rotate_buf, channel_rbuf, offer, set_state,
  deliver_buf, check_len, requires_storage, send_wait, send_deliver, send_loop, send_handoff, send,
  call_wait_send, call_wake_ep, call_run_proc,
}
use tpa.Channel.Laws.{Keeps, RuntimeLaws, Leaves, at_chan, then-Keeps, then_set_state, since}
use tpa.Channel.Handoff.{IsCarried, stores, HasStorage, turned, deliver_buf-Leaves, finish_handoff}

module _ (cfg : Config) (rt : ChannelRuntime) where
  module _ (p : ℕ) (op : ChannelOp) (force : Bool) where
    pub send_loop-empty :
        (n : ℕ) (w : World)
        → (w.chans op.ch).state ≡ ChannelState.empty
        → send_loop cfg rt p op force (suc n) w
          ≡ send_wait cfg rt p op force
              (set_chan op.ch (record (w.chans op.ch) { state = ChannelState.tx }) w)
    unfolding send_loop
    send_loop-empty n w e = ground arith

    pub send_loop-wait_rx :
        (n : ℕ) (w : World)
        → (w.chans op.ch).state ≡ ChannelState.wait_rx
        → send_loop cfg rt p op force (suc n) w
          ≡ send_deliver cfg rt p op force
              (set_chan op.ch (record (w.chans op.ch) { state = ChannelState.tx }) w)
    unfolding send_loop
    send_loop-wait_rx n w e = ground arith

    abbrev offered : World → World
    offered w = emit (flush (Region.chan_obj op.ch)) (set_chan op.ch (offer op (w.chans op.ch)) w)

    pub send_wait-Leaves :
        (w : World)
        → RuntimeLaws cfg rt
        → LocksFree w
        → Returns
            (λ _ v.
              Leaves w op.ch (record (offer op (w.chans op.ch)) { state = ChannelState.wait_tx }) v)
            (send_wait cfg rt p op force w)
    unfolding send_wait
    send_wait-Leaves w laws free =
        Returns.bind (λ _ v. Keeps (offered w) v) _ _ _ (laws.waiting_send p op (offered w) free)
          (λ _ v kept.
            let traced =
              laws.tracing ChannelTrace.send_end (set_state op.ch ChannelState.wait_tx v)
                kept.locks in
            record {
              chans = fun_ext λ d.
                  ground
                    (arith, at_chan d kept.chans, at_chan op.ch kept.chans, at_chan d traced.chans);
              locks = traced.locks;
            })

    pub send_deliver-Leaves :
        (w : World)
        → RuntimeLaws cfg rt
        → HasStorage force (w.chans op.ch)
        → LocksFree w
        → Returns
            (λ _ v.
              Leaves w op.ch
                (record (turned force (w.chans op.ch)) { state = ChannelState.empty })
                v)
            (send_deliver cfg rt p op force w)
    unfolding send_deliver
    send_deliver-Leaves w laws room free =
        Returns.bind (λ _ v. Leaves w op.ch (turned force (w.chans op.ch)) v) _ _ _
          (deliver_buf-Leaves cfg rt op.ch op.buf op.len force w room free)
          (λ buf w1 k1.
            Returns.bind (λ _ v. Keeps w1 v) _ _ _
              (laws.publishing (w1.chans op.ch).rx buf op.len w1 k1.locks)
              (λ _ w2 k2.
                let l2 = then-Keeps op.ch k1 k2 in
                let l3 = then_set_state op.ch ChannelState.empty l2 in
                finish_handoff cfg rt w op.ch _ p op.next ChannelTrace.send_end
                  (set_state op.ch ChannelState.empty w2) laws l3
                  (((set_state op.ch ChannelState.empty w2).chans op.ch).rx)))

    -- A channel that is being changed, or where a sender waits already.
    pub send_loop-busy :
        (n : ℕ) (w : World)
        → (w.chans op.ch).state ≢ ChannelState.empty
        → (w.chans op.ch).state ≢ ChannelState.wait_rx
        → send_loop cfg rt p op force n w ≡ spinning w
    unfolding send_loop
    send_loop-busy zero w ne nw = refl
    send_loop-busy (suc n) w ne nw = ground (arith, send_loop-busy n w)

    pub handed : World → World
    handed w =
        emit (flush (Region.bytes_at op.buf op.len)) (channel_trace cfg rt ChannelTrace.send_beg w)

    pub send_handoff-loop :
        (w : World)
        → RuntimeLaws cfg rt
        → LocksFree w
        → op.ch ≢ null
        → 0 < (w.chans op.ch).cap
        → op.len ≤ (w.chans op.ch).cap
        → send_handoff cfg rt p op force w
          ≡ send_loop cfg rt p op force (suc cfg.retries) (handed w)
    unfolding send_handoff handed
    send_handoff-loop w laws free ne pos fits =
        let same = (laws.tracing ChannelTrace.send_beg w free).chans in
        ground (arith, at_chan op.ch same)
