-- ===== src/Channel/Recv.antt =====
-- The loop of `tpa_channel_recv` and its two endings, over any runtime that keeps the laws.
pub mod Outcome
use tpa.Base.{
  ℕ, zero, suc, ◌≤◌, ◌<◌, ◌≡◌, ◌≢◌, ◌⊎◌, refl, ap, sym, fun_ext, ◌∙◌, Bool, true, false, ◌&&◌, not,
  arith, ◌==◌, ltb, Bool-cases, inl, inr, ne→==, if◌then◌else◌, update,
}
use tpa.State.{
  null, Chan, ChannelEp, act, ◌>>◌, ChannelOp, Region, flush, World, spinning, hung, emit, set_chan,
  Config, Unit0, and_then, evict, ok,
}
use tpa.State.Kind
use tpa.State.ChannelState
use tpa.State.ChannelTrace
use tpa.State.Returns
use tpa.State.Returns.{Returns, LocksFree}
use tpa.Channel.{
  ChannelRuntime, channel_bug, channel_trace, rotate_buf, channel_rbuf, offer, set_state,
  deliver_buf, check_len, requires_storage, recv_wait, recv_deliver, recv_loop, recv_handoff, recv,
  call_wait_recv, call_wake_ep, call_run_proc,
}
use tpa.Channel.Laws.{Keeps, RuntimeLaws, Leaves, at_chan, then-Keeps, then_set_state, since}
use tpa.Channel.Handoff.{IsCarried, stores, HasStorage, turned, deliver_buf-Leaves, finish_handoff}
use tpa.Process.{store_ptr, store_word}

module _ (cfg : Config) (rt : ChannelRuntime) where
  module _ (p : ℕ) (op : ChannelOp) (force : Bool) where
    pub recv_loop-empty :
        (n : ℕ) (w : World)
        → (w.chans op.ch).state ≡ ChannelState.empty
        → recv_loop cfg rt p op force (suc n) w
          ≡ recv_wait cfg rt p op force
              (set_chan op.ch (record (w.chans op.ch) { state = ChannelState.rx }) w)
    unfolding recv_loop
    recv_loop-empty n w e = ground arith

    pub recv_loop-wait_tx :
        (n : ℕ) (w : World)
        → (w.chans op.ch).state ≡ ChannelState.wait_tx
        → recv_loop cfg rt p op force (suc n) w
          ≡ recv_deliver cfg rt p op force
              (set_chan op.ch (record (w.chans op.ch) { state = ChannelState.rx }) w)
    unfolding recv_loop
    recv_loop-wait_tx n w e = ground arith

    pub recv_wait-Leaves :
        (w : World)
        → RuntimeLaws cfg rt
        → LocksFree w
        → Returns
            (λ _ v. Leaves w op.ch (record (w.chans op.ch) { state = ChannelState.wait_rx }) v)
            (recv_wait cfg rt p op force w)
    unfolding recv_wait
    recv_wait-Leaves w laws free =
        Returns.bind (λ _ v. Keeps w v) _ _ _ (laws.waiting_recv p op w free)
          (λ _ v kept.
            let traced =
              laws.tracing ChannelTrace.recv_end (set_state op.ch ChannelState.wait_rx v)
                kept.locks in
            record {
              chans = fun_ext λ d.
                  ground
                    (arith, at_chan d kept.chans, at_chan op.ch kept.chans, at_chan d traced.chans);
              locks = traced.locks;
            })

    check_len-fits :
        (c len : ℕ) (w : World)
        → 0 < (w.chans c).cap
        → len ≤ (w.chans c).cap
        → check_len cfg rt c len w ≡ ok tt w
    check_len-fits c len w pos fits = ground arith

    store-Leaves :
        (w : World) (ch : Chan) (bufp lenp buf len : ℕ) (u : World)
        → Leaves w op.ch ch u
        → Leaves w op.ch ch (store_word lenp len (store_ptr bufp buf u))
    store-Leaves w ch bufp lenp buf len u l = record {
      chans = ground (arith, l.chans);
      locks = λ h. ground (arith, l.locks h);
    }

    pub recv_deliver-Leaves :
        (w : World)
        → RuntimeLaws cfg rt
        → 0 < (w.chans op.ch).cap
        → (w.chans op.ch).len ≤ (w.chans op.ch).cap
        → HasStorage force (w.chans op.ch)
        → LocksFree w
        → Returns
            (λ _ v.
              Leaves w op.ch
                (record (turned force (w.chans op.ch)) { state = ChannelState.empty })
                v)
            (recv_deliver cfg rt p op force w)
    unfolding recv_deliver
    recv_deliver-Leaves w laws pos fits room free =
        let ch = w.chans op.ch in
        let w0 = emit (evict (Region.bytes_at ch.buf ch.len)) w in
        rw (check_len-fits op.ch ch.len w pos fits) (
          Returns.bind (λ _ v. Leaves w0 op.ch (turned force ch) v) _ _ _
            (deliver_buf-Leaves cfg rt op.ch ch.buf ch.len force w0 room free)
            (λ buf w1 k1.
              let w2 = store_word op.lenp ch.len (store_ptr op.bufp buf w1) in
              let l2 =
                store-Leaves w (turned force ch) op.bufp op.lenp buf ch.len w1
                  (record { chans = k1.chans; locks = k1.locks }) in
              let l3 = then_set_state op.ch ChannelState.empty l2 in
              finish_handoff cfg rt w op.ch _ p op.next ChannelTrace.recv_end
                (set_state op.ch ChannelState.empty w2) laws l3
                (((set_state op.ch ChannelState.empty w2).chans op.ch).tx)))

    -- A channel that is being changed, or where a receiver waits already.
    pub recv_loop-busy :
        (n : ℕ) (w : World)
        → (w.chans op.ch).state ≢ ChannelState.empty
        → (w.chans op.ch).state ≢ ChannelState.wait_tx
        → recv_loop cfg rt p op force n w ≡ spinning w
    unfolding recv_loop
    recv_loop-busy zero w ne nw = refl
    recv_loop-busy (suc n) w ne nw = ground (arith, recv_loop-busy n w)
