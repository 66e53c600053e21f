-- ===== src/Channel/Recv/Outcome.antt =====
-- `tpa_channel_recv`, branch by branch, over any runtime that keeps the laws.
use tpa.Base.{ℕ, suc, ◌≤◌, ◌<◌, ◌≡◌, ◌≢◌, ap, sym, fun_ext, ◌∙◌, arith, update}
use tpa.State.{null, Chan, ChannelOp, World, spinning, set_chan, Config}
use tpa.State.ChannelState
use tpa.State.ChannelTrace
use tpa.State.Returns
use tpa.State.Returns.{Returns, LocksFree}
use tpa.Channel.{ChannelRuntime, channel_trace, requires_storage, recv_loop, recv_handoff, recv}
use tpa.Channel.Laws.{Keeps, RuntimeLaws, Leaves, at_chan, since}
use tpa.Channel.Handoff.{IsCarried, HasStorage, turned}
use tpa.Channel.Recv.{
  recv_loop-empty, recv_loop-wait_tx, recv_wait-Leaves, recv_deliver-Leaves, recv_loop-busy,
}

module _ (cfg : Config) (rt : ChannelRuntime) where
  module _ (c : ℕ) where
    abbrev begun : World → World
    begun w = channel_trace cfg rt ChannelTrace.recv_beg w

    -- The receiver holds the channel.
    abbrev taken : World → World
    taken w = set_chan c (record ((begun w).chans c) { state = ChannelState.rx }) (begun w)

    taken-chans :
        (w : World)
        → RuntimeLaws cfg rt
        → LocksFree w
        → (taken w).chans ≡ update w.chans c (record (w.chans c) { state = ChannelState.rx })
    taken-chans w laws free =
        let same = (laws.tracing ChannelTrace.recv_beg w free).chans in
        fun_ext λ d. ground (arith, at_chan c same, at_chan d same)

  module _ (p : ℕ) (op : ChannelOp) (w : World) where
    recv-loop :
        op.ch ≢ null
        → IsCarried (w.chans op.ch)
        → recv cfg rt p op w
          ≡ recv_loop cfg rt p op
              (requires_storage (w.chans op.ch))
              (suc cfg.retries)
              (begun op.ch w)
    unfolding recv recv_handoff
    recv-loop ne carried = ground arith

    -- `tpa_channel_recv` on an EMPTY channel returns. It leaves the channel in state WAIT_RX, and
    -- it changes nothing else of any channel. The callbacks keep the laws, no run queue is locked,
    -- and the channel is not null and of a kind that the core carries out.
    pub recv-empty :
        RuntimeLaws cfg rt
        → LocksFree w
        → op.ch ≢ null
        → IsCarried (w.chans op.ch)
        → (w.chans op.ch).state ≡ ChannelState.empty
        → Returns
            (λ _ v. Leaves w op.ch (record (w.chans op.ch) { state = ChannelState.wait_rx }) v)
            (recv cfg rt p op w)
    recv-empty laws free ne carried e =
        let force = requires_storage (w.chans op.ch) in
        let k = laws.tracing ChannelTrace.recv_beg w free in
        let here = ap (λ (c : Chan). c.state) (at_chan op.ch k.chans) ∙ e in
        let ex = taken-chans op.ch w laws free in
        rw
          (recv-loop ne carried, recv_loop-empty cfg rt p op force cfg.retries (begun op.ch w) here)
          (Returns.mono _ _ _ (recv_wait-Leaves cfg rt p op force (taken op.ch w) laws k.locks)
            (λ _ u l.
              since w (taken op.ch w) op.ch _ _ _ u ex (ground (arith, at_chan op.ch ex)) l))

    -- `tpa_channel_recv` on a channel where a message waits returns, if the message's length is
    -- within the channel's capacity, which is not 0, and the channel has the storage that it
    -- needs. It leaves the channel EMPTY, its buffers turned if the message went through them, and
    -- it changes no other channel. The callbacks keep the laws, no run queue is locked, and the
    -- channel is not null and of a kind that the core carries out.
    pub recv-wait_tx :
        RuntimeLaws cfg rt
        → LocksFree w
        → op.ch ≢ null
        → IsCarried (w.chans op.ch)
        → 0 < (w.chans op.ch).cap
        → (w.chans op.ch).len ≤ (w.chans op.ch).cap
        → HasStorage (requires_storage (w.chans op.ch)) (w.chans op.ch)
        → (w.chans op.ch).state ≡ ChannelState.wait_tx
        → Returns
            (λ _ v.
              Leaves w op.ch
                (record (turned (requires_storage (w.chans op.ch)) (w.chans op.ch)) {
                  state = ChannelState.empty;
                })
                v)
            (recv cfg rt p op w)
    recv-wait_tx laws free ne carried pos fits room e =
        let force = requires_storage (w.chans op.ch) in
        let k = laws.tracing ChannelTrace.recv_beg w free in
        let here = ap (λ (c : Chan). c.state) (at_chan op.ch k.chans) ∙ e in
        let ex = taken-chans op.ch w laws free in
        let there = at_chan op.ch ex in
        rw
          (
            recv-loop ne carried,
            recv_loop-wait_tx cfg rt p op force cfg.retries (begun op.ch w) here,
          )
          (Returns.mono _ _ _
            (recv_deliver-Leaves cfg rt p op force (taken op.ch w) laws (ground (arith, there))
              (ground (arith, there)) (ground (arith, there)) k.locks)
            (λ _ u l. since w (taken op.ch w) op.ch _ _ _ u ex (ground (arith, there)) l))

    -- While another receiver holds the channel or waits on it, or a sender holds it,
    -- `tpa_channel_recv` polls the state for as long as it may and changes no channel. The
    -- callbacks keep the laws, no run queue is locked, and the channel is not null and of a kind
    -- that the core carries out.
    pub recv-busy :
        RuntimeLaws cfg rt
        → LocksFree w
        → op.ch ≢ null
        → IsCarried (w.chans op.ch)
        → (w.chans op.ch).state ≢ ChannelState.empty
        → (w.chans op.ch).state ≢ ChannelState.wait_tx
        → (recv cfg rt p op w ≡ spinning (channel_trace cfg rt ChannelTrace.recv_beg w))
          × Keeps w (channel_trace cfg rt ChannelTrace.recv_beg w)
    recv-busy laws free ne carried not_empty not_waiting =
        let force = requires_storage (w.chans op.ch) in
        let k = laws.tracing ChannelTrace.recv_beg w free in
        let same = ap (λ (c : Chan). c.state) (at_chan op.ch k.chans) in
        (
          recv-loop ne carried
              ∙ recv_loop-busy cfg rt p op force (suc cfg.retries) (begun op.ch w)
                  (λ e. not_empty (sym same ∙ e)) (λ e. not_waiting (sym same ∙ e)),
          k,
        )
