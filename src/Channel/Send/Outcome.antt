-- ===== src/Channel/Send/Outcome.antt =====
-- `tpa_channel_send`, branch by branch, over any runtime that keeps the laws.
use tpa.Base.{ℕ, suc, ◌≤◌, ◌<◌, ◌≡◌, ◌≢◌, ap, sym, fun_ext, ◌∙◌, Bool, arith, update}
use tpa.State.{null, Chan, ChannelOp, World, spinning, set_chan, Config}
use tpa.State.ChannelState
use tpa.State.ChannelTrace
use tpa.State.Returns
use tpa.State.Returns.{Returns, LocksFree}
use tpa.Channel.{ChannelRuntime, offer, requires_storage, send_loop, send_handoff, send}
use tpa.Channel.Laws.{Keeps, RuntimeLaws, Leaves, at_chan, since}
use tpa.Channel.Handoff.{IsCarried, HasStorage, turned}
use tpa.Channel.Send.{
  send_loop-empty, send_loop-wait_rx, send_wait-Leaves, send_deliver-Leaves, send_loop-busy, handed,
  send_handoff-loop,
}

module _ (cfg : Config) (rt : ChannelRuntime) where
  module _ (p : ℕ) (op : ChannelOp) (force : Bool) where
    -- The sender holds the channel.
    abbrev taken : World → World
    taken w =
        set_chan op.ch
          (record ((handed cfg rt p op force w).chans op.ch) { state = ChannelState.tx })
          (handed cfg rt p op force w)

    taken-chans :
        (w : World)
        → RuntimeLaws cfg rt
        → LocksFree w
        → (taken w).chans
          ≡ update w.chans op.ch (record (w.chans op.ch) { state = ChannelState.tx })
    unfolding handed
    taken-chans w laws free =
        let same = (laws.tracing ChannelTrace.send_beg w free).chans in
        fun_ext λ d. ground (arith, at_chan op.ch same, at_chan d same)

    handed-Keeps :
        (w : World) → RuntimeLaws cfg rt → LocksFree w → Keeps w (handed cfg rt p op force w)
    unfolding handed
    handed-Keeps w laws free =
        let k = laws.tracing ChannelTrace.send_beg w free in
        record { chans = k.chans; locks = k.locks }

  module _ (p : ℕ) (op : ChannelOp) (w : World) where
    send-handoff :
        op.ch ≢ null
        → IsCarried (w.chans op.ch)
        → send cfg rt p op w ≡ send_handoff cfg rt p op (requires_storage (w.chans op.ch)) w
    unfolding send
    send-handoff ne carried = ground arith

    send-loop :
        RuntimeLaws cfg rt
        → LocksFree w
        → op.ch ≢ null
        → IsCarried (w.chans op.ch)
        → 0 < (w.chans op.ch).cap
        → op.len ≤ (w.chans op.ch).cap
        → send cfg rt p op w
          ≡ send_loop cfg rt p op
              (requires_storage (w.chans op.ch))
              (suc cfg.retries)
              (handed cfg rt p op (requires_storage (w.chans op.ch)) w)
    send-loop laws free ne carried pos fits =
        send-handoff ne carried
        ∙ send_handoff-loop cfg rt p op (requires_storage (w.chans op.ch)) w laws free ne pos fits

    -- `tpa_channel_send` on an EMPTY channel, with a message that fits, returns. It leaves the
    -- message in the channel, in state WAIT_TX, and it changes no other channel. The callbacks
    -- keep the laws, no run queue is locked, and the channel is not null and of a kind that the
    -- core carries out.
    pub send-empty :
        RuntimeLaws cfg rt
        → LocksFree w
        → op.ch ≢ null
        → IsCarried (w.chans op.ch)
        → 0 < (w.chans op.ch).cap
        → op.len ≤ (w.chans op.ch).cap
        → (w.chans op.ch).state ≡ ChannelState.empty
        → Returns
            (λ _ v.
              Leaves w op.ch (record (offer op (w.chans op.ch)) { state = ChannelState.wait_tx }) v)
            (send cfg rt p op w)
    send-empty laws free ne carried pos fits e =
        let force = requires_storage (w.chans op.ch) in
        let v = handed cfg rt p op force w in
        let k = handed-Keeps p op force w laws free in
        let same = at_chan op.ch k.chans in
        let here = ap (λ (c : Chan). c.state) same ∙ e in
        let ex = taken-chans p op force w laws free in
        rw
          (
            send-loop laws free ne carried pos fits,
            send_loop-empty cfg rt p op force cfg.retries v here,
          )
          (Returns.mono _ _ _ (send_wait-Leaves cfg rt p op force (taken p op force w) laws k.locks)
            (λ _ u l.
              since w (taken p op force w) op.ch _ _ _ u ex (ground (arith, at_chan op.ch ex)) l))

    -- `tpa_channel_send` on a channel where a receiver waits returns, if the message fits and the
    -- channel has the storage that it needs. It leaves the channel EMPTY, its buffers turned if
    -- the message went through them, and it changes no other channel. The callbacks keep the laws,
    -- no run queue is locked, and the channel is not null and of a kind that the core carries out.
    pub send-wait_rx :
        RuntimeLaws cfg rt
        → LocksFree w
        → op.ch ≢ null
        → IsCarried (w.chans op.ch)
        → 0 < (w.chans op.ch).cap
        → op.len ≤ (w.chans op.ch).cap
        → HasStorage (requires_storage (w.chans op.ch)) (w.chans op.ch)
        → (w.chans op.ch).state ≡ ChannelState.wait_rx
        → Returns
            (λ _ v.
              Leaves w op.ch
                (record (turned (requires_storage (w.chans op.ch)) (w.chans op.ch)) {
                  state = ChannelState.empty;
                })
                v)
            (send cfg rt p op w)
    send-wait_rx laws free ne carried pos fits room e =
        let force = requires_storage (w.chans op.ch) in
        let v = handed cfg rt p op force w in
        let k = handed-Keeps p op force w laws free in
        let here = ap (λ (c : Chan). c.state) (at_chan op.ch k.chans) ∙ e in
        let ex = taken-chans p op force w laws free in
        let there = at_chan op.ch ex in
        rw
          (
            send-loop laws free ne carried pos fits,
            send_loop-wait_rx cfg rt p op force cfg.retries v here,
          )
          (Returns.mono _ _ _
            (send_deliver-Leaves cfg rt p op force (taken p op force w) laws (ground (arith, there))
              k.locks)
            (λ _ u l. since w (taken p op force w) op.ch _ _ _ u ex (ground (arith, there)) l))

    -- While another sender holds the channel or waits on it, or a receiver holds it,
    -- `tpa_channel_send` with a message that fits polls the state for as long as it may and
    -- changes no channel. The callbacks keep the laws, no run queue is locked, and the channel is
    -- not null and of a kind that the core carries out.
    pub send-busy :
        RuntimeLaws cfg rt
        → LocksFree w
        → op.ch ≢ null
        → IsCarried (w.chans op.ch)
        → 0 < (w.chans op.ch).cap
        → op.len ≤ (w.chans op.ch).cap
        → (w.chans op.ch).state ≢ ChannelState.empty
        → (w.chans op.ch).state ≢ ChannelState.wait_rx
        → (send cfg rt p op w ≡ spinning (handed cfg rt p op (requires_storage (w.chans op.ch)) w))
          × Keeps w (handed cfg rt p op (requires_storage (w.chans op.ch)) w)
    send-busy laws free ne carried pos fits not_empty not_waiting =
        let force = requires_storage (w.chans op.ch) in
        let v = handed cfg rt p op force w in
        let k = handed-Keeps p op force w laws free in
        let same = ap (λ (c : Chan). c.state) (at_chan op.ch k.chans) in
        (
          send-loop laws free ne carried pos fits
              ∙ send_loop-busy cfg rt p op force (suc cfg.retries) v (λ e. not_empty (sym same ∙ e))
                  (λ e. not_waiting (sym same ∙ e)),
          k,
        )
