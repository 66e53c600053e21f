-- ===== src/Channel/Rendezvous.antt =====
-- The two orders in which a sender and a receiver can meet on a channel.
use tpa.Base.{ℕ, ◌≤◌, ◌<◌, ◌≡◌, ◌≢◌, arith}
use tpa.State.{null, ChannelOp, World, Config, and_then}
use tpa.State.ChannelState
use tpa.State.Returns
use tpa.State.Returns.{Returns, LocksFree}
use tpa.Channel.{ChannelRuntime, offer, requires_storage, send, recv}
use tpa.Channel.Laws.{RuntimeLaws, Leaves, at_chan, since}
use tpa.Channel.Handoff.{IsCarried, HasStorage, turned}
use tpa.Channel.Send.Outcome.{send-empty, send-wait_rx}
use tpa.Channel.Recv.Outcome.{recv-empty, recv-wait_tx}

module _ (cfg : Config) (rt rt' : ChannelRuntime) (p p' : ℕ) (op op' : ChannelOp) (w : World) where
  -- The sender comes first: it sends a message that fits on an EMPTY channel that has the storage
  -- it needs, and waits, and then the receiver comes. Both calls return, whatever hart each runs
  -- on, and the channel is EMPTY again, its buffers turned if the message went through them; no
  -- other channel has changed. The callbacks keep the laws, no run queue is locked, and the
  -- channel is not null and of a kind that the core carries out.
  pub send-then-recv :
      RuntimeLaws cfg rt
      → RuntimeLaws cfg rt'
      → LocksFree w
      → op.ch ≢ null
      → IsCarried (w.chans op.ch)
      → 0 < (w.chans op.ch).cap
      → op.len ≤ (w.chans op.ch).cap
      → HasStorage (requires_storage (w.chans op.ch)) (w.chans op.ch)
      → (w.chans op.ch).state ≡ ChannelState.empty
      → Returns
          (λ _ v.
            Leaves w op.ch
              (record (turned (requires_storage (w.chans op.ch)) (offer op (w.chans op.ch))) {
                state = ChannelState.empty;
              })
              v)
          (and_then (send cfg rt p op w) (λ _. recv cfg rt' p' (record op' { ch = op.ch })))
  send-then-recv laws laws' free ne carried pos fits room e =
      Returns.bind
        (λ _ v.
          Leaves w op.ch (record (offer op (w.chans op.ch)) { state = ChannelState.wait_tx }) v)
        _ _ _ (send-empty cfg rt p op w laws free ne carried pos fits e)
        (λ _ u l.
          let there = at_chan op.ch l.chans in
          Returns.mono _ _ _
            (recv-wait_tx cfg rt' p' (record op' { ch = op.ch }) u laws' l.locks ne
              (ground (arith, there)) (ground (arith, there)) (ground (arith, there))
              (ground (arith, there)) (ground (arith, there)))
            (λ _ v m. since w u op.ch _ _ _ v l.chans (ground (arith, there)) m))

  -- The receiver comes first, on an EMPTY channel that has the storage it needs, and waits, and
  -- then the sender comes with a message that fits. Both calls return, and the channel is EMPTY
  -- again, its buffers turned if the message went through them; no other channel has changed. The
  -- callbacks keep the laws, no run queue is locked, and the channel is not null and of a kind
  -- that the core carries out.
  pub recv-then-send :
      RuntimeLaws cfg rt
      → RuntimeLaws cfg rt'
      → LocksFree w
      → op.ch ≢ null
      → IsCarried (w.chans op.ch)
      → 0 < (w.chans op.ch).cap
      → op.len ≤ (w.chans op.ch).cap
      → HasStorage (requires_storage (w.chans op.ch)) (w.chans op.ch)
      → (w.chans op.ch).state ≡ ChannelState.empty
      → Returns
          (λ _ v.
            Leaves w op.ch
              (record (turned (requires_storage (w.chans op.ch)) (w.chans op.ch)) {
                state = ChannelState.empty;
              })
              v)
          (and_then (recv cfg rt' p' (record op' { ch = op.ch }) w) (λ _. send cfg rt p op))
  recv-then-send laws laws' free ne carried pos fits room e =
      Returns.bind
        (λ _ v. Leaves w op.ch (record (w.chans op.ch) { state = ChannelState.wait_rx }) v) _ _ _
        (recv-empty cfg rt' p' (record op' { ch = op.ch }) w laws' free ne carried e)
        (λ _ u l.
          let there = at_chan op.ch l.chans in
          Returns.mono _ _ _
            (send-wait_rx cfg rt p op u laws l.locks ne (ground (arith, there))
              (ground (arith, there)) (ground (arith, there)) (ground (arith, there))
              (ground (arith, there)))
            (λ _ v m. since w u op.ch _ _ _ v l.chans (ground (arith, there)) m))
