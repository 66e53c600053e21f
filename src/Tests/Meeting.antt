-- ===== src/Tests/Meeting.antt =====
-- Tests of channels and of the callbacks behind them.
use tpa.Base.{◌+◌, ◌≡◌, inl, inr, refl, true, arith, if◌then◌else◌}
use tpa.State.{and_then}
use tpa.State.ChannelState
use tpa.State.Returns.{Returns, Hangs}
use tpa.Tests.{machine, blank, to_one, long_to_one, from_one, tx_waits, rx_waits}
use tpa.Channel.{offer, channel_rbuf, deliver_buf, channel_trace, requires_storage, send, recv}
use tpa.Channel.Laws.{Leaves}
use tpa.Channel.Handoff.{stores, turned}
use tpa.Channel.Send.Outcome.{send-wait_rx}
use tpa.Channel.Recv.Outcome.{recv-wait_tx}
use tpa.Channel.Rendezvous.{send-then-recv, recv-then-send}
use tpa.Channel.Copy.{deliver_buf-bytes, deliver_buf-frame}
use tpa.Runtime.{channel_rt}
use tpa.Runtime.Laws.{channel_rt-RuntimeLaws}
use tpa.Runtime.Promises.{KeepsPromises, channel_rt-KeepsPromises}
use tpa.Runtime.Faults.{send-unfit}
use tpa.Channel

send-then-recv_example :
    Returns
      (λ _ v.
        Leaves blank to_one.ch
          (record (turned
            (requires_storage (blank.chans to_one.ch))
            (offer to_one (blank.chans to_one.ch))) { state = ChannelState.empty })
          v)
      (and_then
        (send machine (channel_rt machine 0) 1 to_one blank)
        (λ _. recv machine (channel_rt machine 1) 2 (record from_one { ch = to_one.ch })))
send-then-recv_example =
    send-then-recv machine (channel_rt machine 0) (channel_rt machine 1) 1 2 to_one from_one blank
      (channel_rt-RuntimeLaws machine 0) (channel_rt-RuntimeLaws machine 1) (λ h. refl)
      (omega arith) (inr refl) (omega arith) (omega arith) (inr (omega arith)) refl

recv-then-send_example :
    Returns
      (λ _ v.
        Leaves blank to_one.ch
          (record (turned (requires_storage (blank.chans to_one.ch)) (blank.chans to_one.ch)) {
            state = ChannelState.empty;
          })
          v)
      (and_then
        (recv machine (channel_rt machine 1) 2 (record from_one { ch = to_one.ch }) blank)
        (λ _. send machine (channel_rt machine 0) 1 to_one))
recv-then-send_example =
    recv-then-send machine (channel_rt machine 0) (channel_rt machine 1) 1 2 to_one from_one blank
      (channel_rt-RuntimeLaws machine 0) (channel_rt-RuntimeLaws machine 1) (λ h. refl)
      (omega arith) (inr refl) (omega arith) (omega arith) (inr (omega arith)) refl

send-wait_rx_example :
    Returns
      (λ _ v.
        Leaves rx_waits to_one.ch
          (record (turned
            (requires_storage (rx_waits.chans to_one.ch))
            (rx_waits.chans to_one.ch)) { state = ChannelState.empty })
          v)
      (send machine (channel_rt machine 0) 1 to_one rx_waits)
send-wait_rx_example =
    send-wait_rx machine (channel_rt machine 0) 1 to_one rx_waits (channel_rt-RuntimeLaws machine 0)
      (λ h. refl) (omega arith) (inr refl) (omega arith) (omega arith) (inr (omega arith)) refl

recv-wait_tx_example :
    Returns
      (λ _ v.
        Leaves tx_waits from_one.ch
          (record (turned
            (requires_storage (tx_waits.chans from_one.ch))
            (tx_waits.chans from_one.ch)) { state = ChannelState.empty })
          v)
      (recv machine (channel_rt machine 0) 1 from_one tx_waits)
recv-wait_tx_example =
    recv-wait_tx machine (channel_rt machine 0) 1 from_one tx_waits
      (channel_rt-RuntimeLaws machine 0) (λ h. refl) (omega arith) (inr refl) (omega arith)
      (omega arith) (inr (omega arith)) refl

deliver_buf-bytes_example :
    Returns
      (λ buf v.
        (v.mem.bytes (buf + 3) ≡ blank.mem.bytes (16 + 3))
        × (v.mem.bytes (16 + 3) ≡ blank.mem.bytes (16 + 3))
        × (buf ≡ (if stores true (blank.chans 1) then channel_rbuf (blank.chans 1) else 16)))
      (deliver_buf machine (channel_rt machine 0) 1 16 8 true blank)
deliver_buf-bytes_example =
    deliver_buf-bytes machine (channel_rt machine 0) 1 16 8 3 true blank (inr (omega arith))
      (λ h. inr (inl (omega arith))) (omega arith)

deliver_buf-frame_example :
    Returns
      (λ _ v. v.mem.bytes 72 ≡ blank.mem.bytes 72)
      (deliver_buf machine (channel_rt machine 0) 1 16 8 true blank)
deliver_buf-frame_example =
    deliver_buf-frame machine (channel_rt machine 0) 1 16 8 72 true blank (inr (omega arith))
      (inr (omega arith))

channel_rt-KeepsPromises_example : KeepsPromises machine (channel_rt machine 0)
channel_rt-KeepsPromises_example = channel_rt-KeepsPromises machine 0

send-unfit_example :
    Hangs
      (λ v. (v.failed ≡ 1) × (v.chans ≡ blank.chans))
      (Channel.send machine (channel_rt machine 0) 1 long_to_one blank)
send-unfit_example =
    send-unfit machine 0 1 long_to_one blank (omega arith) (inr refl) (inr (omega arith))
