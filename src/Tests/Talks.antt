-- ===== src/Tests/Talks.antt =====
-- Tests of the protocol of a channel.
use tpa.Base.{suc, ◌≡◌, ◌≤◌, ◌⊎◌, refl, true, false, ◌&&◌, ◌==◌, [], ◌∷◌}
use tpa.State.ChannelState
use tpa.Protocol.{SenderPc, ReceiverPc, SenderMove, ReceiverMove, Talk, Access, Reachable}
use tpa.Protocol.Invariant.{sender_holds, receiver_holds, count, countdown}
use tpa.Protocol.Order.{
  SenderGoesOn, ReceiverGoesOn, received_in_order, holds_exclusive, never_stuck,
}

-- Message 0 has gone to a receiver that came first, and message 1 waits in the channel.
abbrev talk : Talk
talk = record {
  line = record {
    state = ChannelState.wait_tx;
    buf = 1;
    mail = 0;
    tx_ready = false;
    rx_ready = false;
    sent = 1;
    received = 0 ∷ [];
  };
  sender = SenderPc.parked;
  receiver = ReceiverPc.polling;
}

abbrev waiting_first : Reachable (record talk {
  line = record {
    state = ChannelState.empty;
    buf = 0;
    mail = 0;
    tx_ready = false;
    rx_ready = true;
    sent = 1;
    received = [];
  };
  sender = SenderPc.polling;
  receiver = ReceiverPc.parked;
})
waiting_first =
    Reachable.later
      (Reachable.later
        (Reachable.later
          (Reachable.later
            (Reachable.later
              (Reachable.later
                (Reachable.later
                  (Reachable.later
                    (Reachable.later Reachable.start
                      (Access.receiver_moves (ReceiverMove.poll_empty refl)))
                    (Access.receiver_moves (ReceiverMove.claim refl)))
                  (Access.receiver_moves ReceiverMove.mark))
                (Access.receiver_moves ReceiverMove.offer))
              (Access.sender_moves (SenderMove.poll_wait refl)))
            (Access.sender_moves (SenderMove.claim_wait refl)))
          (Access.sender_moves SenderMove.publish))
        (Access.sender_moves SenderMove.release))
      (Access.sender_moves SenderMove.wake)

abbrev talked : Reachable talk
talked =
    Reachable.later
      (Reachable.later
        (Reachable.later
          (Reachable.later
            (Reachable.later
              (Reachable.later waiting_first (Access.sender_moves (SenderMove.poll_empty refl)))
              (Access.sender_moves (SenderMove.claim refl)))
            (Access.sender_moves SenderMove.fill))
          (Access.sender_moves SenderMove.mark))
        (Access.receiver_moves (ReceiverMove.resume refl)))
      (Access.sender_moves SenderMove.offer)

received_in_order_example :
    (talk.line.received ≡ countdown (count talk.line.received))
    × (count talk.line.received ≤ suc talk.line.sent)
    × (talk.line.sent ≤ suc (count talk.line.received))
received_in_order_example = received_in_order talked

holds_exclusive_example :
    ((sender_holds talk.sender && receiver_holds talk.receiver) ≡ false)
    × ((talk.line.state == ChannelState.tx) ≡ sender_holds talk.sender)
    × ((talk.line.state == ChannelState.rx) ≡ receiver_holds talk.receiver)
holds_exclusive_example = holds_exclusive talked

never_stuck_example : SenderGoesOn talk.line talk.sender ⊎ ReceiverGoesOn talk.line talk.receiver
never_stuck_example = never_stuck talked
