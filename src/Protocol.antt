-- ===== src/Protocol.antt =====
-- A channel between its two processes, one shared access at a time: the loops of
-- `channel_send_handoff` and `channel_recv_handoff` of tpa/lib/src/channel.c. The sender sends one
-- message after the other, and `sent` is the number of the one it is at; the receiver receives one
-- after the other, `received` being the numbers of those it has got, the newest first. A number
-- stands for the buffer and the length of a message. `tx_ready` and `rx_ready` are the ready bits of
-- the two processes.
pub mod Invariant
pub mod Senders
pub mod Receivers
pub mod Order
use tpa.Base.{ℕ, suc, ◌≡◌, ◌≢◌, Bool, true, false, List, [], ◌∷◌}
use tpa.State.ChannelState

pub record Line : Type 0 where
  pub state : ℕ
  pub buf : ℕ
  pub mail : ℕ
  pub tx_ready : Bool
  pub rx_ready : Bool
  pub sent : ℕ
  pub received : List ℕ

-- Where the sender stands in `channel_send_handoff`.
pub data SenderPc : Type 0 where
  polling : SenderPc  -- before `tpa_channel_state`
  saw_empty : SenderPc
  saw_wait : SenderPc  -- has seen WAIT_RX
  filling : SenderPc  -- before the fields of the channel are written
  marking : SenderPc  -- before `channel_wait_send`
  offering : SenderPc  -- before WAIT_TX is set
  parked : SenderPc  -- waits to be woken
  handing : SenderPc  -- before `channel_publish_msg`
  releasing : SenderPc  -- before EMPTY is set
  waking : SenderPc  -- before `channel_wake_ep`

-- Where the receiver stands in `channel_recv_handoff`.
pub data ReceiverPc : Type 0 where
  polling : ReceiverPc
  saw_empty : ReceiverPc
  saw_wait : ReceiverPc  -- has seen WAIT_TX
  marking : ReceiverPc  -- before `channel_wait_recv`
  offering : ReceiverPc  -- before WAIT_RX is set
  parked : ReceiverPc
  taking : ReceiverPc  -- before the message is read
  releasing : ReceiverPc
  waking : ReceiverPc

abbrev pub in_state : ℕ → Line → Line
in_state state l = record l { state = state }

pub data SenderMove (l : Line) : SenderPc → Line → SenderPc → Type 0 where
  poll_empty : l.state ≡ ChannelState.empty → SenderMove l SenderPc.polling l SenderPc.saw_empty
  poll_wait : l.state ≡ ChannelState.wait_rx → SenderMove l SenderPc.polling l SenderPc.saw_wait
  poll_again :
      l.state ≢ ChannelState.empty
      → l.state ≢ ChannelState.wait_rx
      → SenderMove l SenderPc.polling l SenderPc.polling
  claim :
      l.state ≡ ChannelState.empty
      → SenderMove l SenderPc.saw_empty (in_state ChannelState.tx l) SenderPc.filling
  miss : l.state ≢ ChannelState.empty → SenderMove l SenderPc.saw_empty l SenderPc.polling
  fill : SenderMove l SenderPc.filling (record l { buf = l.sent }) SenderPc.marking
  mark : SenderMove l SenderPc.marking l SenderPc.offering
  offer : SenderMove l SenderPc.offering (in_state ChannelState.wait_tx l) SenderPc.parked
  resume :
      l.tx_ready ≡ true
      → SenderMove l SenderPc.parked
          (record l { tx_ready = false; sent = suc l.sent })
          SenderPc.polling
  claim_wait :
      l.state ≡ ChannelState.wait_rx
      → SenderMove l SenderPc.saw_wait (in_state ChannelState.tx l) SenderPc.handing
  miss_wait : l.state ≢ ChannelState.wait_rx → SenderMove l SenderPc.saw_wait l SenderPc.polling
  publish : SenderMove l SenderPc.handing (record l { mail = l.sent }) SenderPc.releasing
  release : SenderMove l SenderPc.releasing (in_state ChannelState.empty l) SenderPc.waking
  wake :
      SenderMove l SenderPc.waking
        (record l { rx_ready = true; sent = suc l.sent })
        SenderPc.polling

pub data ReceiverMove (l : Line) : ReceiverPc → Line → ReceiverPc → Type 0 where
  poll_empty :
      l.state ≡ ChannelState.empty → ReceiverMove l ReceiverPc.polling l ReceiverPc.saw_empty
  poll_wait :
      l.state ≡ ChannelState.wait_tx → ReceiverMove l ReceiverPc.polling l ReceiverPc.saw_wait
  poll_again :
      l.state ≢ ChannelState.empty
      → l.state ≢ ChannelState.wait_tx
      → ReceiverMove l ReceiverPc.polling l ReceiverPc.polling
  claim :
      l.state ≡ ChannelState.empty
      → ReceiverMove l ReceiverPc.saw_empty (in_state ChannelState.rx l) ReceiverPc.marking
  miss : l.state ≢ ChannelState.empty → ReceiverMove l ReceiverPc.saw_empty l ReceiverPc.polling
  mark : ReceiverMove l ReceiverPc.marking l ReceiverPc.offering
  offer : ReceiverMove l ReceiverPc.offering (in_state ChannelState.wait_rx l) ReceiverPc.parked
  resume :
      l.rx_ready ≡ true
      → ReceiverMove l ReceiverPc.parked
          (record l { rx_ready = false; received = l.mail ∷ l.received })
          ReceiverPc.polling
  claim_wait :
      l.state ≡ ChannelState.wait_tx
      → ReceiverMove l ReceiverPc.saw_wait (in_state ChannelState.rx l) ReceiverPc.taking
  miss_wait :
      l.state ≢ ChannelState.wait_tx → ReceiverMove l ReceiverPc.saw_wait l ReceiverPc.polling
  take :
      ReceiverMove l ReceiverPc.taking
        (record l { received = l.buf ∷ l.received })
        ReceiverPc.releasing
  release : ReceiverMove l ReceiverPc.releasing (in_state ChannelState.empty l) ReceiverPc.waking
  wake : ReceiverMove l ReceiverPc.waking (record l { tx_ready = true }) ReceiverPc.polling

pub record Talk : Type 0 where
  pub line : Line
  pub sender : SenderPc
  pub receiver : ReceiverPc

pub data Access (t : Talk) : Talk → Type 0 where
  sender_moves :
      {l : Line} {p : SenderPc}
      → SenderMove t.line t.sender l p
      → Access t (record t { line = l; sender = p })
  receiver_moves :
      {l : Line} {p : ReceiverPc}
      → ReceiverMove t.line t.receiver l p
      → Access t (record t { line = l; receiver = p })

-- An EMPTY channel, before the first message.
abbrev pub begun : Talk
begun = record {
  line = record {
    state = ChannelState.empty;
    buf = 0;
    mail = 0;
    tx_ready = false;
    rx_ready = false;
    sent = 0;
    received = [];
  };
  sender = SenderPc.polling;
  receiver = ReceiverPc.polling;
}

pub data Reachable : Talk → Type 0 where
  start : Reachable begun
  later : {s t : Talk} → Reachable s → Access s t → Reachable t
