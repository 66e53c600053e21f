-- ===== src/Protocol/Invariant.antt =====
-- The invariant of the channel protocol, between any two accesses of the two processes.
use tpa.Base.{
  ℕ, zero, suc, ◌+◌, ◌≡◌, Bool, true, false, ◌&&◌, ◌||◌, not, ◌==◌, List, [], ◌∷◌, if◌then◌else◌,
}
use tpa.State.ChannelState
use tpa.Protocol.{Line, SenderPc, ReceiverPc}

-- The sender has set TX.
abbrev pub sender_holds : SenderPc → Bool
sender_holds SenderPc.filling = true
sender_holds SenderPc.marking = true
sender_holds SenderPc.offering = true
sender_holds SenderPc.handing = true
sender_holds SenderPc.releasing = true
sender_holds _ = false

-- The receiver has set RX.
abbrev pub receiver_holds : ReceiverPc → Bool
receiver_holds ReceiverPc.marking = true
receiver_holds ReceiverPc.offering = true
receiver_holds ReceiverPc.taking = true
receiver_holds ReceiverPc.releasing = true
receiver_holds _ = false

abbrev pub sender_parked : SenderPc → Bool
sender_parked SenderPc.parked = true
sender_parked _ = false

abbrev pub receiver_parked : ReceiverPc → Bool
receiver_parked ReceiverPc.parked = true
receiver_parked _ = false

-- The sender serves a receiver that waits.
abbrev pub serves : SenderPc → Bool
serves SenderPc.handing = true
serves SenderPc.releasing = true
serves SenderPc.waking = true
serves _ = false

-- The receiver serves a sender that waits.
abbrev pub collects : ReceiverPc → Bool
collects ReceiverPc.taking = true
collects ReceiverPc.releasing = true
collects ReceiverPc.waking = true
collects _ = false

abbrev pub filled : SenderPc → Bool
filled SenderPc.marking = true
filled SenderPc.offering = true
filled _ = false

abbrev pub sender_wakes : SenderPc → Bool
sender_wakes SenderPc.waking = true
sender_wakes _ = false

abbrev pub published : SenderPc → Bool
published SenderPc.releasing = true
published SenderPc.waking = true
published _ = false

abbrev pub is_taking : ReceiverPc → Bool
is_taking ReceiverPc.taking = true
is_taking _ = false

abbrev pub took : ReceiverPc → Bool
took ReceiverPc.releasing = true
took ReceiverPc.waking = true
took _ = false

abbrev pub receiver_wakes : ReceiverPc → Bool
receiver_wakes ReceiverPc.waking = true
receiver_wakes _ = false

abbrev pub one_if : Bool → ℕ
one_if b = if b then 1 else 0

abbrev pub count : List ℕ → ℕ
count [] = 0
count (m ∷ ms) = suc (count ms)

-- n - 1, …, 1, 0
abbrev pub countdown : ℕ → List ℕ
countdown zero = []
countdown (suc n) = n ∷ countdown n

pub record Inv (l : Line) (s : SenderPc) (r : ReceiverPc) : Type 0 where
  pub known : (l.state == 0 || l.state == 1 || l.state == 2 || l.state == 3 || l.state == 4) ≡ true
  pub tx_held : (l.state == ChannelState.tx) ≡ sender_holds s
  pub rx_held : (l.state == ChannelState.rx) ≡ receiver_holds r
  -- Who waits, and is not woken yet, has offered something, or is being served.
  pub sender_waits :
      (sender_parked s && not l.tx_ready) ≡ (l.state == ChannelState.wait_tx || collects r)
  pub receiver_waits :
      (receiver_parked r && not l.rx_ready) ≡ (l.state == ChannelState.wait_rx || serves s)
  -- Ready bits are for those that wait.
  pub tx_woken : l.tx_ready ≡ true → sender_parked s ≡ true
  pub rx_woken : l.rx_ready ≡ true → receiver_parked r ≡ true
  -- Nobody uses the channel before the other side is woken.
  pub tx_done : sender_wakes s ≡ true → l.state ≡ ChannelState.empty
  pub rx_done : receiver_wakes r ≡ true → l.state ≡ ChannelState.empty
  -- Messages that have arrived, and messages that have been handed over.
  pub balance :
      count l.received + one_if (l.rx_ready || sender_wakes s)
      ≡ l.sent + one_if (l.tx_ready || sender_wakes s || took r)
  pub in_buf : (filled s || l.state == ChannelState.wait_tx || is_taking r) ≡ true → l.buf ≡ l.sent
  pub in_mail : (l.rx_ready || published s) ≡ true → l.mail ≡ count l.received
  pub order : l.received ≡ countdown (count l.received)
