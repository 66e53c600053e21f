-- ===== src/Protocol/Order.antt =====
-- The states that the accesses of the two processes lead to.
use tpa.Base.{
  suc, ◌≤◌, ◌≡◌, ◌≢◌, ◌⊎◌, inl, inr, Bool, true, false, ◌&&◌, ◌||◌, not, ◌==◌, refl, arith,
  Bool-cases,
}
use tpa.State.ChannelState
use tpa.Protocol.{
  Line, SenderPc, ReceiverPc, SenderMove, ReceiverMove, Talk, Access, Reachable, begun,
}
use tpa.Protocol.Invariant.{Inv, sender_holds, receiver_holds, count, countdown}
use tpa.Protocol.Senders.{SenderMove-Inv}
use tpa.Protocol.Receivers.{ReceiverMove-Inv}

Access-Inv :
    {t u : Talk} → Access t u → Inv t.line t.sender t.receiver → Inv u.line u.sender u.receiver
Access-Inv {t} (Access.sender_moves move) inv = SenderMove-Inv t.receiver move inv
Access-Inv {t} (Access.receiver_moves move) inv = ReceiverMove-Inv t.sender move inv

begun-Inv : Inv begun.line SenderPc.polling ReceiverPc.polling
begun-Inv = ground arith

pub Reachable-Inv : {t : Talk} → Reachable t → Inv t.line t.sender t.receiver
Reachable-Inv Reachable.start = begun-Inv
Reachable-Inv (Reachable.later before step) = Access-Inv step (Reachable-Inv before)

-- However the two processes interleave, the receiver has received the messages 0, 1, 2, … in the
-- order in which the sender sends them, each once and none left out, and it is never more than
-- one message away from the one that the sender is at.
pub received_in_order :
    {t : Talk}
    → Reachable t
    → (t.line.received ≡ countdown (count t.line.received))
      × (count t.line.received ≤ suc t.line.sent)
      × (t.line.sent ≤ suc (count t.line.received))
received_in_order {t} reach =
    let inv = Reachable-Inv reach in
    (inv.order, ground (arith, inv.balance), ground (arith, inv.balance))

-- The two processes never have the channel at once: of those that have moved it into TX or RX and
-- not out of it yet, there is one at most, and the state of the channel says which.
pub holds_exclusive :
    {t : Talk}
    → Reachable t
    → ((sender_holds t.sender && receiver_holds t.receiver) ≡ false)
      × ((t.line.state == ChannelState.tx) ≡ sender_holds t.sender)
      × ((t.line.state == ChannelState.rx) ≡ receiver_holds t.receiver)
holds_exclusive {t} reach =
    let inv = Reachable-Inv reach in
    (ground (arith, inv.tx_held, inv.rx_held), inv.tx_held, inv.rx_held)

-- A move that leads on, as `poll_again` does not.
abbrev pub SenderGoesOn : Line → SenderPc → Type 0
SenderGoesOn l s = (l' : Line) × (p : SenderPc) × SenderMove l s l' p × (p ≢ s)

abbrev pub ReceiverGoesOn : Line → ReceiverPc → Type 0
ReceiverGoesOn l r = (l' : Line) × (p : ReceiverPc) × ReceiverMove l r l' p × (p ≢ r)

receiver_goes_on :
    (l : Line) (r : ReceiverPc)
    → (r ≡ ReceiverPc.polling → (l.state ≡ ChannelState.empty) ⊎ (l.state ≡ ChannelState.wait_tx))
    → (r ≡ ReceiverPc.parked → l.rx_ready ≡ true)
    → ReceiverGoesOn l r
receiver_goes_on l ReceiverPc.polling polls waits = elim (polls refl) [
  | inl e ↦ (_, _, ReceiverMove.poll_empty e, λ e'. absurd (ground arith))
  | inr e ↦ (_, _, ReceiverMove.poll_wait e, λ e'. absurd (ground arith))
]
receiver_goes_on l ReceiverPc.saw_empty polls waits = elim (Bool-cases (l.state == 0)) [
  | inl e ↦ (_, _, ReceiverMove.claim (ground arith), λ e'. absurd (ground arith))
  | inr e ↦ (_, _, ReceiverMove.miss (ground arith), λ e'. absurd (ground arith))
]
receiver_goes_on l ReceiverPc.saw_wait polls waits = elim (Bool-cases (l.state == 2)) [
  | inl e ↦ (_, _, ReceiverMove.claim_wait (ground arith), λ e'. absurd (ground arith))
  | inr e ↦ (_, _, ReceiverMove.miss_wait (ground arith), λ e'. absurd (ground arith))
]
receiver_goes_on l ReceiverPc.marking polls waits =
    (_, _, ReceiverMove.mark, λ e'. absurd (ground arith))
receiver_goes_on l ReceiverPc.offering polls waits =
    (_, _, ReceiverMove.offer, λ e'. absurd (ground arith))
receiver_goes_on l ReceiverPc.parked polls waits =
    (_, _, ReceiverMove.resume (waits refl), λ e'. absurd (ground arith))
receiver_goes_on l ReceiverPc.taking polls waits =
    (_, _, ReceiverMove.take, λ e'. absurd (ground arith))
receiver_goes_on l ReceiverPc.releasing polls waits =
    (_, _, ReceiverMove.release, λ e'. absurd (ground arith))
receiver_goes_on l ReceiverPc.waking polls waits =
    (_, _, ReceiverMove.wake, λ e'. absurd (ground arith))

sender_goes_on :
    (l : Line) (s : SenderPc)
    → (s ≡ SenderPc.polling → (l.state ≡ ChannelState.empty) ⊎ (l.state ≡ ChannelState.wait_rx))
    → (s ≡ SenderPc.parked → l.tx_ready ≡ true)
    → SenderGoesOn l s
sender_goes_on l SenderPc.polling polls waits = elim (polls refl) [
  | inl e ↦ (_, _, SenderMove.poll_empty e, λ e'. absurd (ground arith))
  | inr e ↦ (_, _, SenderMove.poll_wait e, λ e'. absurd (ground arith))
]
sender_goes_on l SenderPc.saw_empty polls waits = elim (Bool-cases (l.state == 0)) [
  | inl e ↦ (_, _, SenderMove.claim (ground arith), λ e'. absurd (ground arith))
  | inr e ↦ (_, _, SenderMove.miss (ground arith), λ e'. absurd (ground arith))
]
sender_goes_on l SenderPc.saw_wait polls waits = elim (Bool-cases (l.state == 4)) [
  | inl e ↦ (_, _, SenderMove.claim_wait (ground arith), λ e'. absurd (ground arith))
  | inr e ↦ (_, _, SenderMove.miss_wait (ground arith), λ e'. absurd (ground arith))
]
sender_goes_on l SenderPc.filling polls waits = (_, _, SenderMove.fill, λ e'. absurd (ground arith))
sender_goes_on l SenderPc.marking polls waits = (_, _, SenderMove.mark, λ e'. absurd (ground arith))
sender_goes_on l SenderPc.offering polls waits =
    (_, _, SenderMove.offer, λ e'. absurd (ground arith))
sender_goes_on l SenderPc.parked polls waits =
    (_, _, SenderMove.resume (waits refl), λ e'. absurd (ground arith))
sender_goes_on l SenderPc.handing polls waits =
    (_, _, SenderMove.publish, λ e'. absurd (ground arith))
sender_goes_on l SenderPc.releasing polls waits =
    (_, _, SenderMove.release, λ e'. absurd (ground arith))
sender_goes_on l SenderPc.waking polls waits = (_, _, SenderMove.wake, λ e'. absurd (ground arith))

-- Whether the sender has to leave it to the receiver.
abbrev sender_stuck : Line → SenderPc → Bool
sender_stuck l SenderPc.polling = not (l.state == 0 || l.state == 4)
sender_stuck l SenderPc.parked = not l.tx_ready
sender_stuck l _ = false

Inv-goes_on :
    (l : Line) (s : SenderPc) (r : ReceiverPc) → Inv l s r → SenderGoesOn l s ⊎ ReceiverGoesOn l r
Inv-goes_on l s r inv = elim (Bool-cases (sender_stuck l s)) [
  | inl stuck ↦ inr (receiver_goes_on l r (λ e. ground (arith, e)) (λ e. ground (arith, e)))
  | inr free ↦ inl (sender_goes_on l s (λ e. ground (arith, e)) (λ e. ground (arith, e)))
]

-- The two processes never block each other: in every reachable state, one of them can make a
-- move that leads on, and does not only poll once more.
pub never_stuck :
    {t : Talk} → Reachable t → SenderGoesOn t.line t.sender ⊎ ReceiverGoesOn t.line t.receiver
never_stuck {t} reach = Inv-goes_on t.line t.sender t.receiver (Reachable-Inv reach)
