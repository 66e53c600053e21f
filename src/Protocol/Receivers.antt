-- ===== src/Protocol/Receivers.antt =====
-- The moves of the receiver (Protocol.antt) against the invariant.
use tpa.Base.{arith}
use tpa.Protocol.{Line, SenderPc, ReceiverPc, ReceiverMove}
use tpa.Protocol.Invariant.{Inv}

pub ReceiverMove-Inv :
    {l l' : Line} {p p' : ReceiverPc} (s : SenderPc)
    → ReceiverMove l p l' p'
    → Inv l s p
    → Inv l' s p'
ReceiverMove-Inv s (ReceiverMove.poll_empty e) inv = ground arith
ReceiverMove-Inv s (ReceiverMove.poll_wait e) inv = ground arith
ReceiverMove-Inv s (ReceiverMove.poll_again e e') inv = ground arith
ReceiverMove-Inv s (ReceiverMove.claim e) inv = ground arith
ReceiverMove-Inv s (ReceiverMove.miss e) inv = ground arith
ReceiverMove-Inv s ReceiverMove.mark inv = ground arith
ReceiverMove-Inv s ReceiverMove.offer inv = ground arith
ReceiverMove-Inv s (ReceiverMove.resume e) inv = ground arith
ReceiverMove-Inv s (ReceiverMove.claim_wait e) inv = ground arith
ReceiverMove-Inv s (ReceiverMove.miss_wait e) inv = ground arith
ReceiverMove-Inv s ReceiverMove.take inv = ground arith
ReceiverMove-Inv s ReceiverMove.release inv = ground arith
ReceiverMove-Inv s ReceiverMove.wake inv = ground arith
