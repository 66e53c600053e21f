-- ===== src/Protocol/Senders.antt =====
-- The moves of the sender (Protocol.antt) against the invariant.
use tpa.Base.{arith}
use tpa.Protocol.{Line, SenderPc, ReceiverPc, SenderMove}
use tpa.Protocol.Invariant.{Inv}

pub SenderMove-Inv :
    {l l' : Line} {p p' : SenderPc} (r : ReceiverPc)
    → SenderMove l p l' p'
    → Inv l p r
    → Inv l' p' r
SenderMove-Inv r (SenderMove.poll_empty e) inv = ground arith
SenderMove-Inv r (SenderMove.poll_wait e) inv = ground arith
SenderMove-Inv r (SenderMove.poll_again e e') inv = ground arith
SenderMove-Inv r (SenderMove.claim e) inv = ground arith
SenderMove-Inv r (SenderMove.miss e) inv = ground arith
SenderMove-Inv r SenderMove.fill inv = ground arith
SenderMove-Inv r SenderMove.mark inv = ground arith
SenderMove-Inv r SenderMove.offer inv = ground arith
SenderMove-Inv r (SenderMove.resume e) inv = ground arith
SenderMove-Inv r (SenderMove.claim_wait e) inv = ground arith
SenderMove-Inv r (SenderMove.miss_wait e) inv = ground arith
SenderMove-Inv r SenderMove.publish inv = ground arith
SenderMove-Inv r SenderMove.release inv = ground arith
SenderMove-Inv r SenderMove.wake inv = ground arith
