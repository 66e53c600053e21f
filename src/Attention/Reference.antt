-- ===== src/Attention/Reference.antt =====
-- The functions of attention_common.h in plain C, one after the other, against its reference.
use tpa.Base.{ℕ, ◌≡◌, refl}
use tpa.Attention.{
  Float, HeadInput, ScorePacket, SoftmaxPacket, fill_head_input, compute_scores, compute_softmax,
  packet_output_value, reference_output_value,
}

module _ (fl : Float) where
  -- Filling the packet of a head, its scores, their softmax and the product with the values give
  -- the reference value at every row and dimension, bit by bit, whatever the arithmetic of floats.
  pub packet_output_value-reference :
      (input : HeadInput fl) (scores : ScorePacket fl) (weights : SoftmaxPacket fl)
      (head row dim : ℕ)
      → packet_output_value fl
          (compute_softmax fl (compute_scores fl (fill_head_input fl input head) scores) weights)
          row
          dim
        ≡ reference_output_value fl head row dim
  packet_output_value-reference input scores weights head row dim = refl
