-- ===== src/Sched/Ready.antt =====
-- Ready bits and the bell: how one hart makes itself heard by another.
use tpa.Base.{ℕ, ◌/◌, ◌%◌, ◌<◌, ◌^◌, ◌≡◌, ◌&&◌, ◌||◌, ◌∷◌, arith, ◌==◌, if◌then◌else◌}
use tpa.Base.Bits.{has_bit, has_bit-or, has_bit-pow, bit_or-one}
use tpa.State.{max_procs_per_hart, ready_words, wake_hart, fence_rw, World, Config}
use tpa.Sched.{set_ready_slot, ring_if_armed, take_ready_word, set_armed, take_bell}

-- `tpa_sched_set_ready_slot` sets the bit of the slot in the words of the hart, and no other bit of
-- any word of any hart.
pub has_bit-set_ready_slot :
    (cfg : Config) (h slot g word i : ℕ) (w : World)
    → h < cfg.nr_harts
    → slot < max_procs_per_hart
    → has_bit (((set_ready_slot cfg h slot w).rx g).bits word) i
      ≡ (has_bit ((w.rx g).bits word) i || (g == h && (word == slot / 64 && i == slot % 64)))
unfolding set_ready_slot
has_bit-set_ready_slot cfg h slot g word i w lt in_range =
    ground (arith, has_bit-or ((w.rx g).bits word) (2 ^ (slot % 64)) i, has_bit-pow (slot % 64) i)

-- `tpa_sched_take_ready_word` returns the word and leaves 0 there: a bit is taken once. The other
-- words stay.
pub take_ready_word_lem :
    (cfg : Config) (h word g other : ℕ) (w : World)
    → h < cfg.nr_harts
    → word < ready_words
    → let (old, v) = take_ready_word cfg h word w in
      (old ≡ (w.rx h).bits word)
      × ((v.rx g).bits other ≡ (if g == h && other == word then 0 else (w.rx g).bits other))
unfolding take_ready_word
take_ready_word_lem cfg h word g other w lt in_range = ground arith

-- After a hart has armed its bell, with the bell taken, the first ring sends one wake to that hart,
-- behind a fence, and a second ring sends none.
pub ring_once :
    (cfg : Config) (h : ℕ) (w : World)
    → h < cfg.nr_harts
    → let v = (take_bell cfg h (set_armed cfg h 1 w)).1 in
      ((ring_if_armed cfg h v).log ≡ wake_hart h ∷ fence_rw ∷ v.log)
      × ((ring_if_armed cfg h (ring_if_armed cfg h v)).log ≡ (ring_if_armed cfg h v).log)
unfolding ring_if_armed take_bell set_armed
ring_once cfg h w lt = ground (arith, bit_or-one 0)

-- While its bell is not armed, a hart is sent no wake and nothing of its bell changes.
pub ring_disarmed :
    (cfg : Config) (h : ℕ) (w : World)
    → ring_if_armed cfg h (set_armed cfg h 0 w) ≡ set_armed cfg h 0 w
unfolding ring_if_armed set_armed
ring_disarmed cfg h w = ground arith
