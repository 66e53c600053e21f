-- ===== src/State/ChannelState.antt =====
-- `TPA_CHANNEL_STATE_*` of tpa/lib/include/tpa/channel.h.
use tpa.Base.{ℕ}

abbrev pub empty : ℕ
empty = 0

abbrev pub tx : ℕ
tx = 1

abbrev pub wait_tx : ℕ
wait_tx = 2

abbrev pub rx : ℕ
rx = 3

abbrev pub wait_rx : ℕ
wait_rx = 4
