-- ===== src/State/ChannelTrace.antt =====
-- `TPA_CHANNEL_TRACE_*` of tpa/lib/include/tpa/channel.h.
use tpa.Base.{ℕ}

abbrev pub send_beg : ℕ
send_beg = 0xd3520010

abbrev pub send_end : ℕ
send_end = 0xd3520011

abbrev pub recv_beg : ℕ
recv_beg = 0xd3520020

abbrev pub recv_end : ℕ
recv_end = 0xd3520021
