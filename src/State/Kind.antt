-- ===== src/State/Kind.antt =====
-- `TPA_HAL_CH_KIND_*` of tpa/hal/include/tpa/hal.h, which `TPA_CHANNEL_KIND_*` stand for.
use tpa.Base.{ℕ}

abbrev pub direct : ℕ
direct = 0

abbrev pub local : ℕ
local = 1

abbrev pub fabric : ℕ
fabric = 2

abbrev pub external : ℕ
external = 3
