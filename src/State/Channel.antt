-- ===== src/State/Channel.antt =====
-- The structs of tpa/lib/include/tpa/channel.h.
use tpa.Base.{ℕ}

pub record ChannelEp : Type 0 where
  pub hartid : ℕ
  pub slot : ℕ

-- `bufv0` and `bufv1` are the entries of `bufv[2]`.
pub record Chan : Type 0 where
  pub state : ℕ
  pub kind : ℕ
  pub nrbuf : ℕ
  pub turn : ℕ
  pub len : ℕ
  pub tx : ChannelEp
  pub rx : ChannelEp
  pub buf : ℕ
  pub bufv0 : ℕ
  pub bufv1 : ℕ
  pub cap : ℕ

pub record ChannelOp : Type 0 where
  pub next : ℕ
  pub ch : ℕ
  pub buf : ℕ
  pub bufp : ℕ
  pub lenp : ℕ
  pub len : ℕ
