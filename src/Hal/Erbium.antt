-- ===== src/Hal/Erbium.antt =====
-- tpa/hal/erbium: the harts of an Erbium device, the cache lines of an object, and how a channel
-- between two harts is carried out. A hart is one of two threads of a minion.
use tpa.Base.{
  ℕ, zero, suc, ◌+◌, ◌*◌, ◌/◌, ◌%◌, ◌^◌, Bool, not, List, [], ◌∷◌, ◌==◌, leb, ltb, if◌then◌else◌,
}
use tpa.State.Kind

abbrev pub nr_minions : ℕ
nr_minions = 8

abbrev pub nr_harts : ℕ
nr_harts = nr_minions * 2

abbrev pub cacheline_bytes : ℕ
cacheline_bytes = 64

abbrev pub l1d_bytes : ℕ
l1d_bytes = 4096

abbrev pub hart_minion : ℕ → ℕ
hart_minion hartid = hartid / 2

abbrev pub hart_hi : ℕ → Bool
hart_hi hartid = not (hartid % 2 == 0)

-- `physical_hart` is what `tpa_hal_hartid` reads from the machine.
abbrev pub runtime_hartid : ℕ → ℕ
runtime_hartid physical_hart = if hart_hi physical_hart then 0xffff_ffff else physical_hart

abbrev pub channel_kind : ℕ → ℕ → ℕ
channel_kind src_hartid dst_hartid =
    if hart_minion src_hartid == hart_minion dst_hartid then Kind.direct else Kind.local

-- The stores of `tpa_hal_wake_hart`: the register (of the low or the high threads) and the credit.
pub data Credit : Type 0 where
  credinc_h0 : ℕ → Credit
  credinc_h1 : ℕ → Credit

abbrev pub wake_hart : ℕ → Credit
wake_hart hartid =
    if hart_hi hartid
    then credinc_h1 (2 ^ hart_minion hartid)
    else credinc_h0 (2 ^ hart_minion hartid)

-- The credits of the first `n` rounds of `tpa_hal_wake_all_harts`, the last first.
unfoldable pub wake_harts : ℕ → List Credit
wake_harts zero = []
wake_harts (suc n) = wake_hart n ∷ wake_harts n

abbrev pub wake_all_harts : List Credit
wake_all_harts = wake_harts nr_harts

-- What one call of `tpa_hal_flush` or `tpa_hal_evict` does to the cache.
pub data CacheOp : Type 0 where
  whole_cache : CacheOp
  line : ℕ → CacheOp

-- The address of a line, `addr & ~(cacheline_bytes - 1)`.
abbrev pub line_of : ℕ → ℕ
line_of addr = addr / cacheline_bytes * cacheline_bytes

-- The loop `for (off = 0; off < bytes; off += cacheline_bytes)`, with `n` rounds left.
unfoldable pub cache_lines : ℕ → ℕ → ℕ → ℕ → List CacheOp
cache_lines addr bytes zero off = []
cache_lines addr bytes (suc n) off =
    let rest = cache_lines addr bytes n (off + cacheline_bytes) in
    if ltb off bytes then line (line_of (addr + off)) ∷ rest else []

-- `tpa_hal_flush`, and `tpa_hal_evict` with evictions in place of flushes. Below the size of the
-- cache, 64 rounds of the loop and its last test are enough.
abbrev pub flush : ℕ → ℕ → List CacheOp
flush addr bytes = if leb l1d_bytes bytes then whole_cache ∷ [] else cache_lines addr bytes 65 0
