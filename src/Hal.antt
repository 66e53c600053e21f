-- ===== src/Hal.antt =====
-- tpa/hal: the atomic operations, as functions from the old contents of a cell to the value that
-- is returned and the new contents. (`__atomic_*` and the `amo*` instructions in
-- tpa/hal/erbium/hal_erbium.c and tpa/hal/etsoc1/hal_etsoc1.c.)
pub mod Erbium
pub mod Etsoc1
pub mod Lines
use tpa.Base.{ℕ, ◌+◌, ◌%◌, ◌^◌, bit_and, bit_or, ◌==◌, if◌then◌else◌}

abbrev pub atomic_or_u32 : ℕ → ℕ → ℕ × ℕ
atomic_or_u32 old val = (old, bit_or old val)

abbrev pub atomic_and_u32 : ℕ → ℕ → ℕ × ℕ
atomic_and_u32 old val = (old, bit_and old val)

abbrev pub atomic_exchange_u32 : ℕ → ℕ → ℕ × ℕ
atomic_exchange_u32 old val = (old, val)

abbrev pub atomic_add_u32 : ℕ → ℕ → ℕ × ℕ
atomic_add_u32 old val = (old, (old + val) % 2 ^ 32)

abbrev pub atomic_compare_exchange_u32 : ℕ → ℕ → ℕ → ℕ × ℕ
atomic_compare_exchange_u32 old expect val = (old, if old == expect then val else old)

abbrev pub atomic_or_u64 : ℕ → ℕ → ℕ × ℕ
atomic_or_u64 old val = (old, bit_or old val)

abbrev pub atomic_exchange_u64 : ℕ → ℕ → ℕ × ℕ
atomic_exchange_u64 old val = (old, val)
