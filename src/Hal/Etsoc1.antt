-- ===== src/Hal/Etsoc1.antt =====
-- tpa/hal/etsoc1: the harts of an ET-SoC-1 device, in shires of minions of two threads. The number
-- of minions in a shire comes from the platform's headers.
use tpa.Base.{ℕ, ◌+◌, ◌-◌, ◌*◌, ◌/◌, ◌%◌, ◌^◌, ◌≤◌, ◌<◌, ◌≡◌, arith, ◌==◌, leb, ltb, if◌then◌else◌}
use tpa.State.Kind
use tpa.Step.{ctz}

abbrev pub hart_minion_id : ℕ → ℕ
hart_minion_id hartid = hartid / 2

abbrev pub hart_thread_id : ℕ → ℕ
hart_thread_id hartid = hartid % 2

module _ (minions_per_shire : ℕ) where
  abbrev pub hart_local_minion_id : ℕ → ℕ
  hart_local_minion_id hartid = hart_minion_id hartid % minions_per_shire

  abbrev pub hart_shire_id : ℕ → ℕ
  hart_shire_id hartid = hart_minion_id hartid / minions_per_shire

  abbrev pub channel_kind : ℕ → ℕ → ℕ
  channel_kind src_hartid dst_hartid =
      if hart_minion_id src_hartid == hart_minion_id dst_hartid
      then Kind.direct
      else if hart_shire_id src_hartid == hart_shire_id dst_hartid
      then Kind.local
      else Kind.fabric

  -- `mask` is the variable `etsoc1_runtime_shire_mask`.
  abbrev pub runtime_shire_mask_or_default : ℕ → ℕ
  runtime_shire_mask_or_default mask = if mask == 0 then 0xffff_ffff else mask

  abbrev pub first_runtime_shire : ℕ → ℕ
  first_runtime_shire mask = ctz 64 (if mask == 0 then 0xffff_ffff else mask)

  abbrev pub physical_hart_from_runtime : ℕ → ℕ → ℕ
  physical_hart_from_runtime mask hartid =
      let first_shire = first_runtime_shire (runtime_shire_mask_or_default mask) in
      (hartid + first_shire * minions_per_shire * 2) % 2 ^ 32

  -- `physical_hart` is what `tpa_hal_hartid` reads from the machine.
  abbrev pub runtime_hartid : ℕ → ℕ → ℕ
  runtime_hartid mask physical_hart =
      let first_hart =
        first_runtime_shire (runtime_shire_mask_or_default mask) * minions_per_shire * 2 in
      if ltb physical_hart first_hart then 0xffff_ffff else physical_hart - first_hart

  abbrev pub minion_wake_mask : ℕ
  minion_wake_mask =
      if leb 64 minions_per_shire then 0xffff_ffff_ffff_ffff else 2 ^ minions_per_shire - 1

-- The number that a hart has in the runtime leads back to its number in the machine, for every hart
-- that takes part.
pub physical_hart_from_runtime-runtime_hartid :
    (minions_per_shire mask physical_hart : ℕ)
    → physical_hart < 2 ^ 32
    → first_runtime_shire minions_per_shire (runtime_shire_mask_or_default minions_per_shire mask)
        * minions_per_shire
        * 2
      ≤ physical_hart
    → physical_hart_from_runtime minions_per_shire mask
        (runtime_hartid minions_per_shire mask physical_hart)
      ≡ physical_hart
physical_hart_from_runtime-runtime_hartid minions_per_shire mask physical_hart fits part =
    ground arith
