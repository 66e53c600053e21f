-- ===== src/Yolo/Arena.antt =====
-- yolov5n/yolov5n_common.c: the arena of scratch memory of each hart. `none` stands for the trap of
-- `arena_fail`.
pub mod Align
pub mod Peak
use tpa.Base.{
  ℕ, ◌+◌, ◌-◌, ◌*◌, ◌/◌, ◌%◌, ◌^◌, Bool, ◌||◌, ◌==◌, ltb, leb, if◌then◌else◌, Option, none, some,
  update, bit_and,
}

pub record ArenaState : Type 0 where
  pub base : ℕ
  pub cap : ℕ
  pub brk : ℕ
  pub hi : ℕ
  pub declared_cap : ℕ

abbrev pub Arenas : Type 0
Arenas = ℕ → ArenaState

-- `arena_self` is null, or the arena has no storage.
abbrev pub no_arena : ℕ → ℕ → ArenaState → Bool
no_arena nr_harts hartid st = leb nr_harts hartid || st.base == 0 || st.cap == 0

abbrev pub arena_begin : ℕ → ℕ → ℕ → Arenas → Option Arenas
arena_begin nr_harts hartid declared_peak_bytes arenas =
    let st = arenas hartid in
    let declared = if declared_peak_bytes == 0 then st.cap else declared_peak_bytes in
    if no_arena nr_harts hartid st || ltb st.cap declared
    then none
    else some (update arenas hartid (record st { brk = 0; hi = 0; declared_cap = declared }))

abbrev pub arena_reset : ℕ → ℕ → Arenas → Option Arenas
arena_reset nr_harts hartid arenas =
    let st = arenas hartid in
    if no_arena nr_harts hartid st
    then none
    else some (update arenas hartid (record st { brk = 0; declared_cap = st.cap }))

-- `(brk + align - 1u) & ~(align - 1u)` of 32 bits.
abbrev pub align_up : ℕ → ℕ → ℕ
align_up brk align =
    bit_and ((brk + align + (2 ^ 32 - 1)) % 2 ^ 32) (2 ^ 32 - 1 - (align + (2 ^ 32 - 1)) % 2 ^ 32)

-- The offset of the block, and the arena with it allocated.
abbrev pub arena_take : ℕ → ℕ → ArenaState → Option (ℕ × ArenaState)
arena_take bytes align st =
    let limit = if st.declared_cap == 0 then st.cap else st.declared_cap in
    let off = align_up st.brk ((if align == 0 then 1 else align) % 2 ^ 32) in
    let end = (off + bytes % 2 ^ 32) % 2 ^ 32 in
    if ltb end off || ltb limit end || ltb st.cap end
    then none
    else some (off, record st { brk = end; hi = if ltb st.hi end then end else st.hi })

abbrev pub arena_alloc : ℕ → ℕ → ℕ → ℕ → Arenas → Option (ℕ × Arenas)
arena_alloc nr_harts hartid bytes align arenas =
    let st = arenas hartid in
    if no_arena nr_harts hartid st then none else elim (arena_take bytes align st) [
      | none ↦ none
      | some (off, st1) ↦ some (st.base + off, update arenas hartid st1)
    ]

abbrev pub arena_high_water : ℕ → ℕ → Arenas → ℕ
arena_high_water nr_harts hartid arenas = if leb nr_harts hartid then 0 else (arenas hartid).hi
