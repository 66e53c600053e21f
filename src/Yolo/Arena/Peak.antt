-- ===== src/Yolo/Arena/Peak.antt =====
-- Blocks that a stage allocates one after the other, and the peak that it declares for them.
use tpa.Base.{
  ℕ, ◌+◌, ◌%◌, ◌^◌, ◌≤◌, ◌<◌, ◌≡◌, refl, ap, ◌∙◌, arith, true, false, ◌==◌, ltb, if◌then◌else◌,
  Option, none, some, List, [], ◌∷◌, ◌≢◌, update,
}
use tpa.Yolo.Arena.{ArenaState, Arenas, arena_begin, arena_take, no_arena}
use tpa.Yolo.Arena.Align.{
  IsArena, limit_of, limit-cap, taken, aligned, aligned-bounds, aligned-multiple,
  arena_take-aligned,
}

-- `bytes` at a multiple of `2 ^ align_log`.
pub record Request : Type 0 where
  pub bytes : ℕ
  pub align_log : ℕ

pub record Block : Type 0 where
  pub request : Request
  pub offset : ℕ

abbrev pub add_block :
    Request → ℕ → Option (List Block × ArenaState) → Option (List Block × ArenaState)
add_block r off none = none
add_block r off (some (blocks, st)) = some (record { request = r; offset = off } ∷ blocks, st)

abbrev pub go_on :
    Request
    → Option (ℕ × ArenaState)
    → (ArenaState → Option (List Block × ArenaState))
    → Option (List Block × ArenaState)
go_on r none rest = none
go_on r (some (off, st)) rest = add_block r off (rest st)

-- The arena of a hart through one call of `yolov5n_arena_alloc` after the other.
abbrev pub allocs : List Request → ArenaState → Option (List Block × ArenaState)
allocs [] st = some ([], st)
allocs (r ∷ rs) st = go_on r (arena_take r.bytes (2 ^ r.align_log) st) (allocs rs)

-- The blocks one behind the other, from offset `b` on, and where they end.
abbrev pub layout : ℕ → List Request → List Block
layout b [] = []
layout b (r ∷ rs) =
    record { request = r; offset = aligned b r.align_log }
    ∷ layout (aligned b r.align_log + r.bytes) rs

abbrev pub peak : ℕ → List Request → ℕ
peak b [] = b
peak b (r ∷ rs) = peak (aligned b r.align_log + r.bytes) rs

abbrev pub AllFit : List Request → Type 0
AllFit [] = Unit
AllFit (r ∷ rs) = (r.align_log ≤ 31) × (r.bytes < 2 ^ 32) × AllFit rs

-- Aligned blocks, each behind the one before it, from `b` to `end`.
abbrev pub Laid : ℕ → List Block → ℕ → Type 0
Laid b [] end = b ≤ end
Laid b (k ∷ blocks) end =
    (b ≤ k.offset)
    × (k.offset % 2 ^ k.request.align_log ≡ 0)
    × Laid (k.offset + k.request.bytes) blocks end

pub peak-le : (b : ℕ) (rs : List Request) → b ≤ peak b rs
peak-le b [] = omega arith
peak-le b (r ∷ rs) =
    omega (arith, (aligned-bounds b r.align_log).0, peak-le (aligned b r.align_log + r.bytes) rs)

pub layout-Laid : (b : ℕ) (rs : List Request) → Laid b (layout b rs) (peak b rs)
layout-Laid b [] = omega arith
layout-Laid b (r ∷ rs) = (
  (aligned-bounds b r.align_log).0,
  aligned-multiple b r.align_log,
  layout-Laid (aligned b r.align_log + r.bytes) rs,
)

-- An arena whose high-water mark is where it stands.
abbrev pub at_mark : ℕ → ArenaState → ArenaState
at_mark b st = record st { brk = b; hi = b }

allocs-layout :
    (rs : List Request) (b : ℕ) (st : ArenaState)
    → IsArena (at_mark b st)
    → AllFit rs
    → peak b rs ≤ limit_of st
    → allocs rs (at_mark b st) ≡ some (layout b rs, at_mark (peak b rs) st)
allocs-layout [] b st is fit enough = refl
allocs-layout (r ∷ rs) b st is (le, fits, fit) enough =
    let next = aligned b r.align_log + r.bytes in
    let bounds = aligned-bounds b r.align_log in
    let rest = peak-le next rs in
    let is_next : IsArena (at_mark next st) = record {
      small = is.small;
      declared = is.declared;
      used = omega (arith, rest, enough, limit-cap (at_mark b st) is);
    } in
    let first : arena_take r.bytes (2 ^ r.align_log) (at_mark b st)
        ≡ some (aligned b r.align_log, at_mark next st) =
      arena_take-aligned r.bytes r.align_log (at_mark b st) is le fits ∙ take_some bounds rest in
    ap (λ o. go_on r o (allocs rs)) first
    ∙ ap (add_block r (aligned b r.align_log)) (allocs-layout rs next st is_next fit enough)
  where
    take_some :
        (b ≤ aligned b r.align_log) × (aligned b r.align_log < b + 2 ^ r.align_log)
        → aligned b r.align_log + r.bytes ≤ peak b (r ∷ rs)
        → if◌then◌else◌ {A = Option (ℕ × ArenaState)}
            (ltb (limit_of st) (aligned b r.align_log + r.bytes))
            none
            (some (aligned b r.align_log, taken (aligned b r.align_log) r.bytes (at_mark b st)))
          ≡ some (aligned b r.align_log, at_mark (aligned b r.align_log + r.bytes) st)
    take_some bounds rest =
        let in_limit : ltb (limit_of st) (aligned b r.align_log + r.bytes) ≡ false =
          ground (arith, rest, enough) in
        let top : (if ltb b (aligned b r.align_log + r.bytes)
              then aligned b r.align_log + r.bytes
              else b)
            ≡ aligned b r.align_log + r.bytes =
          ground (arith, bounds) in
        rw in_limit (
          ap
            (λ hi.
              some (
                aligned b r.align_log,
                record st { brk = aligned b r.align_log + r.bytes; hi = hi },
              ))
            top)

-- A stage that declares as its peak the sum that its blocks make, each put at its alignment, and
-- allocates them one after the other, gets all of them: no call traps, and the blocks lie in that order
-- at aligned offsets, without overlap, up to the declared peak, which is the high-water mark then.
-- The hart has an arena of at most 2 GB and at least that peak, which is not 0, and no block has
-- 4 GB or an alignment beyond `2 ^ 31`.
pub arena_begin-allocs :
    (nr_harts hartid : ℕ) (arenas : Arenas) (rs : List Request)
    → hartid < nr_harts
    → (arenas hartid).base ≢ 0
    → (arenas hartid).cap ≤ 2 ^ 31
    → AllFit rs
    → peak 0 rs ≢ 0
    → peak 0 rs ≤ (arenas hartid).cap
    → (begun : Arenas) × (arena_begin nr_harts hartid (peak 0 rs) arenas ≡ some begun)
      × (allocs rs (begun hartid) ≡ some (layout 0 rs, at_mark (peak 0 rs) (begun hartid)))
      × Laid 0 (layout 0 rs) (peak 0 rs)
arena_begin-allocs nr_harts hartid arenas rs here based small fit some_peak room =
    let st = arenas hartid in
    let cap_some : st.cap ≢ 0 = λ e. absurd (some_peak (omega (arith, room, e))) in
    let has_arena : no_arena nr_harts hartid st ≡ false = ground (arith, here, based, cap_some) in
    let declares : (peak 0 rs == 0) ≡ false = ground (arith, some_peak) in
    let within : ltb st.cap (peak 0 rs) ≡ false = ground (arith, room) in
    let self : (hartid == hartid) ≡ true = ground arith in
    let fresh : ArenaState = record st { brk = 0; hi = 0; declared_cap = peak 0 rs } in
    let is_fresh : IsArena (at_mark 0 fresh) = record {
      small = small;
      declared = room;
      used = omega arith;
    } in
    let limit : limit_of fresh ≡ peak 0 rs = rw declares refl in
    (
      update arenas hartid fresh,
      rw (declares, has_arena, within) refl,
      rw self (allocs-layout rs 0 fresh is_fresh fit (omega (arith, limit))),
      layout-Laid 0 rs,
    )
