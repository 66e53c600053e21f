-- ===== src/Hal/Lines.antt =====
-- Which cache lines `tpa_hal_flush` and `tpa_hal_evict` of Erbium visit, and which harts share a
-- minion.
use tpa.Base.{
  ℕ, zero, suc, ◌+◌, ◌-◌, ◌*◌, ◌%◌, ◌≤◌, ◌<◌, ◌≡◌, ◌≢◌, inl, inr, refl, arith, Bool, true, false,
  List, [], ◌∷◌, ◌==◌, leb, ltb, Bool-cases, if◌then◌else◌,
}
use tpa.Hal.Erbium.{cacheline_bytes, l1d_bytes, CacheOp, line_of, cache_lines, flush}

-- Whether a list of cache operations covers the line at an address.
abbrev pub covers : ℕ → List CacheOp → Bool
covers a [] = false
covers a (CacheOp.whole_cache ∷ ops) = true
covers a (CacheOp.line l ∷ ops) = let rest = covers a ops in if l == a then true else rest

cache_lines-covers :
    (addr bytes i n off : ℕ)
    → addr % 64 ≡ 0
    → off % 64 ≡ 0
    → off ≤ i
    → i < bytes
    → i < off + 64 * n
    → covers (line_of (addr + i)) (cache_lines addr bytes n off) ≡ true
unfolding cache_lines
cache_lines-covers addr bytes i zero off aligned even from upto enough = absurd (omega arith)
cache_lines-covers addr bytes i (suc n) off aligned even from upto enough =
    elim (Bool-cases (ltb i (off + 64))) [
      | inl here ↦
          let e : line_of (addr + off) ≡ line_of (addr + i) = ground arith in ground (arith, e)
      | inr later ↦
          let rest =
            cache_lines-covers addr bytes i n (off + 64) aligned (omega arith) (ground arith) upto
              (omega arith) in
          ground (arith, rest)
    ]

-- For an object that starts on a cache line, `tpa_hal_flush` and `tpa_hal_evict` cover the line of
-- each of its bytes.
pub flush-covers :
    (addr bytes i : ℕ)
    → addr % cacheline_bytes ≡ 0
    → i < bytes
    → covers (line_of (addr + i)) (flush addr bytes) ≡ true
flush-covers addr bytes i aligned lt = elim (Bool-cases (leb l1d_bytes bytes)) [
  | inl big ↦ rw big refl
  | inr small ↦
      rw small
        (cache_lines-covers addr bytes i 65 0 aligned (omega arith) (omega arith) lt (ground arith))
]

cache_lines_misses :
    (addr bytes n off : ℕ)
    → addr % 64 ≢ 0
    → bytes % 64 ≡ 0
    → off % 64 ≡ 0
    → covers (line_of (addr + bytes - 1)) (cache_lines addr bytes n off) ≡ false
unfolding cache_lines
cache_lines_misses addr bytes zero off unaligned whole even = refl
cache_lines_misses addr bytes (suc n) off unaligned whole even =
    let rest = cache_lines_misses addr bytes n (off + 64) unaligned whole (omega arith) in
    elim (Bool-cases (ltb off bytes)) [
      | inl inside ↦
          let e : line_of (addr + off) ≢ line_of (addr + bytes - 1) = ground arith in
          ground (arith, e, rest)
      | inr past ↦ ground arith
    ]

-- An object of whole cache lines that does not start on one, and is smaller than the cache, has
-- its last byte on a line that `tpa_hal_flush` and `tpa_hal_evict` do not reach.
pub flush_unaligned-misses :
    (addr bytes : ℕ)
    → addr % cacheline_bytes ≢ 0
    → bytes % cacheline_bytes ≡ 0
    → bytes < l1d_bytes
    → covers (line_of (addr + bytes - 1)) (flush addr bytes) ≡ false
flush_unaligned-misses addr bytes unaligned whole small =
    let fits = cache_lines_misses addr bytes 65 0 unaligned whole (omega arith) in
    ground (arith, fits)
