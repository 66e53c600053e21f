-- ===== src/Wake/Moves.antt =====
-- The moves of the sleeper and of the others (Wake.antt) against the invariant.
use tpa.Base.{
  ℕ, zero, suc, ◌<◌, ◌≡◌, Bool, true, false, bit_or, update, arith, ap, refl, ◌∙◌, ◌==◌, Bool-cases,
  inl, inr,
}
use tpa.Wake.{Bed, SleeperPc, WakerPc, SleeperMove, WakerMove}
use tpa.Wake.Invariant.{
  Inv, NoneAt, is_waking, owes_wake, is_announcing, took_first, took_second, is_armed,
}

bit_or_low : (n : ℕ) → n < 2 → bit_or n 1 ≡ 1
bit_or_low zero lt = refl
bit_or_low (suc zero) lt = refl
bit_or_low (suc (suc n)) lt = absurd (omega arith)

-- What none does after a move of `i`, none did before, unless `i` did.
NoneAt-before :
    (at : WakerPc → Bool) (wakers : ℕ → WakerPc) (i : ℕ) (p : WakerPc)
    → at (wakers i) ≡ false
    → NoneAt at (update wakers i p)
    → NoneAt at wakers
NoneAt-before at wakers i p none_here none_after j = elim (Bool-cases (j == i)) [
  | inl same ↦ let e : j ≡ i = ground arith in rw e none_here
  | inr other ↦ ground (arith, none_after j)
]

-- `i` is at such a place after its move.
NoneAt-here :
    (at : WakerPc → Bool) (wakers : ℕ → WakerPc) (i : ℕ) (p : WakerPc)
    → NoneAt at (update wakers i p)
    → at p ≡ false
NoneAt-here at wakers i p none_after = ground (arith, none_after i)

pub SleeperMove-Inv :
    {b b' : Bed} {p p' : SleeperPc} (wakers : ℕ → WakerPc)
    → SleeperMove b p b' p'
    → Inv b p wakers
    → Inv b' p' wakers
SleeperMove-Inv wakers SleeperMove.go_on inv = ground arith
SleeperMove-Inv wakers SleeperMove.take_first inv = ground arith
SleeperMove-Inv wakers SleeperMove.take_second inv = ground arith
SleeperMove-Inv wakers SleeperMove.work inv = ground arith
SleeperMove-Inv wakers SleeperMove.arm inv = ground arith
SleeperMove-Inv wakers SleeperMove.retake_first inv = ground arith
SleeperMove-Inv wakers SleeperMove.retake_second inv = ground arith
SleeperMove-Inv wakers SleeperMove.work_after_all inv = ground arith
SleeperMove-Inv wakers SleeperMove.none_left inv = ground arith
SleeperMove-Inv wakers (SleeperMove.is_done e) inv = ground arith
SleeperMove-Inv wakers (SleeperMove.not_done e) inv = ground arith
SleeperMove-Inv wakers (SleeperMove.has_failed e) inv = ground arith
SleeperMove-Inv wakers (SleeperMove.not_failed e) inv = ground arith
SleeperMove-Inv wakers (SleeperMove.woken e) inv = ground arith
SleeperMove-Inv wakers SleeperMove.put_off inv = ground arith
SleeperMove-Inv wakers SleeperMove.take_bell inv = ground arith

took_first-armed : (p : SleeperPc) → took_first p ≡ true → is_armed p ≡ true
took_first-armed p took = ground arith

took_second-armed : (p : SleeperPc) → took_second p ≡ true → is_armed p ≡ true
took_second-armed p took = ground arith

module _ {b : Bed} {p : SleeperPc} (wakers : ℕ → WakerPc) (i : ℕ) (inv : Inv b p wakers) where
  -- What is shared by the moves of a waker from `from` to `to`: facts about none of them go back.
  abbrev Back : (WakerPc → Bool) → WakerPc → Type 0
  Back at to = NoneAt at (update wakers i to) → NoneAt at wakers

  back :
      (at : WakerPc → Bool) {from : WakerPc} (to : WakerPc)
      → wakers i ≡ from
      → at from ≡ false
      → Back at to
  back at to e none n = NoneAt-before at wakers i to (ap at e ∙ none) n

  pub WakerMove-Inv :
      {b' : Bed} {from to : WakerPc}
      → wakers i ≡ from
      → WakerMove b from b' to
      → Inv b' p (update wakers i to)
  WakerMove-Inv e (WakerMove.mark slot lt) = record {
    armed = inv.armed;
    bell = inv.bell;
    rung = λ r c n. inv.rung r c (back is_waking WakerPc.asking e refl n);
    first = λ t nz n. absurd (ground (arith, NoneAt-here owes_wake wakers i WakerPc.asking n));
    second = λ t nz n. absurd (ground (arith, NoneAt-here owes_wake wakers i WakerPc.asking n));
    done = λ t d n. inv.done t d (back is_announcing WakerPc.asking e refl n);
    failed = λ t d n. inv.failed t d (back is_announcing WakerPc.asking e refl n);
  }
  WakerMove-Inv e (WakerMove.not_armed off) = record {
    armed = inv.armed;
    bell = inv.bell;
    rung = λ r c n. inv.rung r c (back is_waking WakerPc.idle e refl n);
    first = λ t nz n. absurd (ground (arith, took_first-armed p t, inv.armed));
    second = λ t nz n. absurd (ground (arith, took_second-armed p t, inv.armed));
    done = λ t d n. inv.done t d (back is_announcing WakerPc.idle e refl n);
    failed = λ t d n. inv.failed t d (back is_announcing WakerPc.idle e refl n);
  }
  WakerMove-Inv e (WakerMove.is_armed on) = record {
    armed = inv.armed;
    bell = inv.bell;
    rung = λ r c n. inv.rung r c (back is_waking WakerPc.ringing e refl n);
    first = λ t nz n. absurd (ground (arith, NoneAt-here owes_wake wakers i WakerPc.ringing n));
    second = λ t nz n. absurd (ground (arith, NoneAt-here owes_wake wakers i WakerPc.ringing n));
    done = λ t d n. inv.done t d (back is_announcing WakerPc.ringing e refl n);
    failed = λ t d n. inv.failed t d (back is_announcing WakerPc.ringing e refl n);
  }
  WakerMove-Inv e (WakerMove.rung_already on) =
      let rings = bit_or_low b.rx.bell inv.bell in
      record {
        armed = inv.armed;
        bell = omega (arith, rings);
        rung = λ r c n. inv.rung (omega (arith, inv.bell)) c (back is_waking WakerPc.idle e refl n);
        first = λ t nz n. inl rings;
        second = λ t nz n. inl rings;
        done = λ t d n. inv.done t d (back is_announcing WakerPc.idle e refl n);
        failed = λ t d n. inv.failed t d (back is_announcing WakerPc.idle e refl n);
      }
  WakerMove-Inv e (WakerMove.first_ring off) =
      let rings = bit_or_low b.rx.bell inv.bell in
      record {
        armed = inv.armed;
        bell = omega (arith, rings);
        rung = λ r c n. absurd (ground (arith, NoneAt-here is_waking wakers i WakerPc.waking n));
        first = λ t nz n. inl rings;
        second = λ t nz n. inl rings;
        done = λ t d n. inv.done t d (back is_announcing WakerPc.waking e refl n);
        failed = λ t d n. inv.failed t d (back is_announcing WakerPc.waking e refl n);
      }
  WakerMove-Inv e WakerMove.send_wake = record {
    armed = inv.armed;
    bell = inv.bell;
    rung = λ r c n. omega arith;
    first = λ t nz n. inr (omega arith);
    second = λ t nz n. inr (omega arith);
    done = λ t d n. omega arith;
    failed = λ t d n. omega arith;
  }
  WakerMove-Inv e WakerMove.finish = record {
    armed = inv.armed;
    bell = inv.bell;
    rung = λ r c n. inv.rung r c (back is_waking WakerPc.announcing e refl n);
    first = λ t nz n. inv.first t nz (back owes_wake WakerPc.announcing e refl n);
    second = λ t nz n. inv.second t nz (back owes_wake WakerPc.announcing e refl n);
    done =
        λ t d n. absurd (ground (arith, NoneAt-here is_announcing wakers i WakerPc.announcing n));
    failed =
        λ t d n. absurd (ground (arith, NoneAt-here is_announcing wakers i WakerPc.announcing n));
  }
  WakerMove-Inv e WakerMove.fail = record {
    armed = inv.armed;
    bell = inv.bell;
    rung = λ r c n. inv.rung r c (back is_waking WakerPc.announcing e refl n);
    first = λ t nz n. inv.first t nz (back owes_wake WakerPc.announcing e refl n);
    second = λ t nz n. inv.second t nz (back owes_wake WakerPc.announcing e refl n);
    done =
        λ t d n. absurd (ground (arith, NoneAt-here is_announcing wakers i WakerPc.announcing n));
    failed =
        λ t d n. absurd (ground (arith, NoneAt-here is_announcing wakers i WakerPc.announcing n));
  }
  WakerMove-Inv e WakerMove.announce = record {
    armed = inv.armed;
    bell = inv.bell;
    rung = λ r c n. omega arith;
    first = λ t nz n. inr (omega arith);
    second = λ t nz n. inr (omega arith);
    done = λ t d n. omega arith;
    failed = λ t d n. omega arith;
  }
