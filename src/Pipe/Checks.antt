-- ===== src/Pipe/Checks.antt =====
-- The runs of the checker of the pipe demo.
use tpa.Base.{
  ℕ, zero, suc, ◌+◌, ◌%◌, ◌^◌, ◌≤◌, ◌<◌, ◌≡◌, ◌&&◌, not, Bool, Bool-cases, inl, inr, Option, none,
  some, ◌==◌, ltb, if◌then◌else◌, List, [], ◌∷◌, refl, ◌∙◌, arith,
}
use tpa.Step.{op_stop}
use tpa.Pipe.{Symbols, Vars, demo_chk, demo_expect, demo_pass, demo_fail}

abbrev pub accepts : Vars → Bool
accepts v = not (v.sink_done == 0) && v.sink_val == demo_expect

module _ (at : Symbols) (chan : ℕ → ℕ) where
  -- The runs of the checker that follow each other, `n` at most, until it stops: what the last traces.
  abbrev pub chk_runs : ℕ → Vars → Option (List ℕ)
  chk_runs zero v = none
  chk_runs (suc n) v =
      let (v1, op, marks) = demo_chk at chan v in
      let rest = chk_runs n v1 in if op.op == op_stop then some marks else rest

  -- Left alone, the checker stops within 514 runs, and its last run traces a pass if the sink has
  -- left the expected word, and a failure otherwise. It starts from `tries` of at most 513.
  pub chk_runs-ends :
      (n : ℕ) (v : Vars)
      → v.tries ≤ 513
      → 513 < v.tries + n
      → chk_runs n v ≡ some (if accepts v then demo_pass ∷ [] else demo_fail ∷ [])
  chk_runs-ends zero v low enough = absurd (omega arith)
  chk_runs-ends (suc n) v low enough = elim (Bool-cases (accepts v)) [
    | inl right ↦ rw right refl
    | inr not_yet ↦ elim (Bool-cases (ltb 512 v.tries)) [
      | inl over ↦ rw (not_yet, over) refl
      | inr more ↦
          let next = record v { tries = (v.tries + 1) % 2 ^ 32 } in
          let rest = chk_runs-ends n next (ground (arith, more)) (ground (arith, more)) in
          rw (not_yet, more) (rest ∙ rw not_yet refl)
    ]
  ]
