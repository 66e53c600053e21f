-- ===== src/Pipe.antt =====
-- kernels/tpa_pipe_demo.c: a source, stages that compute 2 x + 1, a sink and a checker, as programs
-- of processes. A continuation takes the variables that it uses to those that it leaves, the operation
-- that it returns, and the values that it traces. A pointer to a message is the word that it leads to,
-- or `none`. The arguments of the section are the channel that `tpa_chan` finds at a port, and the
-- numbers that the linker gives to the continuations and to the objects whose addresses are taken.
pub mod Relay
pub mod Checks
use tpa.Base.{
  ℕ, suc, ◌+◌, ◌*◌, ◌%◌, ◌^◌, ◌||◌, ◌&&◌, not, Option, none, some, ◌==◌, ltb, if◌then◌else◌, List,
  [], ◌∷◌,
}
use tpa.State.{null}
use tpa.Step.{Op, op_yield}
use tpa.Depth.Program.{tpa_stop, tpa_send, tpa_recv}

abbrev pub demo_input : ℕ
demo_input = 7

abbrev pub demo_expect : ℕ
demo_expect = 31

-- `mark` traces 32 bits.
abbrev pub demo_begin : ℕ
demo_begin = 3541106688

abbrev pub demo_value : ℕ
demo_value = 3541106689

abbrev pub demo_pass : ℕ
demo_pass = 3541106943

abbrev pub demo_fail : ℕ
demo_fail = 3541106926

abbrev pub demo_chk_limit : ℕ
demo_chk_limit = 512

-- `sizeof(uint64_t)`
abbrev pub word_bytes : ℕ
word_bytes = 8

pub record StageWs : Type 0 where
  pub input : Option ℕ
  pub in_len : ℕ
  pub out : ℕ

-- The static variables.
pub record Vars : Type 0 where
  pub sink_buf : Option ℕ
  pub sink_len : ℕ
  pub sink_val : ℕ
  pub src_done : ℕ
  pub sink_done : ℕ
  pub tries : ℕ

pub record Symbols : Type 0 where
  pub src_done : ℕ
  pub stage_send : ℕ
  pub stage_done : ℕ
  pub sink_done : ℕ
  pub chk : ℕ
  pub input_at : ℕ
  pub in_at : ℕ
  pub in_len_at : ℕ
  pub out_at : ℕ
  pub sink_buf_at : ℕ
  pub sink_len_at : ℕ

abbrev pub tpa_yield : ℕ → Op
tpa_yield next = record tpa_stop { op = op_yield; next = next }

module _ (at : Symbols) (chan : ℕ → ℕ) where
  abbrev pub demo_src_start : Op × List ℕ
  demo_src_start =
      if chan 0 == null
      then (tpa_stop, demo_begin ∷ demo_fail ∷ [])
      else (tpa_send (chan 0) at.input_at word_bytes at.src_done, demo_begin ∷ [])

  abbrev pub demo_src_done : Vars → Vars × Op
  demo_src_done v = (record v { src_done = 1 }, tpa_stop)

  abbrev pub demo_stage_recv : Option StageWs → Op × List ℕ
  demo_stage_recv none = (tpa_stop, demo_fail ∷ [])
  demo_stage_recv (some w) =
      if chan 0 == null
      then (tpa_stop, demo_fail ∷ [])
      else (tpa_recv (chan 0) at.in_at at.in_len_at at.stage_send, [])

  abbrev pub demo_stage_send : Option StageWs → Option StageWs × Op × List ℕ
  demo_stage_send none = (none, tpa_stop, demo_fail ∷ [])
  demo_stage_send (some w) = elim (w.input) [
    | none ↦ (some w, tpa_stop, demo_fail ∷ [])
    | some x ↦
        if chan 1 == null || not (w.in_len == word_bytes)
        then (some w, tpa_stop, demo_fail ∷ [])
        else (
          some (record w { out = (x * 2 + 1) % 2 ^ 64 }),
          tpa_send (chan 1) at.out_at word_bytes at.stage_done,
          [],
        )
  ]

  abbrev pub demo_sink_start : Op × List ℕ
  demo_sink_start =
      if chan 0 == null
      then (tpa_stop, demo_fail ∷ [])
      else (tpa_recv (chan 0) at.sink_buf_at at.sink_len_at at.sink_done, [])

  abbrev pub demo_sink_done : Vars → Vars × Op × List ℕ
  demo_sink_done v = elim (v.sink_buf) [
    | none ↦ (v, tpa_stop, demo_fail ∷ [])
    | some x ↦
        if not (v.sink_len == word_bytes)
        then (v, tpa_stop, demo_fail ∷ [])
        else (record v { sink_val = x; sink_done = 1 }, tpa_stop, demo_value ∷ x % 2 ^ 32 ∷ [])
  ]

  abbrev pub demo_chk : Vars → Vars × Op × List ℕ
  demo_chk v =
      let tried = record v { tries = (v.tries + 1) % 2 ^ 32 } in
      if not (v.sink_done == 0) && v.sink_val == demo_expect
      then (v, tpa_stop, demo_pass ∷ [])
      else if ltb demo_chk_limit v.tries
      then (tried, tpa_stop, demo_fail ∷ [])
      else (tried, tpa_yield at.chk, [])
