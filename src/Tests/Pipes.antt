-- ===== src/Tests/Pipes.antt =====
-- Tests of the pipe demo.
use tpa.Base.{ℕ, ◌+◌, ◌-◌, ◌*◌, ◌%◌, ◌==◌, ltb, ◌^◌, ◌≡◌, none, [], ◌∷◌, arith, if◌then◌else◌}
use tpa.Pipe.{
  Symbols, StageWs, Vars, demo_chk, demo_sink_done, demo_input, demo_pass, demo_fail, demo_expect,
  demo_chk_limit,
}
use tpa.Pipe.Relay.{relay, received, source_message, demo_chk-relay}

abbrev symbols : Symbols
symbols = record {
  src_done = 1;
  stage_send = 2;
  stage_done = 3;
  sink_done = 4;
  chk = 5;
  input_at = 100;
  in_at = 200;
  in_len_at = 208;
  out_at = 216;
  sink_buf_at = 300;
  sink_len_at = 308;
}

abbrev ports : ℕ → ℕ
ports port = 40 + port

abbrev workspaces : ℕ → StageWs
workspaces i = record { input = none; in_len = 0; out = i }

abbrev vars : Vars
vars = record {
  sink_buf = none;
  sink_len = 0;
  sink_val = 0;
  src_done = 0;
  sink_done = 0;
  tries = 510;
}

demo_chk-relay_example :
    let word = (2 ^ 2 * (demo_input + 1) - 1) % 2 ^ 64 in
    let after =
      (demo_sink_done symbols ports
        (received vars (relay symbols ports 2 workspaces (source_message symbols ports)))).0 in
    (after.sink_val ≡ word)
    × ((demo_chk symbols ports after).2 ≡ (
        if word == demo_expect
        then demo_pass ∷ []
        else if ltb demo_chk_limit vars.tries
        then demo_fail ∷ []
        else []))
demo_chk-relay_example = demo_chk-relay symbols ports 2 workspaces vars (omega arith) (omega arith)
