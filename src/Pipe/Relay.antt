-- ===== src/Pipe/Relay.antt =====
-- The words that go through the chain of stages, and into the sink.
use tpa.Base.{
  ℕ, zero, suc, ◌+◌, ◌-◌, ◌*◌, ◌%◌, ◌^◌, ◌<◌, ◌≤◌, ◌≡◌, ◌≢◌, Option, none, some, ◌==◌, ◌&&◌, ltb,
  if◌then◌else◌, List, [], ◌∷◌, refl, ap, ◌∙◌, arith, true, false,
}
use native.Mathlib.Nat.{pow-suc, one-le-pow}
use tpa.State.{null}
use tpa.Step.{Op, op_send}
use tpa.Depth.Program.{tpa_send}
use tpa.Pipe.{
  Symbols, StageWs, Vars, word_bytes, demo_src_start, demo_stage_send, demo_sink_done, demo_chk,
  demo_input, demo_expect, demo_pass, demo_fail, demo_chk_limit,
}

-- A word and the length that it is sent with.
abbrev pub Message : Type 0
Message = ℕ × ℕ

-- What an operation sends on a channel: the word at `address`, if that is where it sends from.
abbrev pub sent_message : Op → (ch address word : ℕ) → Option Message
sent_message op ch address word =
    if op.op == op_send && (op.ch == ch && op.buf == address) then some (word, op.len) else none

abbrev pub then_message : Option Message → (Message → Option Message) → Option Message
then_message none next = none
then_message (some x) next = next x

abbrev pub sent_out : (ch address : ℕ) → Option StageWs × Op × List ℕ → Option Message
sent_out ch address (none, op, traced) = none
sent_out ch address (some w, op, traced) = sent_message op ch address w.out

-- The variables of the sink, when a message has come in.
abbrev pub received : Vars → Option Message → Vars
received v none = record v { sink_buf = none; sink_len = 0 }
received v (some (x, len)) = record v { sink_buf = some x; sink_len = len }

module _ (at : Symbols) (chan : ℕ → ℕ) where
  abbrev pub source_message : Option Message
  source_message = sent_message (demo_src_start at chan).0 (chan 0) at.input_at demo_input

  -- A stage that has received a message.
  abbrev pub stage_message : StageWs → Message → Option Message
  stage_message w (x, len) =
      sent_out (chan 1) at.out_at
        (demo_stage_send at chan (some (record w { input = some x; in_len = len })))

  -- The message after `n` stages.
  abbrev pub relay : ℕ → (ℕ → StageWs) → Option Message → Option Message
  relay zero ws x = x
  relay (suc n) ws x = then_message (relay n ws x) (stage_message (ws n))

  on_channel :
      (ch address word : ℕ) (op : Op)
      → (op.op == op_send) ≡ true
      → op.ch ≡ ch
      → op.buf ≡ address
      → sent_message op ch address word ≡ some (word, op.len)
  on_channel ch address word op sends same_ch same_buf = ground (arith, sends, same_ch, same_buf)

  source_message-value : chan 0 ≢ null → source_message ≡ some (demo_input, word_bytes)
  source_message-value port =
      let open_port : (chan 0 == null) ≡ false = ground (arith, port) in
      rw open_port (
        on_channel (chan 0) at.input_at demo_input
          (tpa_send (chan 0) at.input_at word_bytes at.src_done) refl refl refl)

  stage_message-value :
      (w : StageWs) (x : ℕ)
      → chan 1 ≢ null
      → stage_message w (x, word_bytes) ≡ some ((x * 2 + 1) % 2 ^ 64, word_bytes)
  stage_message-value w x port =
      let open_port : (chan 1 == null) ≡ false = ground (arith, port) in
      rw open_port (
        on_channel (chan 1) at.out_at ((x * 2 + 1) % 2 ^ 64)
          (tpa_send (chan 1) at.out_at word_bytes at.stage_done) refl refl refl)

  -- A word x that goes through n stages comes out as 2^n (x + 1) - 1 in 64 bits, whatever the stages'
  -- workspaces held before; each stage has a channel to send it to.
  pub relay-value :
      (n : ℕ) (ws : ℕ → StageWs) (x : ℕ)
      → x < 2 ^ 64
      → chan 1 ≢ null
      → relay n ws (some (x, word_bytes)) ≡ some ((2 ^ n * (x + 1) - 1) % 2 ^ 64, word_bytes)
  relay-value zero ws x fits port = ap (λ y. some (y, word_bytes)) (omega arith)
  relay-value (suc n) ws x fits port =
      let y = (2 ^ n * (x + 1) - 1) % 2 ^ 64 in
      let some_bit : 1 ≤ 2 ^ n * (x + 1) = omega (arith, one-le-pow n 2 (omega arith)) in
      let doubled : 2 ^ suc n * (x + 1) ≡ 2 ^ n * (x + 1) * 2 =
        ap (λ z. z * (x + 1)) (pow-suc 2 n) ∙ omega arith in
      ap (λ o. then_message o (stage_message (ws n))) (relay-value n ws x fits port)
      ∙ stage_message-value (ws n) y port
      ∙ ap (λ z. some (z, word_bytes)) (omega (arith, some_bit, doubled))

  -- The checker after the sink, of a word.
  chk-word :
      (v : Vars) (x : ℕ)
      → let after = (demo_sink_done at chan (received v (some (x, word_bytes)))).0 in
        (after.sink_val ≡ x)
        × ((demo_chk at chan after).2 ≡ (
            if x == demo_expect
            then demo_pass ∷ []
            else if ltb demo_chk_limit v.tries
            then demo_fail ∷ []
            else []))
  chk-word v x = (refl, ground arith)

  -- From end to end, for any number n of stages between the source and the sink: the word that the source
  -- sends reaches the sink as 2^n (`demo_input` + 1) - 1 in 64 bits, and the checker's next run passes
  -- exactly if that is `demo_expect`; else it fails or goes on, by the number of its tries. What
  -- a process receives is what the operation of the one before it sends, from the address and on the channel
  -- that it should, with the length of that operation. Ports 0 and 1 have channels.
  pub demo_chk-relay :
      (n : ℕ) (ws : ℕ → StageWs) (v : Vars)
      → chan 0 ≢ null
      → chan 1 ≢ null
      → let word = (2 ^ n * (demo_input + 1) - 1) % 2 ^ 64 in
        let after = (demo_sink_done at chan (received v (relay n ws source_message))).0 in
        (after.sink_val ≡ word)
        × ((demo_chk at chan after).2 ≡ (
            if word == demo_expect
            then demo_pass ∷ []
            else if ltb demo_chk_limit v.tries
            then demo_fail ∷ []
            else []))
  demo_chk-relay n ws v in_port out_port =
      let word = (2 ^ n * (demo_input + 1) - 1) % 2 ^ 64 in
      let arrives : relay n ws source_message ≡ some (word, word_bytes) =
        ap (relay n ws) (source_message-value in_port)
        ∙ relay-value n ws demo_input (omega arith) out_port in
      let (stored, verdict) = chk-word v word in
      (
        ap (λ m. (demo_sink_done at chan (received v m)).0.sink_val) arrives ∙ stored,
        ap (λ m. (demo_chk at chan (demo_sink_done at chan (received v m)).0).2) arrives ∙ verdict,
      )
