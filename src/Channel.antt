-- ===== src/Channel.antt =====
-- tpa/lib/src/channel.c: rendezvous on a channel. The runtime is reached through a record of
-- callbacks, any of which may be missing; the code of channel.c names the runtime nowhere else.
-- `send_loop` and `recv_loop` are the two `for (;;)` loops that poll the state of a channel, a round
-- for each unit of their first argument.
pub mod Laws
pub mod Handoff
pub mod Send
pub mod Recv
pub mod Rendezvous
pub mod Copy
use tpa.Base.{
  ℕ, zero, suc, ◌%◌, Bool, false, not, ◌&&◌, ◌||◌, Option, none, some, bit_xor, ◌==◌, ltb,
  if◌then◌else◌,
}
use tpa.State.{
  null, ChannelEp, Chan, ChannelOp, Region, trace, flush, evict, World, hung, spinning, Cmd, ok,
  ◌>>=◌, ◌>>◌, Unit0, act, emit, set_chan, memcpy, Config,
}
use tpa.State.Kind
use tpa.State.ChannelState
use tpa.State.ChannelTrace
use tpa.Hal.{atomic_or_u32, atomic_exchange_u32, atomic_compare_exchange_u32}
use tpa.Process.{store_ptr, store_word}

-- `struct tpa_channel_runtime`
pub record ChannelRuntime : Type 0 where
  pub bug : Option (World → World)
  pub trace_tag : Option (ℕ → World → World)
  pub wake_ep : Option (ChannelEp → World → World)
  pub run_proc : Option (ℕ → ℕ → Cmd Unit0)
  pub wait_send : Option (ℕ → ChannelOp → World → World)
  pub wait_recv : Option (ℕ → ChannelOp → World → World)
  pub publish_msg : Option (ChannelEp → ℕ → ℕ → World → World)

abbrev pub channel_state : ℕ → Cmd ℕ
channel_state c w = ok (atomic_or_u32 (w.chans c).state 0).0 w

abbrev pub try_state : ℕ → ℕ → ℕ → Cmd Bool
try_state c from to w =
    let (old, new) = atomic_compare_exchange_u32 (w.chans c).state from to in
    ok (old == from) (set_chan c (record (w.chans c) { state = new }) w)

abbrev pub set_state : ℕ → ℕ → World → World
set_state c to w =
    set_chan c (record (w.chans c) { state = (atomic_exchange_u32 (w.chans c).state to).1 }) w

abbrev pub channel_rbuf : Chan → ℕ
channel_rbuf ch = if ch.nrbuf == 0 then null else if ch.turn % 2 == 0 then ch.bufv0 else ch.bufv1

abbrev pub rotate_buf : Chan → Chan
rotate_buf ch = if ltb 1 ch.nrbuf then record ch { turn = bit_xor ch.turn 1 } else ch

abbrev pub requires_storage : Chan → Bool
requires_storage ch = ch.kind == Kind.fabric

-- `ch->buf = op->buf; ch->len = op->len`
abbrev pub offer : ChannelOp → Chan → Chan
offer op ch = record ch { buf = op.buf; len = op.len }

module _ (cfg : Config) (rt : ChannelRuntime) where
  abbrev pub channel_bug : {A : Type 0} → Cmd A
  channel_bug w = hung (elim (rt.bug) [ none ↦ w | some f ↦ f w ])

  abbrev pub channel_trace : ℕ → World → World
  channel_trace tag w = elim (rt.trace_tag) [ none ↦ emit (trace tag) w | some f ↦ f tag w ]

  abbrev pub check_len : ℕ → ℕ → Cmd Unit0
  check_len c len w =
      if (w.chans c).cap == 0 || ltb (w.chans c).cap len then channel_bug w else ok tt w

  unfoldable pub copy_to_storage : ℕ → ℕ → ℕ → Cmd ℕ
  copy_to_storage c src len w =
      let dst = channel_rbuf (w.chans c) in
      if dst == null
      then channel_bug w
      else (let w1 = if dst == src then w else memcpy dst src len w in
          let w2 = emit (flush (Region.bytes_at dst len)) w1 in
          let w3 = set_chan c (rotate_buf (w2.chans c)) w2 in
          ok dst (emit (flush (Region.chan_obj c)) w3))

  unfoldable pub deliver_buf : ℕ → ℕ → ℕ → Bool → Cmd ℕ
  unfolding copy_to_storage
  deliver_buf c src len force w =
      if not force && (w.chans c).nrbuf == 0 then ok src w else copy_to_storage c src len w

  abbrev pub call_wake_ep : ChannelEp → Cmd Unit0
  call_wake_ep ep w = elim (rt.wake_ep) [ none ↦ channel_bug w | some f ↦ ok tt (f ep w) ]

  abbrev pub call_publish_msg : ChannelEp → ℕ → ℕ → Cmd Unit0
  call_publish_msg ep buf len w = elim (rt.publish_msg) [
    | none ↦ channel_bug w
    | some f ↦ ok tt (f ep buf len w)
  ]

  abbrev pub call_run_proc : ℕ → ℕ → Cmd Unit0
  call_run_proc p next w = elim (rt.run_proc) [ none ↦ channel_bug w | some f ↦ f p next w ]

  abbrev pub call_wait_send : ℕ → ChannelOp → Cmd Unit0
  call_wait_send p op w = elim (rt.wait_send) [ none ↦ channel_bug w | some f ↦ ok tt (f p op w) ]

  abbrev pub call_wait_recv : ℕ → ChannelOp → Cmd Unit0
  call_wait_recv p op w = elim (rt.wait_recv) [ none ↦ channel_bug w | some f ↦ ok tt (f p op w) ]

  module _ (p : ℕ) (op : ChannelOp) (force : Bool) where
    -- The sender has taken an empty channel: it leaves its message there and waits.
    unfoldable pub send_wait : Cmd Unit0
    send_wait = do
      act (λ w. set_chan op.ch (offer op (w.chans op.ch)) w)
      act (emit (flush (Region.chan_obj op.ch)))
      call_wait_send p op
      act (set_state op.ch ChannelState.wait_tx)
      act (channel_trace ChannelTrace.send_end)

    -- The sender has taken a channel where a receiver waits.
    unfoldable pub send_deliver : Cmd Unit0
    send_deliver = do
      buf ← deliver_buf op.ch op.buf op.len force
      λ w. call_publish_msg (w.chans op.ch).rx buf op.len w
      act (set_state op.ch ChannelState.empty)
      λ w. call_wake_ep (w.chans op.ch).rx w
      call_run_proc p op.next
      act (channel_trace ChannelTrace.send_end)

    unfoldable pub send_loop : ℕ → Cmd Unit0
    send_loop zero w = spinning w
    send_loop (suc n) w =
        let again = send_loop n in
        let state = (w.chans op.ch).state in
        if state == ChannelState.tx || state == ChannelState.rx
        then again w
        else if state == ChannelState.empty
        then (do
          got ← try_state op.ch ChannelState.empty ChannelState.tx
          if got then send_wait else again)
            w
        else if state == ChannelState.wait_rx
        then (do
          got ← try_state op.ch ChannelState.wait_rx ChannelState.tx
          if got then send_deliver else again)
            w
        else again w

    unfoldable pub send_handoff : Cmd Unit0
    send_handoff w =
        if op.ch == null
        then ok tt w
        else (do
          act (channel_trace ChannelTrace.send_beg)
          check_len op.ch op.len
          act (emit (flush (Region.bytes_at op.buf op.len)))
          send_loop (suc cfg.retries))
            w

    -- The receiver has taken an empty channel.
    unfoldable pub recv_wait : Cmd Unit0
    recv_wait = do
      call_wait_recv p op
      act (set_state op.ch ChannelState.wait_rx)
      act (channel_trace ChannelTrace.recv_end)

    -- The receiver has taken a channel where a message waits.
    unfoldable pub recv_deliver : Cmd Unit0
    recv_deliver w =
        let len = (w.chans op.ch).len in
        (do
          check_len op.ch len
          act (λ v. emit (evict (Region.bytes_at (v.chans op.ch).buf len)) v)
          buf ← λ v. deliver_buf op.ch (v.chans op.ch).buf len force v
          act (store_ptr op.bufp buf)
          act (store_word op.lenp len)
          act (set_state op.ch ChannelState.empty)
          λ v. call_wake_ep (v.chans op.ch).tx v
          call_run_proc p op.next
          act (channel_trace ChannelTrace.recv_end))
          w

    unfoldable pub recv_loop : ℕ → Cmd Unit0
    recv_loop zero w = spinning w
    recv_loop (suc n) w =
        let again = recv_loop n in
        let state = (w.chans op.ch).state in
        if state == ChannelState.tx || state == ChannelState.rx
        then again w
        else if state == ChannelState.empty
        then (do
          got ← try_state op.ch ChannelState.empty ChannelState.rx
          if got then recv_wait else again)
            w
        else if state == ChannelState.wait_tx
        then (do
          got ← try_state op.ch ChannelState.wait_tx ChannelState.rx
          if got then recv_deliver else again)
            w
        else again w

    unfoldable pub recv_handoff : Cmd Unit0
    recv_handoff w =
        if op.ch == null
        then ok tt w
        else (do act (channel_trace ChannelTrace.recv_beg); recv_loop (suc cfg.retries)) w

  unfoldable pub send : ℕ → ChannelOp → Cmd Unit0
  send p op w =
      let kind = (w.chans op.ch).kind in
      if op.ch == null
      then ok tt w
      else if kind == Kind.direct || kind == Kind.local
      then send_handoff p op false w
      else if kind == Kind.fabric
      then send_handoff p op (requires_storage (w.chans op.ch)) w
      else channel_bug w

  unfoldable pub recv : ℕ → ChannelOp → Cmd Unit0
  recv p op w =
      let kind = (w.chans op.ch).kind in
      if op.ch == null
      then ok tt w
      else if kind == Kind.direct || kind == Kind.local
      then recv_handoff p op false w
      else if kind == Kind.fabric
      then recv_handoff p op (requires_storage (w.chans op.ch)) w
      else channel_bug w
