-- ===== src/Sched.antt =====
-- tpa/lib/src/scheduler.c: a run queue for each hart, as a linked list of nodes under a lock, and
-- the words of ready bits and the bell by which other harts make themselves heard.
pub mod Queue
pub mod Push
pub mod Take
pub mod Ready
use tpa.Base.{ℕ, zero, suc, ◌/◌, ◌%◌, ◌^◌, true, false, ◌||◌, ◌==◌, leb, ltb, if◌then◌else◌, update}
use tpa.State.{
  null, ready_words, sched_no_slot, SchedState, SchedNode, Runq, Rx, Region, flush, fence_rw,
  wake_hart, World, ok, spinning, Cmd, pure, ◌>>=◌, ◌>>◌, Unit0, act, emit, set_node, set_runq,
  set_rx, Config,
}
use tpa.Hal.{
  atomic_or_u32, atomic_exchange_u32, atomic_compare_exchange_u32, atomic_or_u64,
  atomic_exchange_u64,
}

abbrev pub idle_runq : Runq
idle_runq = record { lock = 0; head = null; tail = null }

abbrev pub idle_rx : Rx
idle_rx = record { bits = λ _. 0; armed = 0; bell = 0 }

-- The loop over the harts writes every entry below `nr_harts`.
unfoldable pub init : Config → World → World
init cfg w =
    let w1 = record w {
      runq = λ h. if ltb h cfg.nr_harts then idle_runq else w.runq h;
      rx = λ h. if ltb h cfg.nr_harts then idle_rx else w.rx h;
    } in
    emit fence_rw (emit (flush Region.all_rx) (emit (flush Region.all_runq) w1))

unfoldable pub node_init : ℕ → ℕ → World → World
node_init node hartid w =
    if node == null then w else emit (flush (Region.node_obj node)) (set_node node fresh w)
  where
    fresh : SchedNode
    fresh = record {
      next = null;
      hartid = hartid % 2 ^ 16;
      slot = sched_no_slot;
      state = SchedState.dead;
    }

-- Each round is one compare-exchange.
unfoldable pub runq_lock : ℕ → ℕ → Cmd Unit0
runq_lock zero h w = spinning w
runq_lock (suc n) h w =
    let (old, new) = atomic_compare_exchange_u32 (w.runq h).lock 0 1 in
    let w1 = set_runq h (record (w.runq h) { lock = new }) w in
    elim (old == 0) [ true ↦ ok tt w1 | false ↦ runq_lock n h w1 ]

unfoldable pub runq_unlock : ℕ → World → World
runq_unlock h w =
    set_runq h (record (w.runq h) { lock = (atomic_exchange_u32 (w.runq h).lock 0).1 }) w

unfoldable pub runq_push : ℕ → ℕ → World → World
runq_push h node w =
    let q = w.runq h in
    let w1 = set_node node (record (w.nodes node) { next = null; state = SchedState.ready }) w in
    if q.head == null
    then set_runq h (record q { head = node; tail = node }) w1
    else (let w2 = set_node q.tail (record (w1.nodes q.tail) { next = node }) w1 in
        set_runq h (record q { tail = node }) w2)

-- Returns 1 if the node is in the queue of its hart now.
unfoldable pub run : Config → ℕ → Cmd ℕ
unfolding runq_lock runq_push runq_unlock
run cfg node w =
    let h = (w.nodes node).hartid in
    if node == null || leb cfg.nr_harts h
    then ok 0 w
    else (do
      runq_lock (suc cfg.retries) h
      act (runq_push h node)
      act (emit (flush (Region.runq_of h)))
      act (emit (flush (Region.node_obj node)))
      act (emit fence_rw)
      act (runq_unlock h)
      pure 1)
        w

-- The part of `pop` between the lock and the cache operations.
unfoldable pub runq_take : ℕ → World → ℕ × World
runq_take h w =
    let q = w.runq h in
    let node = q.head in
    if node == null
    then (node, w)
    else (let rest = (w.nodes node).next in
        let q' = record q { head = rest; tail = (if rest == null then null else q.tail) } in
        let n = record (w.nodes node) { next = null; state = SchedState.running } in
        (node, emit (flush (Region.node_obj node)) (set_node node n (set_runq h q' w))))

unfoldable pub pop : Config → ℕ → Cmd ℕ
unfolding runq_lock runq_take runq_unlock
pop cfg h w =
    if leb cfg.nr_harts h
    then ok null w
    else (do
      runq_lock (suc cfg.retries) h
      node ← λ v. let (node, v') = runq_take h v in ok node v'
      act (emit (flush (Region.runq_of h)))
      act (emit fence_rw)
      act (runq_unlock h)
      pure node)
        w

-- `slot >> 6` and `slot & 63`
unfoldable pub set_ready_slot : Config → ℕ → ℕ → World → World
set_ready_slot cfg h slot w =
    let word = slot / 64 in
    let r = w.rx h in
    let bits = (atomic_or_u64 (r.bits word) (2 ^ (slot % 64))).1 in
    if leb cfg.nr_harts h || leb ready_words word
    then w
    else set_rx h (record r { bits = update r.bits word bits }) w

unfoldable pub ring_if_armed : Config → ℕ → World → World
ring_if_armed cfg h w =
    let r = w.rx h in
    let (bell, rung) = atomic_or_u32 r.bell 1 in
    if leb cfg.nr_harts h
    then w
    else if (atomic_or_u32 r.armed 0).0 % 2 == 0
    then w
    else (let w1 = set_rx h (record r { bell = rung }) w in
        if bell % 2 == 0 then emit (wake_hart h) (emit fence_rw w1) else w1)

unfoldable pub take_ready_word : Config → ℕ → ℕ → World → ℕ × World
take_ready_word cfg h word w =
    let r = w.rx h in
    let (old, new) = atomic_exchange_u64 (r.bits word) 0 in
    if leb cfg.nr_harts h || leb ready_words word
    then (0, w)
    else (old, set_rx h (record r { bits = update r.bits word new }) w)

unfoldable pub set_armed : Config → ℕ → ℕ → World → World
set_armed cfg h armed w =
    let r = w.rx h in
    let (_, new) = atomic_exchange_u32 r.armed (if armed == 0 then 0 else 1) in
    if leb cfg.nr_harts h
    then w
    else emit (flush (Region.rx_of h)) (set_rx h (record r { armed = new }) w)

unfoldable pub take_bell : Config → ℕ → World → ℕ × World
take_bell cfg h w =
    let r = w.rx h in
    let (old, new) = atomic_exchange_u32 r.bell 0 in
    if leb cfg.nr_harts h then (0, w) else (old, set_rx h (record r { bell = new }) w)
