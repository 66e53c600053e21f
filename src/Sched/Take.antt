-- ===== src/Sched/Take.antt =====
-- `pop` takes the first node of a queue.
use tpa.Base.{ℕ, ◌<◌, ◌≡◌, ◌≢◌, false, List, [], ◌∷◌, arith, elem}
use tpa.State.{null, SchedState, Region, flush, fence_rw, World, ok, emit, Config}
use tpa.State.Returns.{Returns}
use tpa.Sched.{runq_take, runq_unlock, pop}
use tpa.Sched.Queue.{Chain, IsQueue, Chain-frame}
use tpa.Sched.Push.{locked, runq_lock-free}

-- The state that `pop` leaves.
popped : ℕ → World → World
popped h w =
    runq_unlock h (emit fence_rw (emit (flush (Region.runq_of h)) (runq_take h (locked h w)).1))

pop-popped :
    (cfg : Config) (h : ℕ) (w : World)
    → h < cfg.nr_harts
    → (w.runq h).lock ≡ 0
    → pop cfg h w ≡ ok (w.runq h).head (popped h w)
unfolding pop popped runq_take
pop-popped cfg h w lt e = ground (arith, runq_lock-free cfg.retries h w)

module _ (w : World) (h : ℕ) where
  popped-next : (a : ℕ) → a ≢ (w.runq h).head → ((popped h w).nodes a).next ≡ (w.nodes a).next
  unfolding popped runq_take runq_unlock
  popped-next a off = ground arith

  popped-empty : IsQueue w h [] → IsQueue (popped h w) h []
  unfolding popped runq_take runq_unlock
  popped-empty q = ground arith

  popped-IsQueue : (n : ℕ) (ns : List ℕ) → IsQueue w h (n ∷ ns) → IsQueue (popped h w) h ns
  unfolding popped runq_take runq_unlock
  popped-IsQueue n [] q = ground arith
  popped-IsQueue n (m ∷ ms) q = record {
    chain = rw rest kept;
    tail = ground arith;
    distinct = q.distinct.1;
    free = ground arith;
  }
    where
      rest : ((popped h w).runq h).head ≡ (w.nodes n).next
      rest = ground arith

      kept : Chain (popped h w).nodes (w.nodes n).next (m ∷ ms)
      kept =
          Chain-frame w.nodes (popped h w).nodes (w.nodes n).next (m ∷ ms)
            (λ a i. popped-next a (λ e. ground arith)) q.chain.2

  popped-frame :
      (g n : ℕ) (ns ms : List ℕ)
      → g ≢ h
      → IsQueue w h (n ∷ ns)
      → IsQueue w g ms
      → elem n ms ≡ false
      → IsQueue (popped h w) g ms
  unfolding popped runq_take runq_unlock
  popped-frame g n ns ms other q r out = record {
    chain = rw same_head kept;
    tail = ground arith;
    distinct = r.distinct;
    free = ground arith;
  }
    where
      same_head : ((popped h w).runq g).head ≡ (w.runq g).head
      same_head = ground arith

      kept : Chain (popped h w).nodes (w.runq g).head ms
      kept =
          Chain-frame w.nodes (popped h w).nodes (w.runq g).head ms
            (λ a i. popped-next a (λ e. ground arith)) r.chain

  popped-state :
      (n : ℕ) (ns : List ℕ)
      → IsQueue w h (n ∷ ns)
      → ((popped h w).nodes n).state ≡ SchedState.running
  unfolding popped runq_take runq_unlock
  popped-state n ns q = ground arith

-- `tpa_sched_pop` of an existing hart, whose queue is well formed, not locked and not empty,
-- returns the first node, marked running, and leaves the others in their order; the lock is free
-- again.
pub pop-cons :
    (cfg : Config) (h n : ℕ) (w : World) (ns : List ℕ)
    → h < cfg.nr_harts
    → IsQueue w h (n ∷ ns)
    → Returns
        (λ r v. (r ≡ n) × IsQueue v h ns × ((v.nodes n).state ≡ SchedState.running))
        (pop cfg h w)
pop-cons cfg h n w ns lt q =
    rw (pop-popped cfg h w lt q.free)
      (q.chain.0, popped-IsQueue w h n ns q, popped-state w h n ns q)

-- `tpa_sched_pop` on a queue that is not empty leaves the queue of another hart as it is, if that
-- does not hold the node. Both queues are well formed.
pub pop-frame :
    (cfg : Config) (h n g : ℕ) (w : World) (ns ms : List ℕ)
    → h < cfg.nr_harts
    → IsQueue w h (n ∷ ns)
    → g ≢ h
    → IsQueue w g ms
    → elem n ms ≡ false
    → Returns (λ _ v. IsQueue v g ms) (pop cfg h w)
pop-frame cfg h n g w ns ms lt q other r out =
    rw (pop-popped cfg h w lt q.free) (popped-frame w h g n ns ms other q r out)

-- `tpa_sched_pop` on an empty queue returns the null pointer and leaves the queue empty.
pub pop-nil :
    (cfg : Config) (h : ℕ) (w : World)
    → h < cfg.nr_harts
    → IsQueue w h []
    → Returns (λ r v. (r ≡ null) × IsQueue v h []) (pop cfg h w)
pop-nil cfg h w lt q = rw (pop-popped cfg h w lt q.free) (q.chain, popped-empty w h q)
