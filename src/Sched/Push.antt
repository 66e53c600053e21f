-- ===== src/Sched/Push.antt =====
-- `run` puts a node at the end of the queue of its hart.
use tpa.Base.{
  ℕ, suc, ◌≤◌, ◌<◌, ◌≡◌, ◌≢◌, ◌⊎◌, refl, true, false, List, [], ◌∷◌, ◌++◌, arith, elem, last,
}
use tpa.State.{
  null, SchedNode, SchedState, Region, flush, fence_rw, World, ok, emit, set_runq, Config,
}
use tpa.State.Returns.{Returns}
use tpa.Sched.{runq_lock, runq_push, runq_unlock, run}
use tpa.Sched.Queue.{
  Chain, IsQueue, last-append, Distinct-append, Chain-append, Chain-frame, elem-last,
}

abbrev pub locked : ℕ → World → World
locked h w = set_runq h (record (w.runq h) { lock = 1 }) w

-- With the lock free the first compare-exchange takes it.
pub runq_lock-free :
    (k h : ℕ) (w : World) → (w.runq h).lock ≡ 0 → runq_lock (suc k) h w ≡ ok tt (locked h w)
unfolding runq_lock
runq_lock-free k h w e = ground arith

-- The state that `run` leaves.
pushed : ℕ → ℕ → World → World
pushed h n w = runq_unlock h (
    emit fence_rw (
      emit (flush (Region.node_obj n))
        (emit (flush (Region.runq_of h)) (runq_push h n (locked h w)))))

run-pushed :
    (cfg : Config) (n : ℕ) (w : World)
    → n ≢ null
    → (w.nodes n).hartid < cfg.nr_harts
    → (w.runq (w.nodes n).hartid).lock ≡ 0
    → run cfg n w ≡ ok 1 (pushed (w.nodes n).hartid n w)
unfolding run pushed
run-pushed cfg n w ne lt e = ground (arith, runq_lock-free cfg.retries (w.nodes n).hartid w)

-- A queue that is not empty ends in one of its nodes.
last_mem :
    (f : ℕ → SchedNode) (p : ℕ) (ns : List ℕ) → Chain f p ns → p ≢ null → elem (last ns) ns ≡ true
last_mem f p [] c ne = absurd (ne c)
last_mem f p (m ∷ ms) c ne = elem-last m ms

module _ (w : World) (h n : ℕ) (ne : n ≢ null) where
  -- Only the new node and the old tail change.
  pushed-next :
      (ns : List ℕ)
      → IsQueue w h ns
      → (a : ℕ) → a ≢ n
      → ((w.runq h).head ≢ null → a ≢ last ns)
      → ((pushed h n w).nodes a).next ≡ (w.nodes a).next
  unfolding pushed runq_push runq_unlock
  pushed-next ns q a off far = ground arith

  pushed-IsQueue :
      (ns : List ℕ) → IsQueue w h ns → elem n ns ≡ false → IsQueue (pushed h n w) h (ns ++ n ∷ [])
  unfolding pushed runq_push runq_unlock
  pushed-IsQueue [] q out = ground arith
  pushed-IsQueue (m ∷ ms) q out = record {
    chain = rw same_head linked;
    tail = ground (arith, last-append (m ∷ ms) n);
    distinct = Distinct-append (m ∷ ms) n q.distinct out;
    free = ground arith;
  }
    where
      same_head : ((pushed h n w).runq h).head ≡ (w.runq h).head
      same_head = ground arith

      linked : Chain (pushed h n w).nodes (w.runq h).head (m ∷ ms ++ n ∷ [])
      linked =
          Chain-append w.nodes (pushed h n w).nodes (w.runq h).head n m ms q.chain q.distinct ne out
            (ground (arith, elem-last m ms)) (ground arith)
            (λ a off far. pushed-next (m ∷ ms) q a off (λ _. far))

  -- The queues of the other harts stay as they are.
  pushed-frame :
      (g : ℕ) (ns ms : List ℕ)
      → g ≢ h
      → IsQueue w h ns
      → IsQueue w g ms
      → elem n ms ≡ false
      → ((a : ℕ) → elem a ns ≡ true → elem a ms ≡ false)
      → IsQueue (pushed h n w) g ms
  unfolding pushed runq_push runq_unlock
  pushed-frame g ns ms other q r out apart = record {
    chain = rw same_head kept;
    tail = ground arith;
    distinct = r.distinct;
    free = ground arith;
  }
    where
      same_head : ((pushed h n w).runq g).head ≡ (w.runq g).head
      same_head = ground arith

      kept : Chain (pushed h n w).nodes (w.runq g).head ms
      kept =
          Chain-frame w.nodes (pushed h n w).nodes (w.runq g).head ms
            (λ a i.
              pushed-next ns q a (λ e. ground arith)
                (λ busy e.
                  ground
                    (arith, last_mem w.nodes (w.runq h).head ns q.chain busy, apart (last ns))))
            r.chain

  pushed-state : ((pushed h n w).nodes n).state ≡ SchedState.ready
  unfolding pushed runq_push runq_unlock
  pushed-state = ground arith

-- `tpa_sched_run` on a node of an existing hart that is not in the queue of that hart, which is
-- well formed and not locked, returns 1 and puts the node, marked ready, at the end of the queue,
-- which is well formed and not locked again.
pub run-append :
    (cfg : Config) (n : ℕ) (w : World) (ns : List ℕ)
    → n ≢ null
    → (w.nodes n).hartid < cfg.nr_harts
    → IsQueue w (w.nodes n).hartid ns
    → elem n ns ≡ false
    → Returns
        (λ r v.
          (r ≡ 1)
          × IsQueue v (w.nodes n).hartid (ns ++ n ∷ [])
          × ((v.nodes n).state ≡ SchedState.ready))
        (run cfg n w)
run-append cfg n w ns ne lt q out =
    let h = (w.nodes n).hartid in
    rw (run-pushed cfg n w ne lt q.free)
      (refl, pushed-IsQueue w h n ne ns q out, pushed-state w h n ne)

-- `tpa_sched_run` on a node of an existing hart leaves the queue of another hart as it is, if both
-- queues are well formed and that other one holds neither the node nor a node of the queue that
-- grows.
pub run-frame :
    (cfg : Config) (n : ℕ) (w : World) (ns : List ℕ) (g : ℕ) (ms : List ℕ)
    → n ≢ null
    → (w.nodes n).hartid < cfg.nr_harts
    → IsQueue w (w.nodes n).hartid ns
    → g ≢ (w.nodes n).hartid
    → IsQueue w g ms
    → elem n ms ≡ false
    → ((a : ℕ) → elem a ns ≡ true → elem a ms ≡ false)
    → Returns (λ _ v. IsQueue v g ms) (run cfg n w)
run-frame cfg n w ns g ms ne lt q other r out apart =
    rw (run-pushed cfg n w ne lt q.free)
      (pushed-frame w (w.nodes n).hartid n ne g ns ms other q r out apart)

-- `tpa_sched_run` refuses the null pointer and a node whose hart does not exist: it returns 0 and
-- changes nothing.
pub run-refused :
    (cfg : Config) (n : ℕ) (w : World)
    → (n ≡ null) ⊎ (cfg.nr_harts ≤ (w.nodes n).hartid)
    → run cfg n w ≡ ok 0 w
unfolding run
run-refused cfg n w bad = ground arith

module _ (w : World) (h n : ℕ) (ne : n ≢ null) where
  again-Chain :
      (m : ℕ) (ms : List ℕ)
      → IsQueue w h (n ∷ m ∷ ms)
      → Chain (pushed h n w).nodes ((pushed h n w).runq h).head (n ∷ [])
  unfolding pushed runq_push runq_unlock
  again-Chain m ms q = ground (arith, elem-last m ms)

-- The queue of a hart does not survive that its first node is run again while it waits there:
-- what the queue then leads to is that node alone, and the others are lost.
pub run_again-loses :
    (cfg : Config) (n m : ℕ) (w : World) (ms : List ℕ)
    → (w.nodes n).hartid < cfg.nr_harts
    → IsQueue w (w.nodes n).hartid (n ∷ m ∷ ms)
    → Returns
        (λ r v. (r ≡ 1) × Chain v.nodes (v.runq (w.nodes n).hartid).head (n ∷ []))
        (run cfg n w)
run_again-loses cfg n m w ms lt q =
    let h = (w.nodes n).hartid in
    rw (run-pushed cfg n w q.chain.1 lt q.free) (refl, again-Chain w h n q.chain.1 m ms q)
