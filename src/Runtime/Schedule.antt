-- ===== src/Runtime/Schedule.antt =====
-- `tpa_schedule_local` puts a process into the queue of its hart, to run on from a continuation.
use tpa.Base.{
  ℕ, ◌<◌, ◌≡◌, ◌≢◌, refl, sym, false, List, [], ◌∷◌, ◌++◌, arith, ◌==◌, elem, inl, inr, Bool-cases,
  ◌||◌, leb,
}
use tpa.State.{null, max_procs_per_hart, ProcessState, Region, flush, set_proc, emit, World, Config}
use tpa.State.Returns
use tpa.State.Returns.{Returns, LocksFree}
use tpa.Sched
use tpa.Sched.Queue.{Chain, IsQueue}
use tpa.Sched.Push.{run-append, runq_lock-free, run_again-loses}
use tpa.Runtime.{node_at, node_for, schedule_local}

-- `run` touches no process.
pub run-procs :
    (cfg : Config) (n : ℕ) (w : World)
    → (w.runq (w.nodes n).hartid).lock ≡ 0
    → Returns (λ _ v. v.procs ≡ w.procs) (Sched.run cfg n w)
unfolding Sched.run Sched.runq_push Sched.runq_unlock
run-procs cfg n w free =
    let h = (w.nodes n).hartid in
    elim (Bool-cases (n == null || leb cfg.nr_harts h)) [
      | inl bad ↦ rw bad refl
      | inr good ↦ rw (good, runq_lock-free cfg.retries h w free) (ground arith)
    ]

at_hart : {v : World} {g h : ℕ} {ns : List ℕ} → g ≡ h → IsQueue v g ns → IsQueue v h ns
at_hart e q = rw (sym e) q

first_at :
    (v : World) (ns : List ℕ) {g h : ℕ}
    → g ≡ h
    → Chain v.nodes (v.runq g).head ns
    → Chain v.nodes (v.runq h).head ns
first_at v ns e c = rw (sym e) c

-- The process is on a hart that exists, in a slot that exists, and the node of the slot is set up.
pub record IsPlaced (cfg : Config) (w : World) (p h slot : ℕ) : Type 0 where
  pub some_proc : p ≢ null
  pub hartid : (w.procs p).hartid ≡ h
  pub slot_of : (w.procs p).slot ≡ slot
  pub hart_exists : h < cfg.nr_harts
  pub slot_exists : slot < max_procs_per_hart
  pub node_hart : (w.nodes (node_at h slot)).hartid ≡ h

module _ (cfg : Config) (p next h slot : ℕ) (w : World) (placed : IsPlaced cfg w p h slot) where
  -- The state in which `tpa_sched_run` is called.
  abbrev marked : World
  marked =
      emit (flush (Region.proc_obj p))
        (set_proc p (record (w.procs p) { k = next; state = ProcessState.ready }) w)

  node_for-placed : node_for cfg w p ≡ node_at h slot
  node_for-placed = ground (
    arith, placed.some_proc, placed.hartid, placed.slot_of, placed.hart_exists, placed.slot_exists,
  )

  pub schedule_local-run :
      (P : World → Type 0)
      → Returns (λ _ v. P v) (Sched.run cfg (node_at h slot) marked)
      → Returns (λ _ v. P v) (schedule_local cfg p next w)
  unfolding schedule_local
  schedule_local-run P ran =
      let some_node : (node_at h slot == null) ≡ false = ground arith in
      rw (node_for-placed, some_node) (Returns.bind (λ _ v. P v) _ _ _ ran (λ _ v held. held))

  -- The process is at the end of the queue of its hart, ready to run on from `next`.
  abbrev pub Queued : List ℕ → World → Type 0
  Queued ns v =
      IsQueue v h (ns ++ node_at h slot ∷ [])
      × ((v.procs p).k ≡ next)
      × ((v.procs p).state ≡ ProcessState.ready)

  -- `tpa_schedule_local` puts a process at the end of the queue of its hart, unless it waits there
  -- already, and makes it ready to run on from the continuation that is given.
  pub schedule_local-append :
      (ns : List ℕ)
      → IsQueue w h ns
      → elem (node_at h slot) ns ≡ false
      → Returns (λ _ v. Queued ns v) (schedule_local cfg p next w)
  schedule_local-append ns q out =
      schedule_local-run (λ v. Queued ns v)
        (Returns.mono _ (λ _ v. Queued ns v) _
          (Returns.both _ _ _
            (run-append cfg (node_at h slot) marked ns (λ e. ground arith)
              (rw (placed.node_hart) (placed.hart_exists))
              (at_hart (sym placed.node_hart)
                (record { chain = q.chain; tail = q.tail; distinct = q.distinct; free = q.free }))
              out)
            (run-procs cfg (node_at h slot) marked (rw (placed.node_hart) (q.free))))
          (λ _ v got.
            (at_hart placed.node_hart got.0.1, ground (arith, got.1), ground (arith, got.1))))

  -- A process whose node is the first of its hart's queue is put there again by
  -- `tpa_schedule_local`, and then the queue leads to that node alone: the others are lost.
  pub schedule_local_again-loses :
      (m : ℕ) (ms : List ℕ)
      → IsQueue w h (node_at h slot ∷ m ∷ ms)
      → Returns
          (λ _ v. Chain v.nodes (v.runq h).head (node_at h slot ∷ []))
          (schedule_local cfg p next w)
  schedule_local_again-loses m ms q =
      schedule_local-run (λ v. Chain v.nodes (v.runq h).head (node_at h slot ∷ []))
        (Returns.mono _ (λ _ v. Chain v.nodes (v.runq h).head (node_at h slot ∷ [])) _
          (run_again-loses cfg (node_at h slot) m marked ms
            (rw (placed.node_hart) (placed.hart_exists))
            (at_hart (sym placed.node_hart)
              (record { chain = q.chain; tail = q.tail; distinct = q.distinct; free = q.free })))
          (λ _ v got. first_at v (node_at h slot ∷ []) placed.node_hart got.1))
