-- ===== src/Step/Laws.antt =====
-- What a step of the scheduler does to the process that it runs, and what a ready bit does.
use tpa.Base.{
  ℕ, ◌+◌, ◌-◌, ◌%◌, ◌^◌, ◌<◌, ◌≡◌, ap, ◌∙◌, true, false, List, [], ◌∷◌, ◌++◌, arith, ◌==◌, elem,
  if◌then◌else◌,
}
use tpa.State.{SchedNode, ProcessState, Region, evict, wake_all_harts, emit, World, Config}
use tpa.State.Returns
use tpa.State.Returns.{Returns, LocksFree}
use tpa.Process
use tpa.Sched.Queue.{Chain, IsQueue}
use tpa.Runtime.{node_at, schedule_local, done}
use tpa.Runtime.Schedule.{IsPlaced, Queued, schedule_local-append, schedule_local_again-loses}
use tpa.Step.{reload_slot, stop, is_live}

less_one : (n : ℕ) → 0 < n → n < 2 ^ 32 → (n + 0xffff_ffff) % 2 ^ 32 ≡ n - 1
less_one n pos fits = omega arith

-- A process that stops is dead, and one process fewer is live. The stop of the last one makes
-- `tpa_done` true and wakes all harts; no other stop does either.
pub stop-live_procs :
    (p : ℕ) (w : World)
    → 0 < w.live_procs
    → w.live_procs < 2 ^ 32
    → (((stop p w).procs p).state ≡ ProcessState.dead)
      × ((stop p w).live_procs ≡ w.live_procs - 1)
      × (done (stop p w) ≡ (w.live_procs == 1))
      × ((stop p w).log ≡ (if w.live_procs == 1 then wake_all_harts ∷ w.log else w.log))
unfolding stop done
stop-live_procs p w some_live fits =
    let e = less_one w.live_procs some_live fits in
    (ground arith, ground (arith, e), ground (arith, e), ground arith)

module _ (cfg : Config) (h slot p : ℕ) (w : World) where
  -- The state after the mailbox is emptied.
  abbrev emptied : World
  emptied = Process.complete_wait p (emit (evict (Region.slots_of h)) w)

  emptied-rest :
      (emptied.nodes ≡ w.nodes)
      × (emptied.runq ≡ w.runq)
      × ((emptied.procs p).k ≡ (w.procs p).k)
      × ((emptied.procs p).hartid ≡ (w.procs p).hartid)
      × ((emptied.procs p).slot ≡ (w.procs p).slot)
  unfolding Process.complete_wait
  emptied-rest = (ground arith, ground arith, ground arith, ground arith, ground arith)

  emptied-IsPlaced : IsPlaced cfg w p h slot → IsPlaced cfg emptied p h slot
  emptied-IsPlaced placed = record {
    some_proc = placed.some_proc;
    hartid = emptied-rest.3 ∙ placed.hartid;
    slot_of = emptied-rest.4 ∙ placed.slot_of;
    hart_exists = placed.hart_exists;
    slot_exists = placed.slot_exists;
    node_hart =
        ap (λ (f : ℕ → SchedNode). (f (node_at h slot)).hartid) emptied-rest.0 ∙ placed.node_hart;
  }

  emptied-IsQueue : (ns : List ℕ) → IsQueue w h ns → IsQueue emptied h ns
  emptied-IsQueue ns q = record {
    chain = rw (emptied-rest.0, emptied-rest.1) (q.chain);
    tail = rw (emptied-rest.1) (q.tail);
    distinct = q.distinct;
    free = rw (emptied-rest.1) (q.free);
  }

  reload_slot-live :
      w.proc_table.slotv h slot ≡ p
      → IsPlaced cfg w p h slot
      → is_live (w.procs p).state ≡ true
      → reload_slot cfg h slot w ≡ schedule_local cfg p (emptied.procs p).k emptied
  unfolding reload_slot Process.lookup
  reload_slot-live here placed live =
      ground (arith, placed.some_proc, placed.hart_exists, placed.slot_exists)

  -- A slot whose ready bit is taken, where a process waits whose node is not in the queue of its
  -- hart: the process is put at the end of that queue, ready to run on from where it waited. The
  -- process is placed on an existing hart and slot, and the queue is well formed.
  pub reload_slot-wait :
      (ns : List ℕ)
      → w.proc_table.slotv h slot ≡ p
      → IsPlaced cfg w p h slot
      → (w.procs p).state ≡ ProcessState.wait
      → IsQueue w h ns
      → elem (node_at h slot) ns ≡ false
      → Returns
          (λ _ v.
            IsQueue v h (ns ++ node_at h slot ∷ [])
            × ((v.procs p).k ≡ (w.procs p).k)
            × ((v.procs p).state ≡ ProcessState.ready))
          (reload_slot cfg h slot w)
  reload_slot-wait ns here placed waits q out =
      rw (reload_slot-live here placed (ap is_live waits)) (
        Returns.mono
          (λ _ v. Queued cfg p (emptied.procs p).k h slot emptied (emptied-IsPlaced placed) ns v)
          (λ _ v.
            IsQueue v h (ns ++ node_at h slot ∷ [])
            × ((v.procs p).k ≡ (w.procs p).k)
            × ((v.procs p).state ≡ ProcessState.ready))
          _
          (schedule_local-append cfg p (emptied.procs p).k h slot emptied (emptied-IsPlaced placed)
            ns (emptied-IsQueue ns q) out)
          (λ _ v got. (got.0, got.1 ∙ emptied-rest.2, got.2)))

  -- A process that is ready already, first in its hart's queue, and whose ready bit is set and taken
  -- once more (as `tpa_wake` sets it), is put into that queue again: the queue leads to that process
  -- alone then, and the other processes of the hart that were ready are lost.
  pub reload_slot_ready-loses :
      (m : ℕ) (ms : List ℕ)
      → w.proc_table.slotv h slot ≡ p
      → IsPlaced cfg w p h slot
      → (w.procs p).state ≡ ProcessState.ready
      → IsQueue w h (node_at h slot ∷ m ∷ ms)
      → Returns
          (λ _ v. Chain v.nodes (v.runq h).head (node_at h slot ∷ []))
          (reload_slot cfg h slot w)
  reload_slot_ready-loses m ms here placed ready q =
      rw (reload_slot-live here placed (ap is_live ready)) (
        schedule_local_again-loses cfg p (emptied.procs p).k h slot emptied
          (emptied-IsPlaced placed) m ms (emptied-IsQueue _ q))
