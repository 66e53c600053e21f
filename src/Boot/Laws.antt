-- ===== src/Boot/Laws.antt =====
-- What `tpa_init` and `tpa_boot_hart` leave.
use tpa.Base.{
  ℕ, ◌%◌, ◌^◌, ◌≤◌, ◌<◌, ◌≡◌, ◌≢◌, refl, ap, false, List, [], ◌∷◌, ◌++◌, length, arith, elem,
}
use tpa.State.{null, max_procs_per_hart, ProcessState, SchedNode, World, ok, Config}
use tpa.State.Returns.{Returns}
use tpa.Process
use tpa.Sched
use tpa.Sched.Queue.{IsQueue, Chain-frame}
use tpa.Runtime.{node_at, schedule_local, has_failed}
use tpa.Runtime.Schedule.{IsPlaced, schedule_local-append}
use tpa.Boot.{BootEnt, Image, init_poll, init, boot_of, boot_node, boot_ent}

module _ (cfg : Config) (image : Image) (w : World) where
  -- The first call of `tpa_init` sets everything up: the count of live processes is that of the
  -- image, nothing has failed, the table of processes has no process for any hart, and the queue
  -- of every hart is empty and not locked.
  pub init-first :
      (h slot : ℕ)
      → w.init_state ≡ 0
      → h < cfg.nr_harts
      → Returns
          (λ _ v.
            (v.init_state ≡ 2)
            × (v.live_procs ≡ length image)
            × (has_failed v ≡ false)
            × (v.proc_table.slotv h slot ≡ null)
            × (v.proc_table.nslot h ≡ 0)
            × IsQueue v h [])
          (init cfg image w)
  unfolding init Process.table_init Sched.init has_failed
  init-first h slot fresh hart = rw fresh (
    refl,
    refl,
    ground arith,
    refl,
    refl,
    record { chain = ground arith; tail = ground arith; distinct = tt; free = ground arith },
  )

  -- Every later call returns and changes nothing.
  pub init-again : w.init_state ≡ 2 → init cfg image w ≡ ok tt w
  unfolding init init_poll
  init-again finished = rw finished refl

module _ (cfg : Config) (me : ℕ) (ent : BootEnt) (w : World) where
  -- The state after the process and the node of an entry are set up.
  abbrev placed_ent : World
  placed_ent =
      boot_node ent
        (Process.register cfg ent.proc (Process.proc_boot_init ent.proc (boot_of ent) w)).1

  module _ (some_proc : ent.proc ≢ null) (slot : ent.slot < max_procs_per_hart)
      (hart : ent.hartid < cfg.nr_harts) (fits : cfg.nr_harts ≤ 2 ^ 16) where
    low_hartid : ent.hartid % 2 ^ 16 ≡ ent.hartid
    low_hartid = omega arith

    boot_ent-schedule_local :
        boot_ent cfg me ent w ≡ schedule_local cfg ent.proc ent.start placed_ent
    unfolding boot_ent Process.register Process.proc_boot_init
    boot_ent-schedule_local = ground (arith, low_hartid)

    placed_ent-IsPlaced : IsPlaced cfg placed_ent ent.proc ent.hartid ent.slot
    unfolding Process.register Process.proc_boot_init Sched.node_init
    placed_ent-IsPlaced = record {
      some_proc = some_proc;
      hartid = ground (arith, low_hartid);
      slot_of = ground (arith, low_hartid);
      hart_exists = hart;
      slot_exists = slot;
      node_hart = ground (arith, low_hartid);
    }

    placed_ent-nodes : (a : ℕ) → a ≢ node_at ent.hartid ent.slot → placed_ent.nodes a ≡ w.nodes a
    unfolding Process.register Process.proc_boot_init Sched.node_init
    placed_ent-nodes a other = ground arith

    placed_ent-runq : placed_ent.runq ≡ w.runq
    unfolding Process.register Process.proc_boot_init Sched.node_init
    placed_ent-runq = ground arith

    placed_ent-IsQueue :
        (ns : List ℕ)
        → IsQueue w ent.hartid ns
        → elem (node_at ent.hartid ent.slot) ns ≡ false
        → IsQueue placed_ent ent.hartid ns
    placed_ent-IsQueue ns q out = record {
      chain = rw placed_ent-runq (
          Chain-frame w.nodes placed_ent.nodes (w.runq ent.hartid).head ns
            (λ a i. ap (λ (n : SchedNode). n.next) (placed_ent-nodes a (λ e. ground arith)))
            q.chain);
      tail = rw placed_ent-runq (q.tail);
      distinct = q.distinct;
      free = rw placed_ent-runq (q.free);
    }

    -- An entry of the boot vector for a hart and a slot that exist, of at most 65536 harts, puts
    -- its process at the end of the queue of the hart, ready to run from its start. The queue is
    -- well formed and does not hold the node of the slot.
    pub boot_ent-queues :
        (ns : List ℕ)
        → IsQueue w ent.hartid ns
        → elem (node_at ent.hartid ent.slot) ns ≡ false
        → Returns
            (λ _ v.
              IsQueue v ent.hartid (ns ++ node_at ent.hartid ent.slot ∷ [])
              × ((v.procs ent.proc).k ≡ ent.start)
              × ((v.procs ent.proc).state ≡ ProcessState.ready))
            (boot_ent cfg me ent w)
    boot_ent-queues ns q out = rw boot_ent-schedule_local (
        schedule_local-append cfg ent.proc ent.start ent.hartid ent.slot placed_ent
          placed_ent-IsPlaced ns (placed_ent-IsQueue ns q out) out)
