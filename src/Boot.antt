-- ===== src/Boot.antt =====
-- tpa/lib/src/tpa_runtime.c: `tpa_init` and `tpa_boot_hart`. An image is the boot vector that the
-- build generates.
pub mod Laws
use tpa.Base.{
  ℕ, zero, suc, ◌||◌, Option, none, some, List, [], ◌∷◌, ◌==◌, leb, if◌then◌else◌, update, length,
}
use tpa.State.{
  null, max_procs_per_hart, PortRef, ProcessBoot, fence_rw, wake_all_harts, wait_for_wake, World,
  spinning, Cmd, ok, pure, ◌>>◌, Unit0, emit, set_node, Config,
}
use tpa.Hal.{atomic_or_u32, atomic_exchange_u32, atomic_compare_exchange_u32}
use tpa.Process
use tpa.Sched
use tpa.Runtime.{fail, node_at, schedule_local}

-- `struct tpa_boot_ent`
pub record BootEnt : Type 0 where
  pub hartid : ℕ
  pub slot : ℕ
  pub nr_portv : ℕ
  pub start : ℕ
  pub ws : ℕ
  pub portv : ℕ → PortRef
  pub proc : ℕ

-- `__tpa_boot_vector`, of `__tpa_boot_count` entries
abbrev pub Image : Type 0
Image = List (Option BootEnt)

-- The loop in which the other harts wait for the one that initialises.
unfoldable pub init_poll : ℕ → Cmd Unit0
init_poll zero w = spinning w
init_poll (suc n) w =
    let again = init_poll n in
    if (atomic_or_u32 w.init_state 0).0 == 2 then ok tt w else again (emit wait_for_wake w)

unfoldable pub init : Config → Image → Cmd Unit0
init cfg image w =
    let (old, new) = atomic_compare_exchange_u32 w.init_state 0 1 in
    let w1 = record w { init_state = new } in
    let w2 = Sched.init cfg (Process.table_init w1) in
    let w3 = emit fence_rw (record w2 { live_procs = length image; failed = 0 }) in
    let w4 = record w3 { init_state = (atomic_exchange_u32 w3.init_state 2).1 } in
    if old == 0 then ok tt (emit wake_all_harts w4) else init_poll (suc cfg.retries) w1

abbrev pub boot_of : BootEnt → ProcessBoot
boot_of ent = record {
  hartid = ent.hartid;
  slot = ent.slot;
  nr_portv = ent.nr_portv;
  proc = ent.proc;
  start = ent.start;
  ws = ent.ws;
  portv = ent.portv;
}

-- `tpa_sched_node_init`, `node->node.slot = ent->slot` and `node->proc = ent->proc`
abbrev pub boot_node : BootEnt → World → World
boot_node ent w =
    let node = node_at ent.hartid ent.slot in
    let w1 = Sched.node_init node ent.hartid w in
    let w2 = set_node node (record (w1.nodes node) { slot = ent.slot }) w1 in
    record w2 { node_proc = update w2.node_proc node ent.proc }

-- One round of the loop of `boot_hart`, at an entry for this hart.
unfoldable pub boot_ent : Config → ℕ → BootEnt → Cmd Unit0
boot_ent cfg me ent w =
    if ent.proc == null || leb max_procs_per_hart ent.slot
    then ok tt (fail cfg me w)
    else (let w1 = Process.proc_boot_init ent.proc (boot_of ent) w in
        let (done, w2) = Process.register cfg ent.proc w1 in
        if done == 0
        then ok tt (fail cfg me w2)
        else schedule_local cfg ent.proc ent.start (boot_node ent w2))

unfoldable pub boot_ents : Config → ℕ → ℕ → Image → Cmd Unit0
boot_ents cfg me hartid [] = pure tt
boot_ents cfg me hartid (none ∷ rest) = boot_ents cfg me hartid rest
boot_ents cfg me hartid (some ent ∷ rest) =
    (if ent.hartid == hartid then boot_ent cfg me ent else pure tt) >> boot_ents cfg me hartid rest

unfoldable pub boot_hart : Config → ℕ → Image → ℕ → Cmd Unit0
boot_hart cfg me image hartid w =
    if leb cfg.nr_harts hartid
    then ok tt w
    else boot_ents cfg me hartid image
        (record w { current_proc = update w.current_proc hartid null })
