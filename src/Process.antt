-- ===== src/Process.antt =====
-- tpa/lib/src/process.c: process objects, the table of processes by hart and slot, and mailboxes.
-- The table that each caller passes is `proc_table`, so its null test is not written.
pub mod Table
pub mod Mailbox
use tpa.Base.{ℕ, ◌+◌, ◌%◌, ◌^◌, ◌&&◌, ◌||◌, ◌==◌, leb, if◌then◌else◌, update}
use tpa.State.{
  null, process_no_slot, max_procs_per_hart, ProcessState, Proc, ProcessTable, ProcessBoot,
  ProcessWait, Region, flush, evict, fence_rw, World, emit, set_proc, set_ptr, set_word, Config,
}

clear_mailbox : Proc → Proc
clear_mailbox q = record q { bufp = null; lenp = null; msg_ready = 0; msg_buf = null; msg_len = 0 }

unfoldable pub table_init : World → World
table_init w = emit fence_rw (emit (flush Region.table_obj) (record w { proc_table = empty_table }))
  where
    empty_table : ProcessTable
    empty_table = record { nslot = λ _. 0; slotv = λ _ _. null }

unfoldable pub proc_init : ℕ → ℕ → ℕ → ℕ → World → World
unfolding clear_mailbox
proc_init p hartid ws k w =
    if p == null then w else emit (flush (Region.proc_obj p)) (set_proc p (clear_mailbox fresh) w)
  where
    fresh : Proc
    fresh = record (w.procs p) {
      k = k;
      ws = ws;
      portv = λ _. record { id = 0; ch = null };
      next = null;
      hartid = hartid % 2 ^ 16;
      state = ProcessState.dead;
      slot = process_no_slot;
      nr_portv = 0;
    }

unfoldable pub proc_boot_init : ℕ → ProcessBoot → World → World
unfolding clear_mailbox
proc_boot_init p boot w =
    if p == null then w else emit (flush (Region.proc_obj p)) (set_proc p (clear_mailbox fresh) w)
  where
    fresh : Proc
    fresh = record (w.procs p) {
      k = boot.start;
      ws = boot.ws;
      portv = boot.portv;
      next = null;
      hartid = boot.hartid % 2 ^ 16;
      state = ProcessState.dead;
      slot = boot.slot;
      nr_portv = boot.nr_portv;
    }

-- The slot that `register` gives to a process.
abbrev pub slot_for : World → Proc → ℕ
slot_for w q = if q.slot == process_no_slot then w.proc_table.nslot q.hartid else q.slot

abbrev pub enter_slot : ProcessTable → (hartid slot p : ℕ) → ProcessTable
enter_slot t hartid slot p = record {
  nslot =
      if leb (t.nslot hartid) slot then update t.nslot hartid ((slot + 1) % 2 ^ 16) else t.nslot;
  slotv = update t.slotv hartid (update (t.slotv hartid) slot p);
}

registered : ℕ → ℕ → ℕ → World → World
registered p hartid slot w =
    let w1 = record w { proc_table = enter_slot w.proc_table hartid slot p } in
    let w2 = set_proc p (record (w1.procs p) { slot = slot }) w1 in
    let w3 = emit (flush (Region.slots_of hartid)) w2 in
    let w4 = emit (flush (Region.slot_count_of hartid)) w3 in
    emit fence_rw (emit (flush (Region.proc_obj p)) w4)

-- Returns 1 if the process has a slot now.
unfoldable pub register : Config → ℕ → World → ℕ × World
unfolding registered
register cfg p w =
    let q = w.procs p in
    let slot = slot_for w q in
    if p == null || leb cfg.nr_harts q.hartid || leb max_procs_per_hart slot
    then (0, w)
    else (1, registered p q.hartid slot w)

unfoldable pub lookup : Config → ℕ → ℕ → World → ℕ × World
lookup cfg hartid slot w =
    if leb cfg.nr_harts hartid || leb max_procs_per_hart slot
    then (null, w)
    else (w.proc_table.slotv hartid slot, emit (evict (Region.slots_of hartid)) w)

unfoldable pub wait_send : ℕ → ProcessWait → World → World
unfolding clear_mailbox
wait_send p wait w =
    if p == null
    then w
    else (let q = record (clear_mailbox (w.procs p)) { k = wait.next; state = ProcessState.wait } in
        emit fence_rw (set_proc p q w))

unfoldable pub wait_recv : ℕ → ProcessWait → World → World
wait_recv p wait w =
    if p == null
    then w
    else (let q = record (w.procs p) {
      k = wait.next;
      bufp = wait.bufp;
      lenp = wait.lenp;
      msg_ready = 0;
      msg_buf = null;
      msg_len = 0;
    } in
        let w1 = emit (flush (Region.mailbox_of p)) (set_proc p q w) in
        emit fence_rw (set_proc p (record q { state = ProcessState.wait }) w1))

unfoldable pub publish_msg : ℕ → ℕ → ℕ → World → World
publish_msg p buf len w =
    if p == null
    then w
    else (let q = record (w.procs p) { msg_buf = buf; msg_len = len; msg_ready = 1 } in
        emit fence_rw (emit (flush (Region.mailbox_of p)) (set_proc p q w)))

-- `if (ptr) *ptr = v`, for variables of the two types
abbrev pub store_ptr : ℕ → ℕ → World → World
store_ptr a v w = if a == null then w else set_ptr a v w

abbrev pub store_word : ℕ → ℕ → World → World
store_word a v w = if a == null then w else set_word a v w

-- What a mailbox holds for its process.
abbrev pub mail_buf : Proc → ℕ
mail_buf q = if q.msg_ready == 0 then null else q.msg_buf

abbrev pub mail_len : Proc → ℕ
mail_len q = if q.msg_ready == 0 then 0 else q.msg_len

unfoldable pub complete_wait : ℕ → World → World
unfolding clear_mailbox
complete_wait p w =
    let q = w.procs p in
    if p == null || (q.bufp == null && q.lenp == null)
    then w
    else (let w1 = emit (evict (Region.mailbox_of p)) w in
        let buf = mail_buf q in
        let len = mail_len q in
        let w2 =
          if buf == null || len == 0 then w1 else emit (evict (Region.bytes_at buf len)) w1 in
        let w3 = store_word q.lenp len (store_ptr q.bufp buf w2) in
        emit (flush (Region.mailbox_of p)) (set_proc p (clear_mailbox q) w3))

unfoldable pub mark_failed : ℕ → World → World
mark_failed p w =
    if p == null
    then w
    else (let q = record (w.procs p) { state = ProcessState.failed } in
        emit fence_rw (emit (flush (Region.proc_obj p)) (set_proc p q w)))
