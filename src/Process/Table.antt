-- ===== src/Process/Table.antt =====
-- The table of processes: what `register` enters and what `lookup` finds.
use tpa.Base.{ℕ, ◌≤◌, ◌<◌, ◌≡◌, ◌≢◌, ◌⊎◌, refl, ◌&&◌, arith, ◌==◌, if◌then◌else◌}
use tpa.State.{null, process_no_slot, max_procs_per_hart, World, Config}
use tpa.Process.{slot_for, register, lookup, table_init}

-- A process that `tpa_process_register` accepts.
pub record IsRegistrable (cfg : Config) (p : ℕ) (w : World) : Type 0 where
  pub ne_null : p ≢ null
  pub hart : (w.procs p).hartid < cfg.nr_harts
  pub slot : slot_for w (w.procs p) < max_procs_per_hart

-- After `tpa_process_register` succeeds, `tpa_process_lookup` finds the process at its hart and
-- slot, and finds at every other hart and slot what it found there before. The process has been
-- given that slot.
pub lookup-register :
    (cfg : Config) (p h s : ℕ) (w : World)
    → IsRegistrable cfg p w
    → let q = w.procs p in
      let v = (register cfg p w).1 in
      ((register cfg p w).0 ≡ 1)
      × ((v.procs p).slot ≡ slot_for w q)
      × ((lookup cfg h s v).0
          ≡ (if h == q.hartid && s == slot_for w q then p else (lookup cfg h s w).0))
unfolding register lookup
lookup-register cfg p h s w r = ground arith

-- `tpa_process_register` refuses the null pointer, a hart that does not exist and a slot that does
-- not exist: it returns 0 and changes nothing.
pub register-refused :
    (cfg : Config) (p : ℕ) (w : World)
    → (p ≡ null)
      ⊎ (cfg.nr_harts ≤ (w.procs p).hartid)
      ⊎ (max_procs_per_hart ≤ slot_for w (w.procs p))
    → register cfg p w ≡ (0, w)
unfolding register
register-refused cfg p w bad = ground arith

-- Every slot from the count on is empty, and the count is in range.
pub record IsTable (w : World) : Type 0 where
  pub room : (h : ℕ) → w.proc_table.nslot h ≤ max_procs_per_hart
  pub unused : (h s : ℕ) → w.proc_table.nslot h ≤ s → w.proc_table.slotv h s ≡ null

-- The table is well formed after `tpa_process_table_init`.
pub table_init-IsTable : (w : World) → IsTable (table_init w)
unfolding table_init
table_init-IsTable w = record { room = λ h. ground arith; unused = λ h s le. refl }

-- `tpa_process_register` keeps the table well formed, whether it succeeds or not.
pub register-IsTable : (cfg : Config) (p : ℕ) (w : World) → IsTable w → IsTable (register cfg p w).1
unfolding register
register-IsTable cfg p w t = record {
  room = λ h. ground (arith, t.room h);
  unused = λ h s le. ground (arith, t.unused h s, t.room h);
}

-- In a well-formed table a process that asks for no slot gets one that nobody had.
pub register-fresh :
    (cfg : Config) (p : ℕ) (w : World)
    → IsTable w
    → IsRegistrable cfg p w
    → (w.procs p).slot ≡ process_no_slot
    → (lookup cfg (w.procs p).hartid ((register cfg p w).1.procs p).slot w).0 ≡ null
unfolding register lookup
register-fresh cfg p w t r e = ground (arith, t.unused (w.procs p).hartid (slot_for w (w.procs p)))
