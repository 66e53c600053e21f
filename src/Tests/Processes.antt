-- ===== src/Tests/Processes.antt =====
-- Tests of the table of processes and of mailboxes.
use tpa.Base.{◌≡◌, refl, ◌&&◌, arith, ◌==◌, if◌then◌else◌}
use tpa.State.{ProcessState}
use tpa.Tests.{machine, blank, for_message}
use tpa.Process.{slot_for, register, lookup, wait_recv, publish_msg, complete_wait}
use tpa.Process.Table.{IsTable, IsRegistrable, lookup-register}
use tpa.Process.Mailbox.{IsClear, complete-publish}

blank-IsRegistrable : IsRegistrable machine 1 blank
blank-IsRegistrable = record { ne_null = omega arith; hart = omega arith; slot = omega arith }

blank-IsTable : IsTable blank
blank-IsTable = record { room = λ h. omega arith; unused = λ h s le. refl }

lookup-register_example :
    let q = blank.procs 1 in
    let v = (register machine 1 blank).1 in
    ((register machine 1 blank).0 ≡ 1)
    × ((v.procs 1).slot ≡ slot_for blank q)
    × ((lookup machine 0 0 v).0
        ≡ (if 0 == q.hartid && 0 == slot_for blank q then 1 else (lookup machine 0 0 blank).0))
lookup-register_example = lookup-register machine 1 0 0 blank blank-IsRegistrable

complete-publish_example :
    let v = complete_wait 1 (publish_msg 1 16 8 (wait_recv 1 for_message blank)) in
    (v.mem.ptrs for_message.bufp ≡ 16)
    × (v.mem.words for_message.lenp ≡ 8)
    × IsClear (v.procs 1)
    × ((v.procs 1).state ≡ ProcessState.wait)
    × ((v.procs 1).k ≡ for_message.next)
complete-publish_example =
    complete-publish 1 16 8 for_message blank (omega arith) (omega arith) (omega arith)
