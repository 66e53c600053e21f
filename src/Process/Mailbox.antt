-- ===== src/Process/Mailbox.antt =====
-- Mailboxes: what a waiting process gets from the one that sends to it.
use tpa.Base.{ℕ, ◌≡◌, ◌≢◌, arith}
use tpa.State.{null, ProcessState, Proc, ProcessWait, World}
use tpa.Process.{wait_send, wait_recv, publish_msg, complete_wait}

-- The mailbox of a process that waits for nothing, and to which nothing is published.
pub record IsClear (q : Proc) : Type 0 where
  pub bufp : q.bufp ≡ null
  pub lenp : q.lenp ≡ null
  pub msg_ready : q.msg_ready ≡ 0
  pub msg_buf : q.msg_buf ≡ null
  pub msg_len : q.msg_len ≡ 0

-- A process that waits to receive, and to which a message is published, finds the address and the
-- length of that message in its two variables once its wait is completed. Its mailbox is then
-- clear, its state is still that of a waiting process, and it goes on at the continuation that it
-- named. (The two variables are the pointer at `bufp` and the word at `lenp`.)
pub complete-publish :
    (p buf len : ℕ) (wait : ProcessWait) (w : World)
    → p ≢ null
    → wait.bufp ≢ null
    → wait.lenp ≢ null
    → let v = complete_wait p (publish_msg p buf len (wait_recv p wait w)) in
      (v.mem.ptrs wait.bufp ≡ buf)
      × (v.mem.words wait.lenp ≡ len)
      × IsClear (v.procs p)
      × ((v.procs p).state ≡ ProcessState.wait)
      × ((v.procs p).k ≡ wait.next)
unfolding wait_recv publish_msg complete_wait
complete-publish p buf len wait w ne nb nl = ground arith

-- A process that is woken while it waits to receive, with no message published, finds the null
-- pointer and length 0.
pub complete-wait_recv :
    (p : ℕ) (wait : ProcessWait) (w : World)
    → p ≢ null
    → wait.bufp ≢ null
    → wait.lenp ≢ null
    → let v = complete_wait p (wait_recv p wait w) in
      (v.mem.ptrs wait.bufp ≡ null) × (v.mem.words wait.lenp ≡ 0) × IsClear (v.procs p)
unfolding wait_recv complete_wait
complete-wait_recv p wait w ne nb nl = ground arith

-- After `tpa_process_wait_send` the mailbox is clear, so completing the wait changes nothing.
pub complete-wait_send :
    (p : ℕ) (wait : ProcessWait) (w : World)
    → p ≢ null
    → (complete_wait p (wait_send p wait w) ≡ wait_send p wait w)
      × ((wait_send p wait w).procs p).state ≡ ProcessState.wait
unfolding wait_send complete_wait
complete-wait_send p wait w ne = ground arith
