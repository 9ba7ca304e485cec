-- ===== src/Ipc/Syscall/Tests.antt =====
-- The calls on messages of kernel/src/ipc/syscall.rs between two tasks, and the theorems there.
use tanix.Ipc.Syscall.{
  Answer, Call, task_idx, position, accepts, sys_send, sys_receive, stays, syscall_tail,
  take_pending, is_hit, find_staged,
}
use tanix.Ipc.Syscall.Handover.{Passes, sys_receive-sys_send}
use tanix.Ipc.Syscall.Kept.{Adds, Takes, sys_send-Adds, sys_receive-Takes}
use tanix.Ipc.Syscall.Rendezvous.{Meets, sys_send-sys_receive}
use tanix.Ipc.Syscall.Stale.{RunsWaiting, blocked_receive, syscall_tail-RunsWaiting}
use tanix.Sched.{idle_slot, Task, Message, Scheduler, idle_task, new_task, m_any}
use tanix.Sched.Table.{task_at}
use tanix.Prelude.{
  ℕ, zero, suc, ◌*◌, sym, ap, ◌∙◌, ◌≡◌, ◌≢◌, refl, false, true, none, some, [], ◌∷◌, arith,
}

abbrev plain : ℕ → Task
plain id = record (new_task 0x1000 id [] 0x2000 0x3000) { ttbr0 = 4096 * id }

abbrev request : Message
request = record { src = 0; mtype = 5; words = 1 ∷ 2 ∷ 3 ∷ [] }

-- The entries of the second task are taken by messages of a third.
abbrev crowded : Task
crowded = record (plain 2) {
  pending_senders =
      some (record { src = 3; msg = request }) ∷ some (record { src = 3; msg = request }) ∷ [];
}

abbrev with_second : Task → Scheduler
with_second t = record {
  tasks = some idle_task ∷ some (plain 1) ∷ some t ∷ [];
  next_id = 4;
  woken = none;
}

alone_in :
    (t : Task)
    → t.send_full_wait ≡ none
    → (x : ℕ) (t' : Task) → x ≢ 1
    → task_at x (with_second t) ≡ some t'
    → is_hit 2 1 t'.send_full_wait ≡ false
alone_in t free zero t' ne e =
    let same : idle_task ≡ t' = cc e in ap (λ (x : Task). is_hit 2 1 x.send_full_wait) (sym same)
alone_in t free (suc zero) t' ne e = absurd (ne refl)
alone_in t free (suc (suc zero)) t' ne e =
    let same : t ≡ t' = cc e in
    ap (λ (x : Task). is_hit 2 1 x.send_full_wait) (sym same) ∙ ap (is_hit 2 1) free
alone_in t free (suc (suc (suc x))) t' ne e = cc e

-- The message is staged with the sender, and passes the two parked ones.
sys_receive-sys_send_example :
    Passes 0 1 2 1 0x5000 request (plain 1) crowded (sys_send 0 1 2 request (with_second crowded))
unfolding task_idx position accepts take_pending
sys_receive-sys_send_example =
    sys_receive-sys_send (with_second crowded) 0 0 1 2 0 1 0x5000 request (plain 1) crowded
      (omega arith) refl refl refl refl refl refl refl refl refl (alone_in crowded refl)

sys_send-sys_receive_example :
    (c : Call) × (sys_receive 0 2 m_any 0x5000 (with_second (plain 2)) ≡ some c)
    × (c.answer ≡ Answer.source_at 0x5000)
    × (c.written ≡ none)
    × (c.switched ≡ true)
    × ((c' : Call) × (sys_send 0 1 2 request c.sched ≡ some c')
        × Meets c.sched 2 1 8192 0x5000 request c')
unfolding task_idx position accepts take_pending find_staged
sys_send-sys_receive_example =
    sys_send-sys_receive (with_second (plain 2)) 0 0 1 2 m_any 0x5000 request (plain 1) (plain 2)
      (omega arith) refl refl refl refl refl refl refl

sys_send-Adds_example : Adds (with_second crowded) (sys_send 0 1 2 request (with_second crowded))
sys_send-Adds_example = sys_send-Adds (with_second crowded) 0 1 2 request (plain 1) refl refl

sys_receive-Takes_example :
    Takes (with_second crowded) (sys_receive 0 2 3 0x5000 (with_second crowded))
sys_receive-Takes_example = sys_receive-Takes (with_second crowded) 0 2 3 0x5000 crowded refl

-- The second task is of a better priority and was spawned before the tasks ran.
abbrev urgent : Task
urgent = record (plain 2) { priority = 64 }

abbrev spawned : Scheduler
spawned = record (with_second urgent) { woken = some 2 }

-- A send to a task that does not exist, after the receive.
abbrev refused : Call
refused = stays 1 (Answer.returns 7) (blocked_receive 0 2 m_any 0x5000 spawned).sched

syscall_tail-RunsWaiting_example :
    (sys_receive 0 2 m_any 0x5000 spawned ≡ some (blocked_receive 0 2 m_any 0x5000 spawned))
    × ((blocked_receive 0 2 m_any 0x5000 spawned).written ≡ none)
    × RunsWaiting 2 (syscall_tail 0 refused)
unfolding take_pending find_staged idle_slot
syscall_tail-RunsWaiting_example =
    syscall_tail-RunsWaiting spawned 0 0 2 m_any 0x5000 refused (plain 1) urgent (omega arith) refl
      refl refl refl refl (omega arith) (omega arith) refl refl refl refl
