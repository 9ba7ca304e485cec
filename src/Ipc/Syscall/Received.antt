-- ===== src/Ipc/Syscall/Received.antt =====
-- What `sys_receive` of kernel/src/ipc/syscall.rs does with a message that is parked or staged.
use mathlib.Core.Option
use tanix.Ipc.Syscall.{
  Answer, Call, task_idx, change_at, set_woken, stamped, with_pending, take_pending, find_staged,
  behind_first, released, unstaged, receive_parked, sys_receive,
}
use tanix.Ipc.Syscall.Slots.{task_at-change_at, task_at-change_at_ne, task_idx-change_at}
use tanix.Sched.{TaskState, Task, Message, PendingSend, StagedSend, Scheduler}
use tanix.Sched.Switch.{is_dead}
use tanix.Sched.Table.{task_at}
use tanix.Prelude.{ℕ, ◌≡◌, ◌≢◌, refl, sym, ap, ◌∙◌, true, false, Option, none, some, List}

-- The call of the receiver, in slot `j`, after which it has the message of the sender in slot `i`: it
-- returns the sender's id, the message is in its buffer with that id as source, the sender is ready and
-- counts as woken, the receiver's entries are `slots`, and the other slots are as in `s`.
pub record HandedOver (s : Scheduler) (i j src ttbr0 out : ℕ) (msg : Message)
    (slots : List (Option PendingSend)) (c : Call) : Type 0 where
  pub answer : c.answer ≡ Answer.returns src
  pub written : c.written ≡ some (record { ttbr0 = ttbr0; buf = out; msg = stamped src msg })
  pub stays : c.switched ≡ false
  pub sender :
      (t : Task) × (task_at i c.sched ≡ some t)
      × (t.state ≡ TaskState.ready)
      × (t.send_full_wait ≡ none)
  pub queue : (t : Task) × (task_at j c.sched ≡ some t) × (t.pending_senders ≡ slots)
  pub woken : c.sched.woken ≡ some i
  pub rest : (x : ℕ) → x ≢ i → x ≢ j → task_at x c.sched ≡ task_at x s

pub some_task :
    (s : Scheduler) (f : Task → Task) (x : ℕ) (t : Task)
    → task_at x s ≡ some t
    → task_at x (change_at x f s) ≡ some (f t)
some_task s f x t at = task_at-change_at x f s ∙ ap (Option.map f) at

-- A receive from the table `s` by the task `b` in slot `j`, from the task `a` in slot `i`.
module _ (s : Scheduler) (cpu i j filter out : ℕ) (a b : Task) (ne : i ≢ j)
    (at_i : task_at i s ≡ some a) (at_j : task_at j s ≡ some b)
    (alive : is_dead a.state ≡ false) where
  pub receives_parked :
      (p : PendingSend) (slots : List (Option PendingSend))
      → task_idx p.src s ≡ some i
      → a.send_full_wait ≡ none
      → take_pending filter b.pending_senders ≡ some (p, slots)
      → (c : Call) × (sys_receive cpu j filter out s ≡ some c)
        × HandedOver s i j p.src b.ttbr0 out p.msg slots c
  unfolding sys_receive set_woken
  receives_parked p slots at_src no_wait take =
      let s' = change_at j (with_pending slots) s in
      let at_i' : task_at i s' ≡ some a =
        task_at-change_at_ne j i (with_pending slots) s ne ∙ at_i in
      let at_j' : task_at j s' ≡ some (with_pending slots b) =
        some_task s (with_pending slots) j b at_j in
      let idx : task_idx p.src s' ≡ some i =
        task_idx-change_at p.src j (with_pending slots) s (λ t. refl) ∙ at_src in
      (
        receive_parked j out b s (p, slots),
        rw (at_j, take) refl,
        record {
          answer = refl;
          written = refl;
          stays = refl;
          sender =
              (released a, rw (idx, at_i', alive) (some_task s' released i a at_i'), refl, no_wait);
          queue = (
            with_pending slots b,
            rw (idx, at_i', alive) (task_at-change_at_ne i j released s' (λ e. ne (sym e)) ∙ at_j'),
            refl,
          );
          woken = rw (idx, at_i', alive) refl;
          rest = λ x off off'.
              rw (idx, at_i', alive)
                (task_at-change_at_ne i x released s' off
                  ∙ task_at-change_at_ne j x (with_pending slots) s off');
        },
      )

  pub receives_staged :
      (staged : StagedSend)
      → a.send_full_wait ≡ some staged
      → take_pending filter b.pending_senders ≡ none
      → find_staged b.id filter 1 (behind_first s.tasks) ≡ some (i, some staged)
      → (c : Call) × (sys_receive cpu j filter out s ≡ some c)
        × HandedOver s i j staged.src b.ttbr0 out staged.msg b.pending_senders c
  unfolding sys_receive set_woken
  receives_staged staged wait take found = (
    record {
      answer = Answer.returns staged.src;
      written = some (record { ttbr0 = b.ttbr0; buf = out; msg = stamped staged.src staged.msg });
      pokes = true;
      switched = false;
      sched = set_woken i (change_at i unstaged s);
      cur = j;
    },
    rw (at_j, take, found) refl,
    record {
      answer = refl;
      written = refl;
      stays = refl;
      sender = (unstaged a, some_task s unstaged i a at_i, refl, refl);
      queue = (b, task_at-change_at_ne i j unstaged s (λ e. ne (sym e)) ∙ at_j, refl);
      woken = refl;
      rest = λ x off off'. task_at-change_at_ne i x unstaged s off;
    },
  )
