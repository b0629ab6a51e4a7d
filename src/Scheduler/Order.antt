-- ===== src/Scheduler/Order.antt =====
-- src/scheduler.cpp: the comparators of `pickNextTaskLocked` are strict orders.
use coroutine_lib.Prelude.{ℕ, ◌≡◌, refl, sym, ◌≢◌, Bool, true, false, arith}
use coroutine_lib.Prelude.Int.{ℤ, pos, negsuc, int_lt, int_eq}
use coroutine_lib.Scheduler.{
  Scheduler, ScheduleTask, MlfqConfig, SchedulePolicy, fifo, priority, mlfq, edf, hybrid,
  better_priority, better_mlfq, better_edf, better_hybrid, better,
}

-- A strict order, as far as one choice of a best element needs it.
pub record IsStrict (less : ScheduleTask → ScheduleTask → Bool) : Type 0 where
  pub irrefl : (a : ScheduleTask) → less a a ≡ false
  pub trans : (a b c : ScheduleTask) → less a b ≡ true → less b c ≡ true → less a c ≡ true

priority-IsStrict : IsStrict better_priority
unfolding better_priority
priority-IsStrict = record { irrefl = λ a. ground arith; trans = λ a b c h k. ground arith }

edf-IsStrict : IsStrict better_edf
unfolding better_edf
edf-IsStrict = record { irrefl = λ a. ground arith; trans = λ a b c h k. ground arith }

mlfq-IsStrict : (m : MlfqConfig) (now : ℕ) → IsStrict (better_mlfq m now)
unfolding better_mlfq
mlfq-IsStrict m now = record { irrefl = λ a. ground arith; trans = λ a b c h k. ground arith }

hybrid-IsStrict : IsStrict better_hybrid
unfolding better_hybrid
hybrid-IsStrict = record {
  irrefl = λ a. ground (arith, priority-IsStrict.irrefl a);
  trans = λ a b c h k. ground (arith, priority-IsStrict.trans a b c);
}

fifo-IsStrict : IsStrict (λ a b. false)
fifo-IsStrict = record { irrefl = λ a. refl; trans = λ a b c h k. h }

-- The comparator of the switch, by the policy that it reads.
better_by : SchedulePolicy → Scheduler → ScheduleTask → ScheduleTask → Bool
unfolding better
better_by p s = better (record s { policy = p })

policy-IsStrict : (p : SchedulePolicy) (s : Scheduler) → IsStrict (better_by p s)
unfolding better_by
policy-IsStrict fifo s = fifo-IsStrict
policy-IsStrict priority s = priority-IsStrict
policy-IsStrict mlfq s = mlfq-IsStrict s.mlfq_config s.task_sequence
policy-IsStrict edf s = edf-IsStrict
policy-IsStrict hybrid s = hybrid-IsStrict

pub better-IsStrict : (s : Scheduler) → IsStrict (better s)
unfolding better_by
better-IsStrict s = policy-IsStrict s.policy s

int_connex : (a b : ℤ) → int_eq a b ≡ false → int_lt a b ≡ false → int_lt b a ≡ true
int_connex (pos a) (pos b) d h = ground arith
int_connex (pos a) (negsuc b) d h = refl
int_connex (negsuc a) (pos b) d h = sym h
int_connex (negsuc a) (negsuc b) d h = ground arith

int_eq_comm : (a b : ℤ) → int_eq a b ≡ int_eq b a
int_eq_comm (pos a) (pos b) = ground arith
int_eq_comm (pos a) (negsuc b) = refl
int_eq_comm (negsuc a) (pos b) = refl
int_eq_comm (negsuc a) (negsuc b) = ground arith

priority_connex :
    (a b : ScheduleTask)
    → a.sequence ≢ b.sequence
    → better_priority a b ≡ false
    → better_priority b a ≡ true
unfolding better_priority
priority_connex a b d h =
    ground (arith, int_connex b.priority a.priority, int_eq_comm a.priority b.priority)

-- Two tasks with different numbers are never a tie, outside FIFO.
policy_connex :
    (p : SchedulePolicy) (s : Scheduler) (a b : ScheduleTask)
    → p ≢ fifo
    → a.sequence ≢ b.sequence
    → better_by p s a b ≡ false
    → better_by p s b a ≡ true
unfolding better_by better_priority better_mlfq better_edf better_hybrid
policy_connex fifo s a b f d h = absurd (f refl)
policy_connex priority s a b f d h = priority_connex a b d h
policy_connex mlfq s a b f d h = ground arith
policy_connex edf s a b f d h = ground arith
policy_connex hybrid s a b f d h = ground (arith, priority_connex a b)

pub better_connex :
    (s : Scheduler) (a b : ScheduleTask)
    → s.policy ≢ fifo
    → a.sequence ≢ b.sequence
    → better s a b ≡ false
    → better s b a ≡ true
unfolding better_by
better_connex s = policy_connex s.policy s
