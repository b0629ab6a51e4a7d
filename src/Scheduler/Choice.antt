-- ===== src/Scheduler/Choice.antt =====
-- src/scheduler.cpp, `pickNextTaskLocked`: which task the two loops find.
use coroutine_lib.Prelude.{
  ℕ, ◌+◌, ◌≡◌, refl, ap, subst, ◌∙◌, inl, inr, Bool, true, false, ◌&&◌, none, some, List, [], ◌∷◌,
  ◌++◌, append_assoc, append-nil, arith, length, length-append, All, All-append, All-mono,
  Bool-cases,
}
use coroutine_lib.Prelude.Int.{ℤ}
use coroutine_lib.Scheduler.{Scheduler, ScheduleTask, match_thread, better}
use coroutine_lib.Scheduler.Queue.{Cursor, fifo_scan, visit, best_scan}
use coroutine_lib.Scheduler.Order.{better-IsStrict}

-- `u` may run on the thread and comes before `t` in the order of the policy.
abbrev pub beats : Scheduler → ℤ → ScheduleTask → ScheduleTask → Bool
beats s thread_id t u = match_thread thread_id u && better s u t

abbrev pub AllForeign : ℤ → List ScheduleTask → Type 0
AllForeign thread_id = All (λ u. match_thread thread_id u ≡ false)

-- `t` stands in the queue between `pre` and `post`, may run on the thread, and nothing beats it.
pub record Leads (s : Scheduler) (thread_id : ℤ) (tasks : List ScheduleTask) (t : ScheduleTask)
    : Type 0 where
  pub pre : List ScheduleTask
  pub post : List ScheduleTask
  pub split : tasks ≡ pre ++ t ∷ post
  pub matches : match_thread thread_id t ≡ true
  pub unbeaten : All (λ u. beats s thread_id t u ≡ false) tasks

-- `t` is the first task of the list that may run on the thread.
pub record First (thread_id : ℤ) (tasks : List ScheduleTask) (t : ScheduleTask) : Type 0 where
  pub pre : List ScheduleTask
  pub post : List ScheduleTask
  pub split : tasks ≡ pre ++ t ∷ post
  pub matches : match_thread thread_id t ≡ true
  pub foreign : AllForeign thread_id pre

-- What the selection loop knows of the tasks that it has seen.
abbrev pub Seen : Scheduler → ℤ → List ScheduleTask → Cursor → Type 0
Seen s thread_id done none = AllForeign thread_id done
Seen s thread_id done (some (i, t)) = (l : Leads s thread_id done t) × (length l.pre ≡ i)

module _ (s : Scheduler) (thread_id : ℤ) where
  -- A new leader beats whatever the old one beat.
  beats_trans :
      (old t u : ScheduleTask)
      → better s t old ≡ true
      → beats s thread_id old u ≡ false
      → beats s thread_id t u ≡ false
  beats_trans old t u new kept = ground (arith, (better-IsStrict s).trans u t old)

  -- The leader stays: the next task does not beat it.
  keep_leader :
      (done : List ScheduleTask) (task t : ScheduleTask) (i : ℕ)
      → Seen s thread_id done (some (i, t))
      → beats s thread_id t task ≡ false
      → Seen s thread_id (done ++ task ∷ []) (some (i, t))
  keep_leader done task t i (l, at) h = (
    record {
      pre = l.pre;
      post = l.post ++ task ∷ [];
      split = ap (λ r. r ++ task ∷ []) l.split ∙ append_assoc l.pre (t ∷ l.post) (task ∷ []);
      matches = l.matches;
      unbeaten = All-append _ done _ l.unbeaten (h, tt);
    },
    at,
  )

  -- The next task becomes the leader: nothing before it beats it.
  new_leader :
      (done : List ScheduleTask) (task : ScheduleTask)
      → match_thread thread_id task ≡ true
      → All (λ u. beats s thread_id task u ≡ false) done
      → Seen s thread_id (done ++ task ∷ []) (some (length done, task))
  new_leader done task m h = (
    record {
      pre = done;
      post = [];
      split = refl;
      matches = m;
      unbeaten = All-append _ done _ h (ground (arith, (better-IsStrict s).irrefl task), tt);
    },
    refl,
  )

  visit-Seen :
      (done : List ScheduleTask) (task : ScheduleTask) (best : Cursor)
      → Seen s thread_id done best
      → Seen s thread_id (done ++ task ∷ []) (visit s thread_id (length done) task best)
  unfolding visit
  visit-Seen done task none h = elim (Bool-cases (match_thread thread_id task)) [
    | inl m ↦ rw m (new_leader done task m (All-mono _ _ done (λ u e. ground arith) h))
    | inr m ↦ rw m (All-append _ done _ h (m, tt))
  ]
  visit-Seen done task (some (i, t)) h = elim (Bool-cases (match_thread thread_id task)) [
    | inr m ↦ rw m (keep_leader done task t i h (ground arith))
    | inl m ↦ elim (Bool-cases (better s task t)) [
      | inl b ↦
          rw (m, b)
            (new_leader done task m (All-mono _ _ done (λ u. beats_trans t task u b) h.0.unbeaten))
      | inr b ↦ rw (m, b) (keep_leader done task t i h (ground arith))
    ]
  ]

  snoc_split :
      (done rest : List ScheduleTask) (task : ScheduleTask)
      → (done ++ task ∷ []) ++ rest ≡ done ++ task ∷ rest
  snoc_split done rest task = append_assoc done (task ∷ []) rest

  pub best_scan-Seen :
      (done todo : List ScheduleTask) (i : ℕ) (best : Cursor) (tickle_me : Bool)
      → length done ≡ i
      → Seen s thread_id done best
      → Seen s thread_id (done ++ todo) (best_scan s thread_id i best tickle_me todo).0
  unfolding best_scan
  best_scan-Seen done [] i best tickle_me e h = rw append-nil h
  best_scan-Seen done (task ∷ todo) i best tickle_me e h =
      subst (λ l. Seen s thread_id l (best_scan s thread_id i best tickle_me (task ∷ todo)).0)
        (snoc_split done todo task)
        (best_scan-Seen (done ++ task ∷ []) todo (i + 1) (visit s thread_id i task best) _
          (omega (arith, length-append done (task ∷ [])))
          (subst (λ k. Seen s thread_id (done ++ task ∷ []) (visit s thread_id k task best)) e
            (visit-Seen done task best h)))

module _ (thread_id : ℤ) where
  -- The FIFO loop stops at the first task that may run on the thread.
  abbrev pub FirstFrom : List ScheduleTask → ℕ → Cursor → Type 0
  FirstFrom todo i none = AllForeign thread_id todo
  FirstFrom todo i (some (j, t)) = (f : First thread_id todo t) × (i + length f.pre ≡ j)

  skip_foreign :
      (task : ScheduleTask) (todo : List ScheduleTask) (i : ℕ) (c : Cursor)
      → match_thread thread_id task ≡ false
      → FirstFrom todo (i + 1) c
      → FirstFrom (task ∷ todo) i c
  skip_foreign task todo i none m h = (m, h)
  skip_foreign task todo i (some (j, t)) m (f, at) = (
    record {
      pre = task ∷ f.pre;
      post = f.post;
      split = ap (λ l. task ∷ l) f.split;
      matches = f.matches;
      foreign = (m, f.foreign);
    },
    omega arith,
  )

  pub fifo_scan-FirstFrom :
      (todo : List ScheduleTask) (i : ℕ) (tickle_me : Bool)
      → FirstFrom todo i (fifo_scan thread_id i tickle_me todo).0
  unfolding fifo_scan
  fifo_scan-FirstFrom [] i tickle_me = tt
  fifo_scan-FirstFrom (task ∷ todo) i tickle_me = elim (Bool-cases (match_thread thread_id task)) [
    | inl m ↦
        rw m
          (record { pre = []; post = todo; split = refl; matches = m; foreign = tt }, omega arith)
    | inr m ↦ rw m (skip_foreign task todo i _ m (fifo_scan-FirstFrom todo (i + 1) true))
  ]
