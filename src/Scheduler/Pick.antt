-- ===== src/Scheduler/Pick.antt =====
-- src/scheduler.cpp, `pickNextTaskLocked` as a whole: its result, the queue that it leaves, and
-- `tickle_me`.
use coroutine_lib.Prelude.{
  ℕ, ◌+◌, ◌≡◌, refl, ap, subst, ◌∙◌, ◌≢◌, ◌⊎◌, inl, inr, Bool, true, false, ◌||◌, not, none, some,
  List, [], ◌∷◌, ◌++◌, arith, length, is_empty, erase_at, erase_at_split, All-append_right,
  Option-cases, ◌↔◌,
}
use coroutine_lib.Prelude.Int.{ℤ}
use coroutine_lib.Scheduler.{Scheduler, ScheduleTask, SchedulePolicy, fifo, match_thread}
use coroutine_lib.Scheduler.Queue.{
  Cursor, fifo_scan, visit, best_scan, take_out, find_by, pick_next_task_locked,
}
use coroutine_lib.Scheduler.Choice.{
  Leads, First, AllForeign, Seen, FirstFrom, best_scan-Seen, fifo_scan-FirstFrom,
}

-- A task is found where it stands, or no task of the queue may run on the thread.
abbrev Found : ℤ → List ScheduleTask → Cursor → Type 0
Found thread_id tasks none = AllForeign thread_id tasks
Found thread_id tasks (some (i, t)) =
    (pre : List ScheduleTask) × (post : List ScheduleTask) × (tasks ≡ pre ++ t ∷ post)
    × (length pre ≡ i)
    × (match_thread thread_id t ≡ true)

module _ (thread_id : ℤ) where
  Seen-Found :
      (s : Scheduler) (tasks : List ScheduleTask) (c : Cursor)
      → Seen s thread_id tasks c
      → Found thread_id tasks c
  Seen-Found s tasks none h = h
  Seen-Found s tasks (some (i, t)) (l, at) = (l.pre, l.post, l.split, at, l.matches)

  FirstFrom-Found :
      (tasks : List ScheduleTask) (c : Cursor)
      → FirstFrom thread_id tasks 0 c
      → Found thread_id tasks c
  FirstFrom-Found tasks none h = h
  FirstFrom-Found tasks (some (i, t)) (f, at) = (f.pre, f.post, f.split, omega arith, f.matches)

  module _ (s : Scheduler) where
    find_by-Found : (p : SchedulePolicy) → Found thread_id s.tasks (find_by p thread_id s).0
    unfolding find_by
    find_by-Found fifo = FirstFrom-Found s.tasks _ (fifo_scan-FirstFrom thread_id s.tasks 0 false)
    find_by-Found _ =
        Seen-Found s s.tasks _ (best_scan-Seen s thread_id [] s.tasks 0 none false refl tt)

    find_by-Leads :
        (p : SchedulePolicy) (i : ℕ) (t : ScheduleTask)
        → p ≢ fifo
        → (find_by p thread_id s).0 ≡ some (i, t)
        → (l : Leads s thread_id s.tasks t) × (length l.pre ≡ i)
    unfolding find_by
    find_by-Leads fifo i t f e = absurd (f refl)
    find_by-Leads _ i t f e =
        subst (Seen s thread_id s.tasks) e
          (best_scan-Seen s thread_id [] s.tasks 0 none false refl tt)

  best_scan-foreign :
      (s : Scheduler) (todo : List ScheduleTask) (i : ℕ) (tickle_me : Bool)
      → AllForeign thread_id todo
      → (best_scan s thread_id i none tickle_me todo).1 ≡ tickle_me || not (is_empty todo)
  unfolding best_scan visit
  best_scan-foreign s [] i tickle_me h = ground arith
  best_scan-foreign s (x ∷ xs) i tickle_me h =
      rw (h.0, best_scan, visit)
        (ground (arith, best_scan-foreign s xs (i + 1) (tickle_me || true) h.1))

  fifo_scan-foreign :
      (todo : List ScheduleTask) (i : ℕ) (tickle_me : Bool)
      → AllForeign thread_id todo
      → (fifo_scan thread_id i tickle_me todo).1 ≡ tickle_me || not (is_empty todo)
  unfolding fifo_scan
  fifo_scan-foreign [] i tickle_me h = ground arith
  fifo_scan-foreign (x ∷ xs) i tickle_me h =
      rw h.0 (ground (arith, fifo_scan-foreign xs (i + 1) true h.1))

  module _ (s : Scheduler) where
    find_by-foreign :
        (p : SchedulePolicy)
        → AllForeign thread_id s.tasks
        → (find_by p thread_id s).1 ≡ not (is_empty s.tasks)
    unfolding find_by
    find_by-foreign fifo h = fifo_scan-foreign s.tasks 0 false h
    find_by-foreign _ h = best_scan-foreign s s.tasks 0 false h

    -- The only task of the queue is taken with no call for another thread.
    find_by_alone :
        (p : SchedulePolicy) (t : ScheduleTask)
        → s.tasks ≡ t ∷ []
        → match_thread thread_id t ≡ true
        → (find_by p thread_id s).1 ≡ false
    unfolding find_by fifo_scan best_scan
    find_by_alone fifo t e m = rw (e, m)
    find_by_alone _ t e m = rw (e, m)

without : Scheduler → List ScheduleTask → Scheduler
without s tasks = record s { tasks = tasks }

take_out-some :
    (s : Scheduler) (c : Cursor × Bool) (t : ScheduleTask)
    → (take_out s c).out_task ≡ some t
    → (i : ℕ) × (c.0 ≡ some (i, t)) × ((take_out s c).after ≡ without s (erase_at i s.tasks))
unfolding take_out without
take_out-some s (none, b) t e = cc
take_out-some s (some (i, u), b) t e = (i, ground arith, refl)

take_out-none :
    (s : Scheduler) (c : Cursor × Bool)
    → (take_out s c).out_task ≡ none
    → (c.0 ≡ none) × ((take_out s c).after ≡ s)
unfolding take_out
take_out-none s (none, b) e = (refl, refl)
take_out-none s (some (i, u), b) e = cc

take_out_foreign :
    (s : Scheduler) (thread_id : ℤ) (c : Cursor × Bool)
    → AllForeign thread_id s.tasks
    → Found thread_id s.tasks c.0
    → (take_out s c).out_task ≡ none
unfolding take_out
take_out_foreign s thread_id (none, b) h f = refl
take_out_foreign s thread_id (some (i, t), b) h (pre, post, e, at, m) =
    let foreign =
      All-append_right (λ u. match_thread thread_id u ≡ false) pre (t ∷ post)
        (subst (AllForeign thread_id) e h) in
    cc (foreign.0)

take_out_tickle :
    (s : Scheduler) (thread_id : ℤ) (c : Cursor × Bool)
    → Found thread_id s.tasks c.0
    → (AllForeign thread_id s.tasks → c.1 ≡ not (is_empty s.tasks))
    → ((t : ScheduleTask) → s.tasks ≡ t ∷ [] → match_thread thread_id t ≡ true → c.1 ≡ false)
    → (take_out s c).tickle_me ≡ not (is_empty (take_out s c).after.tasks)
unfolding take_out
take_out_tickle s thread_id (none, b) f foreign alone = foreign f
take_out_tickle s thread_id (some (i, t), b) (pre, post, e, at, m) foreign alone =
    rw (erase_at_split pre t post s.tasks i e at) (last_one pre post e)
  where
    last_one :
        (xs ys : List ScheduleTask)
        → s.tasks ≡ xs ++ t ∷ ys
        → (b || not (is_empty (xs ++ ys))) ≡ not (is_empty (xs ++ ys))
    last_one [] [] e = rw (alone t e m)
    last_one [] (y ∷ ys) e = ground arith
    last_one (x ∷ xs) ys e = ground arith

module _ (thread_id : ℤ) (s : Scheduler) where
  -- Outside FIFO the task taken is one that may run on the thread and that no task of the queue
  -- that may run there comes before in the policy's order; just this task leaves the queue, the
  -- others keep their order, and nothing else of the scheduler changes.
  pub pick-Leads :
      (t : ScheduleTask)
      → s.policy ≢ fifo
      → (pick_next_task_locked thread_id s).out_task ≡ some t
      → (l : Leads s thread_id s.tasks t) × ((pick_next_task_locked thread_id s).after
          ≡ record s { tasks = l.pre ++ l.post })
  unfolding pick_next_task_locked without
  pick-Leads t f e =
      let (i, found, left) = take_out-some s (find_by s.policy thread_id s) t e in
      let (l, at) = find_by-Leads thread_id s s.policy i t f found in
      (l, left ∙ ap (without s) (erase_at_split l.pre t l.post s.tasks i l.split at))

  -- Under FIFO the task taken is the first of the queue that may run on the thread; just this task
  -- leaves the queue, and nothing else of the scheduler changes.
  pub pick-First :
      (t : ScheduleTask)
      → s.policy ≡ fifo
      → (pick_next_task_locked thread_id s).out_task ≡ some t
      → (f : First thread_id s.tasks t) × ((pick_next_task_locked thread_id s).after
          ≡ record s { tasks = f.pre ++ f.post })
  unfolding pick_next_task_locked without find_by
  pick-First t p e =
      let (i, found, left) = take_out-some s (find_by s.policy thread_id s) t e in
      let (f, at) = first i (rw p at found) in
      (f, left ∙ ap (without s) (erase_at_split f.pre t f.post s.tasks i f.split (omega arith)))
    where
      first :
          (i : ℕ)
          → (find_by fifo thread_id s).0 ≡ some (i, t)
          → (f : First thread_id s.tasks t) × (0 + length f.pre ≡ i)
      first i e =
          subst (FirstFrom thread_id s.tasks 0) e (fifo_scan-FirstFrom thread_id s.tasks 0 false)

  -- Nothing is taken exactly when no task of the queue may run on the thread.
  pub pick_none-AllForeign :
      (pick_next_task_locked thread_id s).out_task ≡ none ↔ AllForeign thread_id s.tasks
  unfolding pick_next_task_locked
  pick_none-AllForeign = (
    (λ e.
        subst (Found thread_id s.tasks) (take_out-none s (find_by s.policy thread_id s) e).0
          (find_by-Found thread_id s s.policy)),
    (λ h.
        take_out_foreign s thread_id (find_by s.policy thread_id s) h
          (find_by-Found thread_id s s.policy)),
  )

  -- `tickle_me` is set exactly when tasks are left in the queue.
  pub pick_tickle :
      (pick_next_task_locked thread_id s).tickle_me
      ≡ not (is_empty (pick_next_task_locked thread_id s).after.tasks)
  unfolding pick_next_task_locked
  pick_tickle =
      take_out_tickle s thread_id (find_by s.policy thread_id s)
        (find_by-Found thread_id s s.policy) (find_by-foreign thread_id s s.policy)
        (find_by_alone thread_id s s.policy)

  -- In every policy: nothing is taken and nothing changes, or one task leaves the queue.
  pub pick_cases :
      (((pick_next_task_locked thread_id s).out_task ≡ none)
        × ((pick_next_task_locked thread_id s).after ≡ s))
      ⊎ ((t : ScheduleTask) × (pre : List ScheduleTask) × (post : List ScheduleTask)
          × ((pick_next_task_locked thread_id s).out_task ≡ some t)
          × (s.tasks ≡ pre ++ t ∷ post)
          × ((pick_next_task_locked thread_id s).after ≡ record s { tasks = pre ++ post }))
  unfolding pick_next_task_locked without
  pick_cases = elim (Option-cases (pick_next_task_locked thread_id s).out_task) [
    | inl e ↦ inl (e, (take_out-none s (find_by s.policy thread_id s) e).1)
    | inr (t, e) ↦
        let (i, found, left) = take_out-some s (find_by s.policy thread_id s) t e in
        let (pre, post, split, at, m) =
          subst (Found thread_id s.tasks) found (find_by-Found thread_id s s.policy) in
        inr (
          t,
          pre,
          post,
          e,
          split,
          left ∙ ap (without s) (erase_at_split pre t post s.tasks i split at),
        )
  ]
