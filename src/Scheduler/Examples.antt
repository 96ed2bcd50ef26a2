-- ===== src/Scheduler/Examples.antt =====
-- kernel/scheduler/scheduler.go: runs with the first task and two more.
use go_dav_os.Base.{ℕ, ◌+◌, ◌*◌, ◌≡◌, ◌≢◌, ◌⊎◌, ◌<◌, refl, none, some, if◌then◌else◌, arith}
use go_dav_os.Scheduler.{
  Sched, runnable, dead, stay, is_dead, init, new_task_entry, switch_to, schedule,
}
use go_dav_os.Scheduler.Inv.{IsValid, init-IsValid, new_task_entry-IsValid}
use go_dav_os.Scheduler.Frames.{Frame, new_task_entry-Frame}
use go_dav_os.Scheduler.Pick.{IsNext, NoneReady, schedule_cases}
use go_dav_os.Scheduler.Fairness.{schedule_times, schedule_serves}

abbrev blank : Sched
blank = record {
  pool = λ i. record { id = 0; esp = 0; state = dead };
  count = 0;
  current = none;
  next_id = 0;
  memory = λ i. 0;
}

abbrev stack_base : ℕ → ℕ
stack_base i = 0x100000 + i * 0x1000

abbrev one_task : Sched
one_task = init blank

abbrev two_tasks : Sched
two_tasks = (new_task_entry stack_base 0x9000 0x400000 one_task).0

abbrev three_tasks : Sched
three_tasks = (new_task_entry stack_base 0x9000 0x500000 two_tasks).0

two_tasks-IsValid : IsValid two_tasks 0
two_tasks-IsValid = new_task_entry-IsValid stack_base 0x9000 0x400000 (init-IsValid blank)

three_tasks-IsValid : IsValid three_tasks 0
three_tasks-IsValid = new_task_entry-IsValid stack_base 0x9000 0x500000 two_tasks-IsValid

new_task_entry-Frame_example :
    let (t, idx) = new_task_entry stack_base 0x9000 0x400000 one_task in
    (idx ≡ some one_task.count)
    × Frame (stack_base one_task.count) 0x9000 0x400000 (t.pool one_task.count).esp t.memory
    × ((t.pool one_task.count).id ≡ one_task.next_id)
    × ((t.pool one_task.count).state ≡ runnable)
    × (t.count ≡ one_task.count + 1)
    × ((i : ℕ) → i ≢ one_task.count → t.pool i ≡ one_task.pool i)
unfolding init
new_task_entry-Frame_example =
    new_task_entry-Frame stack_base 0x9000 0x400000 one_task (omega arith) (omega arith)
      (omega arith)

schedule_cases_example :
    ((k : ℕ) × (i : ℕ) × (schedule three_tasks ≡ switch_to 0 k three_tasks)
      × IsNext three_tasks 0 k i)
    ⊎ (NoneReady three_tasks 0
        × (schedule three_tasks ≡ (
            if is_dead (three_tasks.pool 0).state
            then switch_to 0 0 three_tasks
            else (three_tasks, stay))))
unfolding init new_task_entry
schedule_cases_example = schedule_cases three_tasks-IsValid (omega arith)

schedule_serves_example :
    (n : ℕ) × (n < three_tasks.count) × ((schedule_times n three_tasks).current ≡ some 2)
unfolding init new_task_entry
schedule_serves_example = schedule_serves three_tasks-IsValid 2 (omega arith) (omega arith) refl
