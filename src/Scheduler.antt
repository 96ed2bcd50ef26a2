-- ===== src/Scheduler.antt =====
-- kernel/scheduler/scheduler.go: tasks, their first stack frames, and round-robin scheduling.
-- `tasks[i]` is always `&taskPool[i]`, so a task is the index of its slot. `cpuSwitch` is assembly: a
-- switch is an outcome, with the stack pointer that it is given.
pub mod Inv
pub mod Frames
pub mod Pick
pub mod Fairness
mod Examples
use go_dav_os.Base.{
  ℕ, zero, suc, ◌+◌, ◌-◌, ◌%◌, ◌^◌, Bool, true, false, not, Option, none, some, Array, update, ltb,
  leb, ◌==◌, if◌then◌else◌,
}
use go_dav_os.Base.Search.{find_first}

abbrev pub stack_size : ℕ
stack_size = 4096

abbrev pub max_tasks : ℕ
max_tasks = 16

-- `TaskState`
pub data TaskState : Type 0 where
  runnable running waiting dead : TaskState

-- `Task`; its stack lies in the memory of the state.
pub record Task : Type 0 where
  pub id : ℕ
  pub esp : ℕ
  pub state : TaskState

-- The package's variables, and memory as an array of the 64-bit words at each address.
pub record Sched : Type 0 where
  pub pool : Array Task
  pub count : ℕ
  pub current : Option ℕ
  pub next_id : ℕ
  pub memory : Array ℕ

-- What a call of `Schedule` ends in: it returns, it switches from a task to another one at the stack
-- pointer `rsp`, or it reads through a nil task.
pub data Outcome : Type 0 where
  stay : Outcome
  switch : (from to rsp : ℕ) → Outcome
  fault : Outcome

abbrev pub is_runnable : TaskState → Bool
is_runnable runnable = true
is_runnable _ = false

abbrev pub is_dead : TaskState → Bool
is_dead dead = true
is_dead _ = false

-- `Init`
unfoldable pub init : Sched → Sched
init s = record s {
  pool = update s.pool 0 (record (s.pool 0) { id = 0; state = running });
  count = 1;
  current = some 0;
  next_id = 1;
}

-- `sp -= n` on a uintptr.
abbrev pub sub64 : ℕ → ℕ → ℕ
sub64 a n = (a + 2 ^ 64 - n) % 2 ^ 64

-- The aligned top of the stack at address `base`.
unfoldable pub stack_top : ℕ → ℕ
stack_top base = let sp = (base + stack_size) % 2 ^ 64 in sp - sp % 16

-- The words that `NewTaskEntry` writes below `sp`: the return address of `entry`, `entry`, and four
-- registers. `auto_exit` is the address of `taskAutoExit`.
unfoldable pub write_frame : ℕ → ℕ → ℕ → Array ℕ → Array ℕ
write_frame sp auto_exit entry memory =
    let a = sub64 sp 8 in
    let b = sub64 a 8 in
    let c = sub64 b 32 in
    update
      (update
        (update (update (update (update memory a auto_exit) b entry) c 0) ((c + 8) % 2 ^ 64) 0)
        ((c + 16) % 2 ^ 64) 0)
      ((c + 24) % 2 ^ 64) 0

-- `NewTaskEntry`: the new task's slot. `stack_base i` is the address of `taskPool[i].Stack[0]`.
unfoldable pub new_task_entry : (ℕ → ℕ) → ℕ → ℕ → Sched → Sched × Option ℕ
new_task_entry stack_base auto_exit entry s =
    let idx = s.count in
    let sp = stack_top (stack_base idx) in
    let task : Task = record {
      id = s.next_id;
      state = runnable;
      esp = sub64 (sub64 (sub64 sp 8) 8) 32;
    } in
    if leb max_tasks s.count then (s, none) else if entry == 0 then (s, none) else (
      record s {
        pool = update s.pool idx task;
        count = s.count + 1;
        next_id = s.next_id + 1;
        memory = write_frame sp auto_exit entry s.memory;
      },
      some idx,
    )

-- The loop that looks the current task up, and -1 + i for a task that is not there.
unfoldable pub index_after : Sched → ℕ → ℕ → ℕ
index_after s c i = elim (find_first (λ k. k == c) s.count 0) [
  | none ↦ (i - 1) % s.count
  | some k ↦ (k + i) % s.count
]

-- The round-robin loop.
unfoldable pub pick : Sched → ℕ → Option ℕ
pick s c = elim (find_first (λ i. is_runnable (s.pool (index_after s c i)).state) (s.count - 1) 1) [
  | none ↦ none
  | some i ↦ some (index_after s c i)
]

-- The end of `Schedule`: from task `c` to task `k`.
unfoldable pub switch_to : ℕ → ℕ → Sched → Sched × Outcome
switch_to c k s =
    let old = s.pool c in
    let parked =
      if is_dead old.state then s.pool else update s.pool c (record old { state = runnable }) in
    (
      record s { pool = update parked k (record (parked k) { state = running }); current = some k },
      switch c k (parked k).esp,
    )

-- `Schedule` from the current task `c`: to the task picked; or, from a dead task, to task 0.
unfoldable pub schedule_from : Sched → ℕ → Sched × Outcome
unfolding pick index_after
schedule_from s c = elim (pick s c) [
  | some k ↦ switch_to c k s
  | none ↦ if is_dead (s.pool c).state then switch_to c 0 s else (s, stay)
]

-- `Schedule`
unfoldable pub schedule : Sched → Sched × Outcome
schedule s =
    if leb s.count 1
    then (s, stay)
    else elim s.current [ none ↦ (s, fault) | some c ↦ schedule_from s c ]

-- `Exit`, up to the switch; if `Schedule` returns, the code loops for ever.
unfoldable pub exit : Sched → Sched × Outcome
exit s = elim s.current [
  | none ↦ (s, stay)
  | some c ↦ schedule (record s { pool = update s.pool c (record (s.pool c) { state = dead }) })
]

-- `CurrentTaskID`; `none` stands for -1.
unfoldable pub current_task_id : Sched → Option ℕ
current_task_id s = elim s.current [ none ↦ none | some c ↦ some (s.pool c).id ]
