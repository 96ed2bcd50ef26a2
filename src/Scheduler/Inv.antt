-- ===== src/Scheduler/Inv.antt =====
-- kernel/scheduler/scheduler.go: the invariant of the task table.
use go_dav_os.Base.{ℕ, ◌≤◌, ◌<◌, ◌≡◌, refl, some, leb, ◌==◌, arith, Bool-cases, inl, inr}
use go_dav_os.Scheduler.{Sched, running, init, new_task_entry, switch_to}

-- Slot `c` is the current task's: it alone may be running, and tasks are numbered by their slots.
pub record IsValid (s : Sched) (c : ℕ) : Type 0 where
  pub current : s.current ≡ some c
  pub inside : c < s.count
  pub fits : s.count ≤ 16
  pub numbered : s.next_id ≡ s.count
  pub ids : (i : ℕ) → i < s.count → (s.pool i).id ≡ i
  pub alone : (i : ℕ) → i < s.count → (s.pool i).state ≡ running → i ≡ c

pub init-IsValid : (s : Sched) → IsValid (init s) 0
unfolding init
init-IsValid s = record {
  current = refl;
  inside = omega arith;
  fits = omega arith;
  numbered = refl;
  ids = λ i lt. ground arith;
  alone = λ i lt e. omega arith;
}

-- `NewTaskEntry` keeps the invariant, also when it refuses the task.
pub new_task_entry-IsValid :
    (stack_base : ℕ → ℕ) (auto_exit entry : ℕ) {s : Sched} {c : ℕ}
    → IsValid s c
    → IsValid (new_task_entry stack_base auto_exit entry s).0 c
unfolding new_task_entry
new_task_entry-IsValid stack_base auto_exit entry {s} {c} v = elim (Bool-cases (leb 16 s.count)) [
  | inl full ↦ rw full v
  | inr room ↦ elim (Bool-cases (entry == 0)) [
    | inl zero_entry ↦ rw (room, zero_entry) v
    | inr fine ↦
        rw (room, fine)
          (record {
            current = v.current;
            inside = omega (arith, v.inside);
            fits = ground arith;
            numbered = omega (arith, v.numbered);
            ids = λ i lt. ground (arith, v.ids i, v.numbered);
            alone = λ i lt e. ground (arith, v.alone i);
          })
  ]
]

-- A switch to a task of the table makes it the current one.
pub switch_to-IsValid :
    (k : ℕ) {s : Sched} {c : ℕ} → IsValid s c → k < s.count → IsValid (switch_to c k s).0 k
unfolding switch_to
switch_to-IsValid k {s} {c} v lt = record {
  current = refl;
  inside = lt;
  fits = v.fits;
  numbered = v.numbered;
  ids = λ i h. ground (arith, v.ids i, v.ids k, v.ids c);
  alone = λ i h e. only i h e;
}
  where
    only : (i : ℕ) → i < s.count → ((switch_to c k s).0.pool i).state ≡ running → i ≡ k
    only i h e = ground (arith, v.alone i)
