-- ===== src/Scheduler/Frames.antt =====
-- kernel/scheduler/scheduler.go, `NewTaskEntry`: the stack that `CpuSwitch` first pops.
use go_dav_os.Base.{
  ℕ, ◌+◌, ◌-◌, ◌%◌, ◌^◌, ◌≤◌, ◌<◌, ◌≡◌, ◌≢◌, refl, false, some, Array, update_self, update_ne, leb,
  ◌==◌, arith,
}
use go_dav_os.Scheduler.{Sched, stack_top, write_frame, sub64, new_task_entry, runnable}

-- The frame at stack pointer `sp`: four registers, the entry, and where the entry returns to; it lies
-- in the stack at `base`.
pub record Frame (base auto_exit entry sp : ℕ) (memory : Array ℕ) : Type 0 where
  pub aligned : sp % 16 ≡ 0
  pub low : base ≤ sp
  pub high : sp + 48 ≤ base + 4096
  pub registers :
      (memory sp ≡ 0) × (memory (sp + 8) ≡ 0) × (memory (sp + 16) ≡ 0) × (memory (sp + 24) ≡ 0)
  pub entry_word : memory (sp + 32) ≡ entry
  pub return_word : memory (sp + 40) ≡ auto_exit

-- The six words, with no address wrapping.
frame_words :
    (sp auto_exit entry : ℕ) (memory : Array ℕ)
    → 48 ≤ sp
    → sp < 2 ^ 64
    → let m = write_frame sp auto_exit entry memory in
      ((m (sp - 48) ≡ 0) × (m (sp - 48 + 8) ≡ 0) × (m (sp - 48 + 16) ≡ 0) × (m (sp - 48 + 24) ≡ 0))
      × (m (sp - 48 + 32) ≡ entry)
      × (m (sp - 48 + 40) ≡ auto_exit)
unfolding write_frame
frame_words sp auto_exit entry memory lo hi =
    ((ground arith, ground arith, ground arith, ground arith), ground arith, ground arith)

-- A new task starts with its frame inside its own stack, whose address is that of an object: not at
-- the end of the address space. It takes the next slot and number, and leaves the other tasks.
pub new_task_entry-Frame :
    (stack_base : ℕ → ℕ) (auto_exit entry : ℕ) (s : Sched)
    → stack_base s.count + 4096 < 2 ^ 64
    → s.count < 16
    → entry ≢ 0
    → let (t, idx) = new_task_entry stack_base auto_exit entry s in
      (idx ≡ some s.count)
      × Frame (stack_base s.count) auto_exit entry (t.pool s.count).esp t.memory
      × ((t.pool s.count).id ≡ s.next_id)
      × ((t.pool s.count).state ≡ runnable)
      × (t.count ≡ s.count + 1)
      × ((i : ℕ) → i ≢ s.count → t.pool i ≡ s.pool i)
unfolding new_task_entry
new_task_entry-Frame stack_base auto_exit entry s room free ne =
    let base = stack_base s.count in
    let sp = stack_top base in
    let top : (sp ≤ base + 4096) × (base + 4080 < sp) × (sp % 16 ≡ 0) =
      unfold stack_top in omega arith in
    let e1 : leb 16 s.count ≡ false = ground arith in
    let e2 : (entry == 0) ≡ false = ground arith in
    let a : sub64 sp 8 ≡ sp - 8 = omega arith in
    let b : sub64 (sp - 8) 8 ≡ sp - 16 = omega arith in
    let c : sub64 (sp - 16) 32 ≡ sp - 48 = omega arith in
    let w = frame_words sp auto_exit entry s.memory (omega arith) (omega arith) in
    rw (e1, e2)
      (
        refl,
        rw (update_self s.pool s.count _, a, b, c)
            (record {
              aligned = omega arith;
              low = omega arith;
              high = omega arith;
              registers = w.0;
              entry_word = w.1;
              return_word = w.2;
            }),
        rw (update_self s.pool s.count _) refl,
        rw (update_self s.pool s.count _) refl,
        refl,
        λ i other. update_ne s.pool s.count i _ other,
      )
