-- ===== src/Scheduler/Pick.antt =====
-- kernel/scheduler/scheduler.go, `Schedule`: which task it switches to.
use go_dav_os.Base.{
  ℕ, ◌+◌, ◌-◌, ◌%◌, ◌≤◌, ◌<◌, ◌≡◌, ◌⊎◌, ◌∙◌, Bool, true, false, none, some, leb, ◌==◌, ==_iff,
  ==_refl, if◌then◌else◌, arith, Bool-cases, inl, inr,
}
use go_dav_os.Base.Search.{find_first_only, find_first_cases}
use go_dav_os.Scheduler.{
  Sched, stay, is_runnable, is_dead, index_after, pick, switch_to, schedule_from, schedule,
}
use go_dav_os.Scheduler.Inv.{IsValid, switch_to-IsValid}

pub index_after_lem :
    {s : Sched} {c : ℕ} (i : ℕ) → IsValid s c → index_after s c i ≡ (c + i) % s.count
unfolding index_after
index_after_lem {s} {c} i v =
    let found =
      find_first_only (λ k. k == c) s.count c v.inside (==_refl c) (λ j lt e. (==_iff j c).0 e) in
    rw (found, index_after)

-- The slot `k`, `i` places after the current one, is the first one after it that is runnable.
pub record IsNext (s : Sched) (c k i : ℕ) : Type 0 where
  pub pos : 1 ≤ i
  pub short : i < s.count
  pub place : k ≡ (c + i) % s.count
  pub ready : is_runnable (s.pool k).state ≡ true
  pub before : (j : ℕ) → 1 ≤ j → j < i → is_runnable (s.pool ((c + j) % s.count)).state ≡ false

pub IsNext-lt : {s : Sched} {c k i : ℕ} → IsNext s c k i → k < s.count
IsNext-lt n = omega (arith, n.place, n.short)

abbrev pub NoneReady : Sched → ℕ → Type 0
NoneReady s c =
    (i : ℕ) → 1 ≤ i → i < s.count → is_runnable (s.pool ((c + i) % s.count)).state ≡ false

pick_cases :
    {s : Sched} {c : ℕ}
    → IsValid s c
    → ((k : ℕ) × (i : ℕ) × (pick s c ≡ some k) × IsNext s c k i)
      ⊎ ((pick s c ≡ none) × NoneReady s c)
unfolding pick
pick_cases {s} {c} v =
    let test = λ (i : ℕ). is_runnable (s.pool (index_after s c i)).state in
    elim (find_first_cases test (s.count - 1) 1 s.count (omega (arith, v.inside))) [
      | inl (i, e, f) ↦ inl (
        index_after s c i,
        i,
        rw (e, pick),
        record {
          pos = f.low;
          short = f.high;
          place = index_after_lem i v;
          ready = f.passes;
          before = λ j lo hi. rw (← index_after_lem j v) (f.before j lo hi);
        },
      )
      | inr (e, all) ↦ inr (rw (e, pick), λ i lo hi. rw (← index_after_lem i v) (all i lo hi))
    ]

schedule_at : {s : Sched} {c : ℕ} → IsValid s c → 1 < s.count → schedule s ≡ schedule_from s c
unfolding schedule
schedule_at {s} {c} v many = ground (arith, v.current)

-- With two tasks or more `Schedule` switches to the first runnable task after the current one. If there
-- is none it goes on with the current task; or, if that is dead, switches to task 0, whatever its
-- state. It never reads through a nil task.
pub schedule_cases :
    {s : Sched} {c : ℕ}
    → IsValid s c
    → 1 < s.count
    → ((k : ℕ) × (i : ℕ) × (schedule s ≡ switch_to c k s) × IsNext s c k i)
      ⊎ (NoneReady s c
          × (schedule s ≡ (if is_dead (s.pool c).state then switch_to c 0 s else (s, stay))))
unfolding schedule_from
schedule_cases {s} {c} v many = elim (pick_cases v) [
  | inl (k, i, p, n) ↦ inl (k, i, schedule_at v many ∙ rw (p, schedule_from), n)
  | inr (p, none_ready) ↦ inr (none_ready, schedule_at v many ∙ rw (p, schedule_from))
]

schedule_alone : (s : Sched) → s.count ≤ 1 → schedule s ≡ (s, stay)
unfolding schedule
schedule_alone s h = ground arith

if_switch :
    (b : Bool) {s : Sched} {c : ℕ}
    → IsValid s c
    → (d : ℕ) × IsValid (if b then switch_to c 0 s else (s, stay)).0 d
if_switch true v = (0, switch_to-IsValid 0 v (omega (arith, v.inside)))
if_switch false {c = c} v = (c, v)

-- `Schedule` keeps the invariant: at most the current task is running.
pub schedule-IsValid : {s : Sched} {c : ℕ} → IsValid s c → (d : ℕ) × IsValid (schedule s).0 d
schedule-IsValid {s} {c} v = elim (Bool-cases (leb s.count 1)) [
  | inl few ↦ rw (schedule_alone s (ground arith)) (c, v)
  | inr many ↦ elim (schedule_cases v (ground arith)) [
    | inl (k, i, e, n) ↦ rw e (k, switch_to-IsValid k v (IsNext-lt n))
    | inr (_, e) ↦ rw e (if_switch (is_dead (s.pool c).state) v)
  ]
]
