-- ===== src/Scheduler/Fairness.antt =====
-- kernel/scheduler/scheduler.go, `Schedule`: no runnable task waits for ever.
use native.Mathlib.Decide.{dec_lt}
use native.Mathlib.Nat.{mod-eq_of_lt, mod-eq-sub-mod}
use go_dav_os.Base.{
  ℕ, zero, suc, ◌+◌, ◌-◌, ◌%◌, ◌≤◌, ◌<◌, ◌≡◌, ◌≢◌, ◌⊎◌, refl, ap, true, some, ltb, leb, ◌==◌,
  if◌then◌else◌, arith, Bool-cases, inl, inr,
}
use go_dav_os.Scheduler.{Sched, runnable, is_runnable, switch_to, schedule}
use go_dav_os.Scheduler.Inv.{IsValid, switch_to-IsValid}
use go_dav_os.Scheduler.Pick.{IsNext, IsNext-lt, schedule_cases}

-- How many places after slot `c` slot `j` comes, round the table of `n`.
abbrev pub places : ℕ → ℕ → ℕ → ℕ
places n c j = if ltb j c then j + n - c else j - c

wrap : (n c i : ℕ) → c < n → i < n → (c + i) % n ≡ (if ltb (c + i) n then c + i else c + i - n)
wrap n c i hc hi = elim (dec_lt (c + i) n) [
  | yes p ↦ ground (arith, mod-eq_of_lt p)
  | no p ↦ ground (
    arith,
    mod-eq-sub-mod {n = c + i} {m = n} (omega arith),
    mod-eq_of_lt {n = c + i - n} {m = n} (omega arith),
  )
]

places_back : (n c j : ℕ) → c < n → j < n → (c + places n c j) % n ≡ j
places_back n c j hc hj = ground (arith, wrap n c (places n c j) hc (ground arith))

next_places :
    (n c j k i : ℕ)
    → c < n
    → j < n
    → 1 ≤ i
    → i < n
    → k ≡ (c + i) % n
    → i ≤ places n c j
    → places n k j ≡ places n c j - i
next_places n c j k i hc hj lo hi e le = ground (arith, wrap n c i hc hi)

module _ {s : Sched} {c : ℕ} (v : IsValid s c) (j : ℕ) (lt : j < s.count) (ne : j ≢ c)
    (ready : (s.pool j).state ≡ runnable) where
  -- The task picked comes no later than the one that waits.
  next-le : (k i : ℕ) → IsNext s c k i → i ≤ places s.count c j
  next-le k i n = elim (Bool-cases (leb i (places s.count c j))) [
    | inl yes_le ↦ ground arith
    | inr later ↦
        let back = places_back s.count c j v.inside lt in
        let skipped = n.before (places s.count c j) (ground arith) (ground arith) in
        let open_slot : is_runnable (s.pool j).state ≡ true = rw ready refl in
        ground (arith, rw back at skipped, open_slot)
  ]

  kept : (k : ℕ) → j ≢ k → ((switch_to c k s).0.pool j).state ≡ runnable
  unfolding switch_to
  kept k nk = ground arith

  count_kept : (k : ℕ) → (switch_to c k s).0.count ≡ s.count
  unfolding switch_to
  count_kept k = refl

  -- After one `Schedule` a runnable task that was not the current one is the current one; or it is still
  -- runnable, in a table of the same size, and fewer places after the current task.
  pub schedule_nearer :
      (d : ℕ) × IsValid (schedule s).0 d
      × ((schedule s).0.count ≡ s.count)
      × ((d ≡ j)
          ⊎ ((j ≢ d)
              × (((schedule s).0.pool j).state ≡ runnable)
              × (places s.count d j < places s.count c j)))
  schedule_nearer = elim (schedule_cases v (omega (arith, v.inside))) [
    | inr (none_ready, _) ↦
        let back = places_back s.count c j v.inside lt in
        let skipped = none_ready (places s.count c j) (ground arith) (ground (arith, v.inside)) in
        let open_slot : is_runnable (s.pool j).state ≡ true = rw ready refl in
        absurd (ground (arith, rw back at skipped, open_slot))
    | inl (k, i, e, n) ↦ rw e (
      k,
      switch_to-IsValid k v (IsNext-lt n),
      count_kept k,
      elim (Bool-cases (j == k)) [
        | inl same ↦ inl (ground arith)
        | inr other ↦
            let nk : j ≢ k = ground arith in
            inr (
              nk,
              kept k nk,
              omega (
                arith,
                next_places s.count c j k i v.inside lt n.pos n.short n.place (next-le k i n),
                n.pos,
                next-le k i n,
              ),
            )
      ],
    )
  ]

-- The state after `n` calls of `Schedule`.
unfoldable pub schedule_times : ℕ → Sched → Sched
schedule_times zero s = s
schedule_times (suc n) s = schedule_times n (schedule s).0

waits :
    (fuel : ℕ) {s : Sched} {c : ℕ}
    → IsValid s c
    → (j : ℕ) → j < s.count
    → j ≢ c
    → (s.pool j).state ≡ runnable
    → places s.count c j ≤ fuel
    → (n : ℕ) × (n ≤ fuel) × ((schedule_times n s).current ≡ some j)
unfolding schedule_times
waits zero {s} {c} v j lt ne ready h = absurd (ground arith)
waits (suc fuel) {s} {c} v j lt ne ready h =
    let (d, v', same, next) = schedule_nearer v j lt ne ready in
    elim next [
      | inl here ↦ (1, omega arith, rw v'.current (ap some here))
      | inr (nd, ready', near) ↦
          let (n, le, at) =
            waits fuel v' j (omega (arith, same, lt)) nd ready'
              (rw same (omega (arith, near, h))) in
          (suc n, omega (arith, le), at)
    ]

-- A runnable task waits for fewer calls of `Schedule` than there are tasks, until it is the current
-- one, if no task is made or ended meanwhile.
pub schedule_serves :
    {s : Sched} {c : ℕ}
    → IsValid s c
    → (j : ℕ) → j < s.count
    → j ≢ c
    → (s.pool j).state ≡ runnable
    → (n : ℕ) × (n < s.count) × ((schedule_times n s).current ≡ some j)
schedule_serves {s} {c} v j lt ne ready =
    let (n, le, at) = waits (s.count - 1) v j lt ne ready (ground (arith, v.inside)) in
    (n, omega (arith, le, v.inside), at)
