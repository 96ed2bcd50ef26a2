-- ===== src/Fat16/Files/Entries.antt =====
-- fs/fat16/fat16.go: what a loop over the entries of a sector finds.
use go_dav_os.Base.{
  ℕ, zero, suc, ◌+◌, ◌*◌, ◌<◌, ◌≤◌, ◌≡◌, ◌⊎◌, refl, Option, none, some, ◌==◌, ==_iff, arith,
  Bool-cases, inl, inr,
}
use go_dav_os.Fat16.Directory.{Step, answer, stop, next, each_entry}

-- An entry that answers, after entries that are passed over, gives the answer.
pub each_entry-answer :
    {R : Type 0} (body : ℕ → Step R) (n i k : ℕ) (x : R)
    → i ≤ k
    → k < i + n
    → ((j : ℕ) → i ≤ j → j < k → body (j * 32) ≡ next)
    → body (k * 32) ≡ answer x
    → each_entry body n i ≡ some x
unfolding each_entry
each_entry-answer body zero i k x lo hi before here = absurd (omega (arith, lo, hi))
each_entry-answer body (suc n) i k x lo hi before here = elim (Bool-cases (i == k)) [
  | inl same ↦ rw ((==_iff i k).0 same, here, each_entry) refl
  | inr ne ↦
      let later =
        each_entry-answer body n (i + 1) k x (ground (arith, lo)) (omega (arith, hi))
          (λ j a b. before j (omega (arith, a)) b) here in
      rw (before i (omega arith) (ground (arith, lo)), each_entry) later
]

-- Entries that are all passed over give no answer.
pub each_entry-none :
    {R : Type 0} (body : ℕ → Step R) (n i : ℕ)
    → ((j : ℕ) → i ≤ j → j < i + n → body (j * 32) ≡ next)
    → each_entry body n i ≡ none
unfolding each_entry
each_entry-none body zero i all = refl
each_entry-none body (suc n) i all =
    rw (all i (omega arith) (omega arith), each_entry)
      (each_entry-none body n (i + 1) (λ j a b. all j (omega (arith, a)) (omega (arith, b))))

pub Step-cases : {R : Type 0} (s : Step R) → ((x : R) × (s ≡ answer x)) ⊎ ((s ≡ stop) ⊎ (s ≡ next))
Step-cases (answer x) = inl (x, refl)
Step-cases stop = inr (inl refl)
Step-cases next = inr (inr refl)

pub Option-cases : {R : Type 0} (o : Option R) → (o ≡ none) ⊎ ((x : R) × (o ≡ some x))
Option-cases none = inl refl
Option-cases (some x) = inr (x, refl)

-- The entries from `i` up to `stop_at` are passed over.
abbrev pub Passed : {R : Type 0} → (ℕ → Step R) → ℕ → ℕ → Type 0
Passed body i stop_at = (j : ℕ) → i ≤ j → j < stop_at → body (j * 32) ≡ next

extend :
    {R : Type 0} (body : ℕ → Step R) {i k : ℕ}
    → body (i * 32) ≡ next
    → Passed body (i + 1) k
    → Passed body i k
extend {R} body {i} {k} here later = λ j a b. elim (Bool-cases (i == j)) [
  | inl same ↦ rw (← (==_iff i j).0 same) here
  | inr ne ↦ later j (ground (arith, a)) b
]

pub each_entry_cases :
    {R : Type 0} (body : ℕ → Step R) (n i last : ℕ)
    → i + n ≡ last
    → ((k : ℕ) × (x : R) × (each_entry body n i ≡ some x)
        × (i ≤ k)
        × (k < last)
        × (body (k * 32) ≡ answer x)
        × Passed body i k)
      ⊎ ((each_entry body n i ≡ none)
          × (((k : ℕ) × (i ≤ k) × (k < last) × (body (k * 32) ≡ stop) × Passed body i k)
              ⊎ Passed body i last))
unfolding each_entry
each_entry_cases body zero i last e = inr (refl, inr (λ j a b. absurd (omega arith)))
each_entry_cases body (suc n) i last e = elim (Step-cases (body (i * 32))) [
  | inl (x, here) ↦ inl (
    i,
    x,
    rw (here, each_entry) refl,
    omega arith,
    omega arith,
    here,
    λ j a b. absurd (omega (arith, a, b)),
  )
  | inr (inl here) ↦ inr (
    rw (here, each_entry) refl,
    inl (i, omega arith, omega arith, here, λ j a b. absurd (omega (arith, a, b))),
  )
  | inr (inr here) ↦
      rw (here, each_entry)
        (elim (each_entry_cases body n (i + 1) last (omega arith)) [
          | inl (k, x, f, lo, hi, at, before) ↦
              inl (k, x, f, omega (arith, lo), hi, at, extend body here before)
          | inr (f, inl (k, lo, hi, at, before)) ↦
              inr (f, inl (k, omega (arith, lo), hi, at, extend body here before))
          | inr (f, inr before) ↦ inr (f, inr (extend body here before))
        ])
]

pub some_inj : {R : Type 0} {x y : R} → some x ≡ some y → x ≡ y
some_inj e = cc

pub answer_inj : {R : Type 0} (x y : R) → answer x ≡ answer y → x ≡ y
answer_inj x y e = cc
