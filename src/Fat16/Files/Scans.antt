-- ===== src/Fat16/Files/Scans.antt =====
-- fs/fat16/fat16.go: what a loop over the sectors of the FAT or of the directory finds.
use go_dav_os.Base.{
  ℕ, zero, suc, ◌+◌, ◌^◌, ◌<◌, ◌≤◌, ◌≡◌, ◌≢◌, ◌⊎◌, refl, sym, ap, ◌∙◌, Bool, true, false, Option,
  none, some, Array, ◌==◌, ==_iff, arith, Bool-cases, inl, inr,
}
use go_dav_os.BlockDevice.{BlockDevice}
use go_dav_os.Fat16.{Fat, read_sector}
use go_dav_os.Fat16.Directory.{Scan, read_failed, found, used_up, each_sector}
use go_dav_os.Fat16.Files.Entries.{Option-cases, some_inj}

trichotomy : (m n : ℕ) → (m ≡ n) ⊎ ((m < n) ⊎ (n < m))
trichotomy m n = omega arith

module _ {D : Type 0} (A : BlockDevice D) where
  -- The filesystem's variables and the disk's sectors are the same.
  pub record Same (f g : Fat D) : Type 0 where
    pub layout : g.layout ≡ f.layout
    pub initialized : g.initialized ≡ f.initialized
    pub sectors : A.sector g.disk ≡ A.sector f.disk

  pub Same-refl : (f : Fat D) → Same f f
  Same-refl f = record { layout = refl; initialized = refl; sectors = refl }

  pub Same-trans : {f g h : Fat D} → Same f g → Same g h → Same f h
  Same-trans p q = record {
    layout = q.layout ∙ p.layout;
    initialized = q.initialized ∙ p.initialized;
    sectors = q.sectors ∙ p.sectors;
  }

  pub Same-sym : {f g : Fat D} → Same f g → Same g f
  Same-sym p = record {
    layout = sym p.layout;
    initialized = sym p.initialized;
    sectors = sym p.sectors;
  }

  -- Every read succeeds.
  abbrev pub Reads : Type 0
  Reads = (s : ℕ) (d : D) → s < 2 ^ 28 → (b : Array ℕ) × ((A.read s d).1 ≡ some b)

  pub read_sector-Same : (s : ℕ) (f : Fat D) → Same f (read_sector A s f).0
  unfolding read_sector
  read_sector-Same s f =
      elim (A.read s f.disk).1
        as (λ got.
          Same f
            (elim got as (λ _. Fat D × Bool) [
              | none ↦ (record f { disk = (A.read s f.disk).0 }, false)
              | some b ↦ (record f { disk = (A.read s f.disk).0; fat_buf = b }, true)
            ]).0) [
              | none ↦ record { layout = refl; initialized = refl; sectors = A.read_keeps s f.disk }
              | some b ↦ record {
                layout = refl;
                initialized = refl;
                sectors = A.read_keeps s f.disk;
              }
            ]

  pub read_sector-got :
      (s : ℕ) (f : Fat D)
      → s < 2 ^ 28
      → (read_sector A s f).1 ≡ true
      → (read_sector A s f).0.fat_buf ≡ A.sector f.disk s
  unfolding read_sector
  read_sector-got s f lt done = elim (Option-cases (A.read s f.disk).1) [
    | inl e ↦ let bad : (read_sector A s f).1 ≡ false = rw (e, read_sector) refl in cc
    | inr (b, e) ↦ rw (e, read_sector) (A.read_gives s f.disk b lt e)
  ]

  pub read_sector-Reads : Reads → (s : ℕ) (f : Fat D) → s < 2 ^ 28 → (read_sector A s f).1 ≡ true
  unfolding read_sector
  read_sector-Reads reads s f lt = let (b, e) = reads s f.disk lt in rw (e, read_sector) refl

  -- The sectors from `sec` up to `last` give no answer.
  abbrev pub Silent : {R : Type 0} → (ℕ → Array ℕ → Option R) → ℕ → Fat D → ℕ → ℕ → Type 0
  Silent body base f sec last =
      (j : ℕ) → sec ≤ j → j < last → body j (A.sector f.disk (base + j)) ≡ none

  -- The sector `k` is the first one from `sec` on that answers, and it answers `x`.
  pub record Answers {R : Type 0} (body : ℕ → Array ℕ → Option R) (base : ℕ) (f : Fat D)
      (sec last k : ℕ) (x : R) : Type 0 where
    pub low : sec ≤ k
    pub high : k < last
    pub here : body k (A.sector f.disk (base + k)) ≡ some x
    pub before : Silent body base f sec k

  module _ {R : Type 0} (body : ℕ → Array ℕ → Option R) (base : ℕ) where
    -- The three ends of a loop over sectors.
    abbrev pub Ends : Fat D → ℕ → ℕ → Fat D × Scan R → Type 0
    Ends f sec last r =
        (r.1 ≡ read_failed)
        ⊎ (((k : ℕ) × (x : R) × (r.1 ≡ found x) × Answers body base f sec last k x)
            ⊎ ((r.1 ≡ used_up) × Silent body base f sec last))

    Silent-earlier :
        (f g : Fat D) (sec k : ℕ)
        → Same f g
        → body sec (A.sector f.disk (base + sec)) ≡ none
        → Silent body base g (sec + 1) k
        → Silent body base f sec k
    Silent-earlier f g sec k same here later = λ j a b. elim (Bool-cases (sec == j)) [
      | inl e ↦ rw (← (==_iff sec j).0 e) here
      | inr ne ↦ rw (← same.sectors) (later j (ground (arith, a)) b)
    ]

    Ends-earlier :
        (f g : Fat D) (sec last : ℕ) (r : Fat D × Scan R)
        → Same f g
        → body sec (A.sector f.disk (base + sec)) ≡ none
        → Ends g (sec + 1) last r
        → Ends f sec last r
    Ends-earlier f g sec last r same here (inl e) = inl e
    Ends-earlier f g sec last r same here (inr (inr (e, quiet))) =
        inr (inr (e, Silent-earlier f g sec last same here quiet))
    Ends-earlier f g sec last r same here (inr (inl (k, x, e, a))) = inr (
        inl (
          k,
          x,
          e,
          record {
            low = omega (arith, a.low);
            high = a.high;
            here = rw (← same.sectors) a.here;
            before = Silent-earlier f g sec k same here a.before;
          },
        ))

    pub each_sector-Ends :
        (n sec last : ℕ) (f : Fat D)
        → sec + n ≡ last
        → base + last ≤ 2 ^ 28
        → Same f (each_sector A body base n sec f).0
          × Ends f sec last (each_sector A body base n sec f)
    unfolding each_sector
    each_sector-Ends zero sec last f e fits =
        (Same-refl f, inr (inr (refl, λ j a b. absurd (omega (arith, a, b)))))
    each_sector-Ends (suc n) sec last f e fits =
        let g = (read_sector A (base + sec) f).0 in
        let same = read_sector-Same (base + sec) f in
        elim (Bool-cases (read_sector A (base + sec) f).1) [
          | inr fails ↦ rw (fails, each_sector) (same, inl refl)
          | inl got ↦
              let buf = read_sector-got (base + sec) f (omega arith) got in
              elim (Option-cases (body sec g.fat_buf)) [
                | inr (x, here) ↦
                    rw (got, here, each_sector)
                      (
                        same,
                        inr (
                            inl (
                              sec,
                              x,
                              refl,
                              record {
                                low = omega arith;
                                high = omega arith;
                                here = rw (← buf) here;
                                before = λ j a b. absurd (omega (arith, a, b));
                              },
                            )),
                      )
                | inl quiet ↦
                    let (later, ends) =
                      each_sector-Ends n (sec + 1) last g (omega (arith, e)) fits in
                    let here : body sec (A.sector f.disk (base + sec)) ≡ none = rw (← buf) quiet in
                    rw (got, quiet, each_sector)
                      (
                        Same-trans same later,
                        Ends-earlier f g sec last (each_sector A body base n (sec + 1) g) same here
                            ends,
                      )
              ]
        ]

    pub each_sector-Reads :
        (n sec : ℕ) (f : Fat D)
        → Reads
        → base + (sec + n) ≤ 2 ^ 28
        → (each_sector A body base n sec f).1 ≢ read_failed
    unfolding each_sector
    each_sector-Reads zero sec f reads fits = λ e. cc
    each_sector-Reads (suc n) sec f reads fits =
        let got = read_sector-Reads reads (base + sec) f (omega (arith, fits)) in
        let g = (read_sector A (base + sec) f).0 in
        elim (Option-cases (body sec g.fat_buf)) [
          | inr (x, here) ↦ rw (got, here, each_sector) (λ e. cc)
          | inl quiet ↦
              rw (got, quiet, each_sector)
                (each_sector-Reads n (sec + 1) g reads (omega (arith, fits)))
        ]

    -- On a disk whose reads succeed the loop finds the first sector that answers.
    pub each_sector-answer :
        (n sec last : ℕ) (f : Fat D) (k : ℕ) (x : R)
        → Reads
        → sec + n ≡ last
        → base + last ≤ 2 ^ 28
        → Answers body base f sec last k x
        → (each_sector A body base n sec f).1 ≡ found x
    each_sector-answer n sec last f k x reads e fits a =
        elim (each_sector-Ends n sec last f e fits).1 [
          | inl fails ↦ absurd (each_sector-Reads n sec f reads (omega (arith, fits, e)) fails)
          | inr (inr (_, quiet)) ↦ let none_here = quiet k a.low a.high in let here = a.here in cc
          | inr (inl (k', x', r, a')) ↦ elim (trichotomy k k') [
            | inl same ↦
                let both : some x' ≡ some x = sym a'.here ∙ rw (← same) a.here in
                rw r (ap found (some_inj both))
            | inr (inl lt) ↦ let quiet = a'.before k a.low lt in let here = a.here in cc
            | inr (inr gt) ↦ let quiet = a.before k' a'.low gt in let here = a'.here in cc
          ]
        ]
