-- ===== src/Fs/Store.antt =====
-- fs/fs.go, `Write` and `Remove`: what each call does, case by case.
use go_dav_os.Base.{
  ℕ, ◌<◌, ◌≤◌, ◌≡◌, ◌≢◌, ◌⊎◌, inl, inr, refl, Bool, true, false, not, ◌||◌, none, some, Array,
  update, ltb, ◌==◌, if◌then◌else◌, arith, Bool-cases,
}
use go_dav_os.Base.Search.{find_first_cases}
use go_dav_os.PageAllocator.{PageAllocator}
use go_dav_os.Fs.{
  FileEntry, Fs, find_by_name, find_free_slot, pick_slot, copy_name, store, write_slot, write,
  remove, entry_matches,
}
use go_dav_os.Fs.Names.{Holds, entry_matches-Holds, Holds-entry_matches}

-- The bytes that `Write` keeps of `n`.
abbrev pub clip : ℕ → ℕ
clip n = if ltb 4096 n then 4096 else n

module _ (name : Array ℕ) (n : ℕ) (files : Array FileEntry) where
  pub find_by_name_cases :
      ((idx : ℕ) × (find_by_name name n files ≡ some idx)
        × (idx < 32)
        × Holds name n (files idx)
        × (0 < n)
        × (n ≤ 16))
      ⊎ ((find_by_name name n files ≡ none)
          × (0 < n → n ≤ 16 → (j : ℕ) → j < 32 → ¬ Holds name n (files j)))
  unfolding find_by_name
  find_by_name_cases = elim (Bool-cases (n == 0 || ltb 16 n)) [
    | inl bad ↦ rw bad (inr (refl, λ lo hi j lt h. ground arith))
    | inr fine ↦
        let named : (0 < n) × (n ≤ 16) = ground arith in
        rw fine
          (elim (find_first_cases (λ i. entry_matches name n (files i)) 32 0 32 (omega arith)) [
            | inl (k, f, p) ↦
                inl (k, f, p.high, entry_matches-Holds name n (files k) p.passes, named.0, named.1)
            | inr (f, all) ↦
                inr
                  (f, λ lo hi j lt h. ground (arith, all j (omega arith) lt, Holds-entry_matches h))
          ])
  ]

  pub find_free_slot_cases :
      ((idx : ℕ) × (find_free_slot files ≡ some idx) × (idx < 32) × ((files idx).used ≡ false))
      ⊎ ((find_free_slot files ≡ none) × ((j : ℕ) → j < 32 → (files j).used ≡ true))
  unfolding find_free_slot
  find_free_slot_cases = elim (find_first_cases (λ i. not (files i).used) 32 0 32 (omega arith)) [
    | inl (k, f, p) ↦ inl (k, f, p.high, ground (arith, p.passes))
    | inr (f, all) ↦ inr (f, λ j lt. ground (arith, all j (omega arith) lt))
  ]

module _ {S : Type 0} (A : PageAllocator S) (name : Array ℕ) (n : ℕ) (fs : Fs S) where
  -- The new entry of a file that `Write` creates in slot `idx`.
  abbrev pub new_entry : ℕ → FileEntry
  new_entry idx =
      copy_name (record (fs.files idx) { used = true; page = (A.alloc fs.pages).1 }) name n

  -- The file is there, and its data is overwritten.
  pub record Overwrites (src : Array ℕ) (len : ℕ) (idx : ℕ) (r : Fs S × Bool) : Type 0 where
    pub slot : idx < 32
    pub here : Holds name n (fs.files idx)
    pub result : r ≡ (store idx (fs.files idx) src (clip len) fs, true)

  -- No file has the name: it is created in a free slot, on a new page.
  pub record Creates (src : Array ℕ) (len : ℕ) (idx : ℕ) (r : Fs S × Bool) : Type 0 where
    pub slot : idx < 32
    pub vacant : (fs.files idx).used ≡ false
    pub absent : (j : ℕ) → j < 32 → ¬ Holds name n (fs.files j)
    pub len_pos : 0 < n
    pub len_fits : n ≤ 16
    pub new_page : (A.alloc fs.pages).1 ≢ 0
    pub result : r ≡ (
      store idx (new_entry idx) src (clip len) (record fs { pages = (A.alloc fs.pages).0 }),
      true,
    )

  -- The call fails, and leaves the files and their bytes as they were: the name's length is out of
  -- range; or no file has the name, and no slot is free, the allocator is not ready or it is full.
  pub record Fails (r : Fs S × Bool) : Type 0 where
    pub answer : r.1 ≡ false
    pub files : r.0.files ≡ fs.files
    pub memory : r.0.memory ≡ fs.memory
    pub pages : (r.0.pages ≡ fs.pages) ⊎ (r.0.pages ≡ (A.alloc fs.pages).0)
    pub reason :
        (n ≡ 0)
        ⊎ ((16 < n)
            ⊎ (((j : ℕ) → j < 32 → (fs.files j).used ≡ true)
                ⊎ ((A.ready fs.pages ≡ false) ⊎ ((A.alloc fs.pages).1 ≡ 0))))

  Outcome : Array ℕ → ℕ → Fs S × Bool → Type 0
  Outcome src len r =
      ((idx : ℕ) × Overwrites src len idx r) ⊎ (((idx : ℕ) × Creates src len idx r) ⊎ Fails r)

  write_fresh_cases :
      (src : Array ℕ) (len idx : ℕ)
      → idx < 32
      → (fs.files idx).used ≡ false
      → ((j : ℕ) → j < 32 → ¬ Holds name n (fs.files j))
      → 0 < n
      → n ≤ 16
      → Outcome src len (write_slot A name n src (clip len) idx fs)
  unfolding write_slot Outcome
  write_fresh_cases src len idx lt free none_has lo hi = elim (Bool-cases (A.ready fs.pages)) [
    | inr unready ↦
        rw (free, unready)
          (inr (
            inr (record {
              answer = refl;
              files = refl;
              memory = refl;
              pages = inl refl;
              reason = inr (inr (inr (inl unready)));
            })))
    | inl ready ↦ elim (Bool-cases ((A.alloc fs.pages).1 == 0)) [
      | inl full ↦
          rw (free, ready, full)
            (inr (
              inr (record {
                answer = refl;
                files = refl;
                memory = refl;
                pages = inr refl;
                reason = inr (inr (inr (inr (ground arith))));
              })))
      | inr got ↦
          rw (free, ready, got)
            (inr (
              inl (
                idx,
                record {
                  slot = lt;
                  vacant = free;
                  absent = none_has;
                  len_pos = lo;
                  len_fits = hi;
                  new_page = ground arith;
                  result = refl;
                },
              )))
    ]
  ]

  -- `Write` overwrites the file of that name in its own slot and page; or creates it in the first free
  -- slot, in a new page; or fails, for one of the reasons of `Fails`, and changes no file.
  pub write_cases :
      (src : Array ℕ) (len : ℕ)
      → ((idx : ℕ) × Overwrites src len idx (write A name n src len fs))
        ⊎ (((idx : ℕ) × Creates src len idx (write A name n src len fs))
            ⊎ Fails (write A name n src len fs))
  unfolding write pick_slot
  write_cases src len = elim (Bool-cases (n == 0 || ltb 16 n)) [
    | inl bad ↦ rw bad (
        inr (
          inr (record {
            answer = refl;
            files = refl;
            memory = refl;
            pages = inl refl;
            reason = ground arith;
          })))
    | inr fine ↦
        let lo : 0 < n = ground arith in
        let hi : n ≤ 16 = ground arith in
        rw fine (elim (find_by_name_cases name n fs.files) [
          | inl (idx, e, lt, h, _, _) ↦ rw e (
              inl
                (idx, record { slot = lt; here = h; result = (unfold write_slot in rw (h.used)) }))
          | inr (e, all) ↦ rw e (elim (find_free_slot_cases name n fs.files) [
            | inl (idx, f, lt, free) ↦
                rw f (unfold Outcome in write_fresh_cases src len idx lt free (all lo hi) lo hi)
            | inr (f, used) ↦ rw f (
                inr (
                  inr (record {
                    answer = refl;
                    files = refl;
                    memory = refl;
                    pages = inl refl;
                    reason = inr (inr (inl used));
                  })))
          ])
        ])
  ]

  -- The file is removed: its slot is empty, and its page goes back.
  pub record Removes (idx : ℕ) (r : Fs S × Bool) : Type 0 where
    pub slot : idx < 32
    pub here : Holds name n (fs.files idx)
    pub answer : r.1 ≡ true
    pub files :
        r.0.files
        ≡ update fs.files idx
            (record (fs.files idx) { used = false; name_len = 0; size = 0; page = 0 })
    pub memory : r.0.memory ≡ fs.memory
    pub pages :
        r.0.pages
        ≡ (if (fs.files idx).page == 0 then fs.pages else (A.free (fs.files idx).page fs.pages).0)

  -- `Remove` clears the slot of the file of that name and frees its page; or no file has the name, and
  -- it answers false and changes nothing.
  pub remove_cases :
      ((idx : ℕ) × Removes idx (remove A name n fs))
      ⊎ ((remove A name n fs ≡ (fs, false))
          × (0 < n → n ≤ 16 → (j : ℕ) → j < 32 → ¬ Holds name n (fs.files j)))
  unfolding remove
  remove_cases = elim (find_by_name_cases name n fs.files) [
    | inr (e, none_has) ↦ rw (e, remove) (inr (refl, none_has))
    | inl (idx, e, lt, h, _, _) ↦
        rw (e, remove)
          (inl (
            idx,
            record {
              slot = lt;
              here = h;
              answer = refl;
              files = refl;
              memory = refl;
              pages = ground (arith, h.used);
            },
          ))
  ]
