-- ===== src/Fs/Dictionary.antt =====
-- fs/fs.go as a dictionary from names to data: what each operation does to every file.
use mathlib.Core.Path.{sym, ap, ap₂, ◌∙◌}
use go_dav_os.Base.{
  ℕ, ◌+◌, ◌<◌, ◌≡◌, ◌≢◌, inl, inr, refl, Bool, true, false, ◌&&◌, some, Array, slice, update, ◌==◌,
  if◌then◌else◌, arith, Bool-cases,
}
use go_dav_os.PageAllocator.{PageAllocator}
use go_dav_os.Fs.{FileEntry, Fs, lookup, names_match, copy_name, copy_data, store, write}
use go_dav_os.Fs.Names.{SameName, Holds, names_match-SameName, SameName-names_match}
use go_dav_os.Fs.Inv.{IsValid}
use go_dav_os.Fs.Store.{clip, new_entry, Overwrites, Creates, write_cases, find_by_name_cases}
use go_dav_os.Fs.Keeps.{write-IsValid}
use go_dav_os.Fs.Contents.{cat, cat-Holds, cat-none, slice-copy_data, slice-copy_data_apart}

-- Two names are the same.
abbrev pub same_name : Array ℕ → ℕ → Array ℕ → ℕ → Bool
same_name a m b n = m == n && names_match n 0 a b

cat_ext :
    {S : Type 0} (k : Array ℕ) (kn : ℕ) (r s : Fs S)
    → r.files ≡ s.files
    → r.memory ≡ s.memory
    → cat k kn r ≡ cat k kn s
unfolding cat lookup
cat_ext {S} k kn r s p q =
    ap₂
      (λ (f : Array FileEntry) (m : Array ℕ).
        cat {S = S} k kn (record { files = f; memory = m; pages = r.pages }))
      p q

module _ {S : Type 0} (A : PageAllocator S) (name : Array ℕ) (n : ℕ) {fs : Fs S}
    (v : IsValid A fs) where
  -- What a successful `Write` has done, whether the file was there or not.
  record Stored (src : Array ℕ) (len idx : ℕ) (e : FileEntry) (r : Fs S × Bool) : Type 0 where
    slot : idx < 32
    files : r.0.files ≡ update fs.files idx e
    memory : r.0.memory ≡ copy_data e.page src (clip len) fs.memory
    size : e.size ≡ clip len
    holds : Holds name n e
    old : (k : Array ℕ) (kn : ℕ) → Holds k kn (fs.files idx) → (kn ≡ n) × SameName n k name

  Overwrites-Stored :
      (src : Array ℕ) (len idx : ℕ) {r : Fs S × Bool}
      → Overwrites A name n fs src len idx r
      → Stored src len idx (record (fs.files idx) { size = clip len }) r
  unfolding store
  Overwrites-Stored src len idx o = record {
    slot = o.slot;
    files = ap (λ (r : Fs S × Bool). r.0.files) o.result;
    memory = ap (λ (r : Fs S × Bool). r.0.memory) o.result;
    size = refl;
    holds = record { used = o.here.used; len = o.here.len; bytes = o.here.bytes };
    old = λ k kn h. (
      sym h.len ∙ o.here.len,
      λ j lt. sym (h.bytes j (omega (arith, h.len, o.here.len))) ∙ o.here.bytes j lt,
    );
  }

  Creates-Stored :
      (src : Array ℕ) (len idx : ℕ) {r : Fs S × Bool}
      → Creates A name n fs src len idx r
      → Stored src len idx (record (new_entry A name n fs idx) { size = clip len }) r
  unfolding store copy_name
  Creates-Stored src len idx c = record {
    slot = c.slot;
    files = ap (λ (r : Fs S × Bool). r.0.files) c.result;
    memory = ap (λ (r : Fs S × Bool). r.0.memory) c.result;
    size = refl;
    holds = record { used = refl; len = refl; bytes = λ j lt. ground arith };
    old = λ k kn h. ground (arith, c.vacant, h.used);
  }

  -- The file under the name is the data; the files under other names are as before.
  module _ (src : Array ℕ) (len idx : ℕ) (e : FileEntry) (r : Fs S × Bool)
      (st : Stored src len idx e r) (v' : IsValid A r.0) where
    at_slot : r.0.files idx ≡ e
    at_slot = rw (st.files) (ground arith)

    elsewhere : (j : ℕ) → j ≢ idx → r.0.files j ≡ fs.files j
    elsewhere j ne = rw (st.files) (ground arith)

    cat_stored :
        (k : Array ℕ) (kn : ℕ)
        → kn ≡ n
        → SameName n k name
        → cat k kn r.0 ≡ some (slice src 0 (clip len))
    cat_stored k kn en same =
        let h : Holds k kn (r.0.files idx) = rw at_slot (record {
          used = st.holds.used;
          len = st.holds.len ∙ sym en;
          bytes = λ j lt. st.holds.bytes j (omega arith) ∙ sym (same j (omega arith));
        }) in
        cat-Holds A k kn idx v' st.slot h
        ∙ ap some (rw (at_slot, st.memory, st.size) (copied e.page))
      where
        copied :
            (p : ℕ)
            → slice (copy_data p src (clip len) fs.memory) p (clip len) ≡ slice src 0 (clip len)
        copied p =
            let q : p + 0 ≡ p = omega arith in
            rw q at (slice-copy_data p src (clip len) fs.memory 0 (clip len) (omega arith))

    still_absent :
        (k : Array ℕ) (kn : ℕ)
        → ¬ ((kn ≡ n) × SameName n k name)
        → ((j : ℕ) → j < 32 → ¬ Holds k kn (fs.files j))
        → (j : ℕ) → j < 32
        → ¬ Holds k kn (r.0.files j)
    still_absent k kn differ none_has j lt h = elim (Bool-cases (j == idx)) [
      | inr other ↦ none_has j lt (rw (elsewhere j (ground arith)) at h)
      | inl same ↦
          let je : j ≡ idx = ground arith in
          let g : Holds k kn e = rw at_slot at (rw je at h) in
          differ (
            sym g.len ∙ st.holds.len,
            λ i li. sym (g.bytes i (omega (arith, g.len, st.holds.len))) ∙ st.holds.bytes i li,
          )
    ]

    cat_same_slot :
        (k : Array ℕ) (kn j : ℕ)
        → j < 32
        → j ≢ idx
        → Holds k kn (fs.files j)
        → cat k kn r.0 ≡ cat k kn fs
    cat_same_slot k kn j lt ne h =
        let q = elsewhere j ne in
        let f = v.file j lt h.used in
        let used' : (r.0.files j).used ≡ true = rw q h.used in
        let usede : (r.0.files idx).used ≡ true = rw at_slot st.holds.used in
        let apart : (fs.files j).page ≢ e.page =
          λ p. v'.apart j idx lt st.slot used' usede ne (rw (q, at_slot) p) in
        cat-Holds A k kn j v' lt (rw q h)
        ∙ ap some (
            rw (q, st.memory)
              (slice-copy_data_apart e.page src (clip len) fs.memory (fs.files j).page
                (fs.files j).size
                (ground (
                  arith,
                  f.size,
                  apart,
                  rw at_slot at
                      (A.held_aligned r.0.pages (r.0.files idx).page (v'.held idx st.slot usede)),
                  A.held_aligned fs.pages (fs.files j).page (v.held j lt h.used),
                ))))
        ∙ sym (cat-Holds A k kn j v lt h)

    cat_other :
        (k : Array ℕ) (kn : ℕ) → ¬ ((kn ≡ n) × SameName n k name) → cat k kn r.0 ≡ cat k kn fs
    cat_other k kn differ = elim (find_by_name_cases k kn fs.files) [
      | inr (_, none_has) ↦
          let nowhere = λ (j : ℕ) (lt : j < 32) (h : Holds k kn (fs.files j)).
            let f = v.file j lt h.used in
            none_has (omega (arith, f.len_pos, h.len)) (omega (arith, f.len_fits, h.len)) j lt h in
          cat-none A k kn r.0 (still_absent k kn differ nowhere) ∙ sym (cat-none A k kn fs nowhere)
      | inl (j, _, lt, h, _, _) ↦
          cat_same_slot k kn j lt (λ je. differ (st.old k kn (rw je at h))) h
    ]

    cat_after :
        (k : Array ℕ) (kn : ℕ)
        → cat k kn r.0
          ≡ (if same_name k kn name n then some (slice src 0 (clip len)) else cat k kn fs)
    cat_after k kn = elim (Bool-cases (same_name k kn name n)) [
      | inl same ↦
          rw same (cat_stored k kn (ground arith) (names_match-SameName n k name (ground arith)))
      | inr other ↦
          rw other (cat_other k kn (λ p. ground (arith, p.0, SameName-names_match n k name p.1)))
    ]

  -- After a `Write` into a valid file table that succeeds, the name holds the data, cut at a page, and
  -- every other name holds what it held before.
  pub cat-write :
      (src : Array ℕ) (len : ℕ) (k : Array ℕ) (kn : ℕ)
      → (write A name n src len fs).1 ≡ true
      → cat k kn (write A name n src len fs).0
        ≡ (if same_name k kn name n then some (slice src 0 (clip len)) else cat k kn fs)
  cat-write src len k kn done =
      let v' = write-IsValid A name n v src len in
      elim (write_cases A name n fs src len) [
        | inl (idx, o) ↦ cat_after src len idx _ _ (Overwrites-Stored src len idx o) v' k kn
        | inr (inl (idx, c)) ↦ cat_after src len idx _ _ (Creates-Stored src len idx c) v' k kn
        | inr (inr f) ↦ ground (arith, done, f.answer)
      ]

  -- A `Write` that fails changes no file.
  pub cat-write_failed :
      (src : Array ℕ) (len : ℕ) (k : Array ℕ) (kn : ℕ)
      → (write A name n src len fs).1 ≡ false
      → cat k kn (write A name n src len fs).0 ≡ cat k kn fs
  cat-write_failed src len k kn done = elim (write_cases A name n fs src len) [
    | inl (idx, o) ↦ ground (arith, done, ap (λ (r : Fs S × Bool). r.1) o.result)
    | inr (inl (idx, c)) ↦ ground (arith, done, ap (λ (r : Fs S × Bool). r.1) c.result)
    | inr (inr f) ↦ cat_ext k kn _ fs f.files f.memory
  ]
