-- ===== src/Fs/Contents.antt =====
-- fs/fs.go as a dictionary from names to data: what a file's bytes are after each operation.
use mathlib.Core.Path.{sym, ap₂, ◌∙◌}
use go_dav_os.Base.{
  ℕ, zero, suc, ◌+◌, ◌-◌, ◌<◌, ◌≤◌, ◌≡◌, ◌⊎◌, inl, inr, refl, false, ◌||◌, Option, none, some, List,
  ◌∷◌, Array, slice, ltb, ◌==◌, arith,
}
use go_dav_os.Base.Search.{find_first_only}
use go_dav_os.PageAllocator.{PageAllocator}
use go_dav_os.Fs.{FileEntry, Fs, lookup, find_by_name, copy_data, entry_matches}
use go_dav_os.Fs.Names.{Holds, entry_matches-Holds, Holds-entry_matches}
use go_dav_os.Fs.Inv.{Alike, IsValid}
use go_dav_os.Fs.Store.{find_by_name_cases}

module _ {S : Type 0} where
  -- The bytes that the shell's `cat` prints: those of the file's page, up to its size.
  unfoldable pub cat : Array ℕ → ℕ → Fs S → Option (List ℕ)
  cat name n fs = elim (lookup name n fs) [
    | none ↦ none
    | some (page, size) ↦ some (slice fs.memory page size)
  ]

pub slice-copy_data :
    (base : ℕ) (src : Array ℕ) (n : ℕ) (memory : Array ℕ) (i m : ℕ)
    → i + m ≡ n
    → slice (copy_data base src n memory) (base + i) m ≡ slice src i m
unfolding copy_data
slice-copy_data base src n memory i zero e = refl
slice-copy_data base src n memory i (suc m) e =
    let next : base + i + 1 ≡ base + (i + 1) = omega arith in
    ap₂ ◌∷◌ here (rw next (slice-copy_data base src n memory (i + 1) m (omega arith)))
  where
    here : copy_data base src n memory (base + i) ≡ src i
    here = let off : base + i - base ≡ i = omega arith in ground (arith, off)

pub slice-copy_data_apart :
    (base : ℕ) (src : Array ℕ) (n : ℕ) (memory : Array ℕ) (a m : ℕ)
    → (a + m ≤ base) ⊎ (base + n ≤ a)
    → slice (copy_data base src n memory) a m ≡ slice memory a m
unfolding copy_data
slice-copy_data_apart base src n memory a zero h = refl
slice-copy_data_apart base src n memory a (suc m) h =
    ap₂ ◌∷◌ (ground arith) (slice-copy_data_apart base src n memory (a + 1) m (omega arith))

module _ {S : Type 0} (A : PageAllocator S) where
  Holds-Alike : {k : Array ℕ} {kn : ℕ} {e f : FileEntry} → Holds k kn e → Holds k kn f → Alike e f
  Holds-Alike h g = record {
    len = h.len ∙ sym g.len;
    bytes = λ j lt. h.bytes j (omega (arith, g.len)) ∙ sym (g.bytes j (omega (arith, g.len)));
  }

  find_by_name-Holds :
      (k : Array ℕ) (kn idx : ℕ) {fs : Fs S}
      → IsValid A fs
      → idx < 32
      → Holds k kn (fs.files idx)
      → find_by_name k kn fs.files ≡ some idx
  unfolding find_by_name
  find_by_name-Holds k kn idx {fs} v lt h =
      let f = v.file idx lt h.used in
      let named : (kn == 0 || ltb 16 kn) ≡ false = ground (arith, f.len_pos, f.len_fits, h.len) in
      let found =
        find_first_only (λ i. entry_matches k kn (fs.files i)) 32 idx lt (Holds-entry_matches h)
          (λ j lj m.
            let g = entry_matches-Holds k kn (fs.files j) m in
            v.alone j idx lj lt g.used h.used (Holds-Alike g h)) in
      rw named found

  -- Where slot `idx` holds the name, the file read is that slot's.
  pub cat-Holds :
      (k : Array ℕ) (kn idx : ℕ) {fs : Fs S}
      → IsValid A fs
      → idx < 32
      → Holds k kn (fs.files idx)
      → cat k kn fs ≡ some (slice fs.memory (fs.files idx).page (fs.files idx).size)
  unfolding cat lookup
  cat-Holds k kn idx v lt h = rw (find_by_name-Holds k kn idx v lt h, cat, lookup)

  pub cat-none :
      (k : Array ℕ) (kn : ℕ) (fs : Fs S)
      → ((j : ℕ) → j < 32 → ¬ Holds k kn (fs.files j))
      → cat k kn fs ≡ none
  unfolding cat lookup
  cat-none k kn fs none_has = elim (find_by_name_cases k kn fs.files) [
    | inl (idx, e, lt, h, _, _) ↦ absurd (none_has idx lt h)
    | inr (e, _) ↦ rw (e, cat, lookup)
  ]
