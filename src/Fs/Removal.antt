-- ===== src/Fs/Removal.antt =====
-- fs/fs.go as a dictionary from names to data: what `Remove` does to every file.
use mathlib.Core.Path.{sym, ap, ◌∙◌}
use go_dav_os.Base.{
  ℕ, ◌<◌, ◌≡◌, ◌≢◌, inl, inr, Bool, true, false, none, some, Array, ◌==◌, if◌then◌else◌, arith,
  Bool-cases,
}
use go_dav_os.PageAllocator.{PageAllocator}
use go_dav_os.Fs.{Fs, remove}
use go_dav_os.Fs.Names.{Holds, names_match-SameName, SameName-names_match}
use go_dav_os.Fs.Inv.{IsValid}
use go_dav_os.Fs.Store.{Removes, remove_cases, find_by_name_cases}
use go_dav_os.Fs.Keeps.{remove-IsValid}
use go_dav_os.Fs.Contents.{cat, cat-Holds, cat-none}
use go_dav_os.Fs.Dictionary.{same_name}

module _ {S : Type 0} (A : PageAllocator S) (name : Array ℕ) (n : ℕ) {fs : Fs S}
    (v : IsValid A fs) where
  removed_slot :
      (idx : ℕ) (r : Fs S × Bool)
      → Removes A name n fs idx r
      → ((r.0.files idx).used ≡ false) × ((j : ℕ) → j ≢ idx → r.0.files j ≡ fs.files j)
  removed_slot idx r m = (rw m.files (ground arith), λ j ne. rw m.files (ground arith))

  removed_absent :
      (idx : ℕ) (r : Fs S × Bool)
      → Removes A name n fs idx r
      → (k : Array ℕ) (kn : ℕ) → ((j : ℕ) → j < 32 → j ≢ idx → ¬ Holds k kn (fs.files j))
      → (j : ℕ) → j < 32
      → ¬ Holds k kn (r.0.files j)
  removed_absent idx r m k kn none_has j lt h = elim (Bool-cases (j == idx)) [
    | inr other ↦
        let ne : j ≢ idx = ground arith in
        none_has j lt ne (rw ((removed_slot idx r m).1 j ne) at h)
    | inl same ↦
        let je : j ≡ idx = ground arith in
        let u : (r.0.files idx).used ≡ true = rw je at h.used in
        ground (arith, u, (removed_slot idx r m).0)
  ]

  cat_removed :
      (idx : ℕ) (r : Fs S × Bool)
      → Removes A name n fs idx r
      → IsValid A r.0
      → (k : Array ℕ) (kn : ℕ)
      → cat k kn r.0 ≡ (if same_name k kn name n then none else cat k kn fs)
  cat_removed idx r m v' k kn = elim (Bool-cases (same_name k kn name n)) [
    | inl same ↦
        let en : kn ≡ n = ground arith in
        let bytes = names_match-SameName n k name (ground arith) in
        rw same (
          cat-none A k kn r.0 (
            removed_absent idx r m k kn (λ j lt ne h. ne (
              v.alone j idx lt m.slot h.used m.here.used (record {
                len = h.len ∙ en ∙ sym m.here.len;
                bytes = λ i li.
                    h.bytes i (omega (arith, m.here.len))
                    ∙ bytes i (omega (arith, m.here.len))
                    ∙ sym (m.here.bytes i (omega (arith, m.here.len)));
              })))))
    | inr other ↦ rw other (elim (find_by_name_cases k kn fs.files) [
      | inl (j, _, lt, h, _, _) ↦
          let ne : j ≢ idx = λ je.
            let g : Holds k kn (fs.files idx) = rw je at h in
            let sn =
              SameName-names_match n k name
                (λ i li. sym (g.bytes i (omega (arith, g.len, m.here.len))) ∙ m.here.bytes i li) in
            ground (arith, sn, g.len, m.here.len) in
          let q = (removed_slot idx r m).1 j ne in
          cat-Holds A k kn j v' lt (rw q h)
          ∙ ap some (rw (q, m.memory))
          ∙ sym (cat-Holds A k kn j v lt h)
      | inr (_, none_has) ↦
          let nowhere = λ (j : ℕ) (lt : j < 32) (h : Holds k kn (fs.files j)).
            let f = v.file j lt h.used in
            none_has (omega (arith, f.len_pos, h.len)) (omega (arith, f.len_fits, h.len)) j lt h in
          cat-none A k kn r.0 (removed_absent idx r m k kn (λ j lt ne. nowhere j lt))
          ∙ sym (cat-none A k kn fs nowhere)
    ])
  ]

  -- After `Remove` from a valid file table no file has the name, and every other name holds what it
  -- held before. This is so also if no file had the name.
  pub cat-remove :
      (k : Array ℕ) (kn : ℕ)
      → cat k kn (remove A name n fs).0 ≡ (if same_name k kn name n then none else cat k kn fs)
  cat-remove k kn = elim (remove_cases A name n fs) [
    | inl (idx, m) ↦ cat_removed idx (remove A name n fs) m (remove-IsValid A name n v) k kn
    | inr (e, none_has) ↦ rw e (elim (Bool-cases (same_name k kn name n)) [
      | inr other ↦ rw other
      | inl same ↦
          let en : kn ≡ n = ground arith in
          let bytes = names_match-SameName n k name (ground arith) in
          rw same (
            cat-none A k kn fs (λ j lt h.
              let f = v.file j lt h.used in
              none_has (omega (arith, f.len_pos, h.len, en)) (omega (arith, f.len_fits, h.len, en))
                j lt
                (record {
                  used = h.used;
                  len = h.len ∙ en;
                  bytes = λ i li. h.bytes i (omega (arith, en)) ∙ bytes i li;
                })))
    ])
  ]
