-- ===== src/Fs/Inv.antt =====
-- fs/fs.go: the invariant of the file table.
use mathlib.Core.Path.{sym}
use go_dav_os.Base.{
  ℕ, ◌<◌, ◌≤◌, ◌≡◌, ◌≢◌, ◌⊎◌, inl, inr, true, Array, update, ◌==◌, arith, Bool-cases,
}
use go_dav_os.PageAllocator.{PageAllocator}
use go_dav_os.Fs.{FileEntry, Fs}
use go_dav_os.Fs.Names.{SameName}

-- A file's name is not empty and fits, and so does its data.
pub record IsFile (e : FileEntry) : Type 0 where
  pub size : e.size ≤ 4096
  pub len_pos : 0 < e.name_len
  pub len_fits : e.name_len ≤ 16

-- Two entries have the same name.
pub record Alike (e f : FileEntry) : Type 0 where
  pub len : e.name_len ≡ f.name_len
  pub bytes : SameName f.name_len e.name f.name

module _ {S : Type 0} (A : PageAllocator S) where
  -- Files are well formed and own distinct pages, and no two have the same name.
  pub record IsValid (fs : Fs S) : Type 0 where
    pub good : A.IsGood fs.pages
    pub file : (i : ℕ) → i < 32 → (fs.files i).used ≡ true → IsFile (fs.files i)
    pub held : (i : ℕ) → i < 32 → (fs.files i).used ≡ true → A.IsHeld fs.pages (fs.files i).page
    pub apart :
        (i j : ℕ)
        → i < 32
        → j < 32
        → (fs.files i).used ≡ true
        → (fs.files j).used ≡ true
        → i ≢ j
        → (fs.files i).page ≢ (fs.files j).page
    pub alone :
        (i j : ℕ)
        → i < 32
        → j < 32
        → (fs.files i).used ≡ true
        → (fs.files j).used ≡ true
        → Alike (fs.files i) (fs.files j)
        → i ≡ j

  -- A file `e` for slot `idx`, and what it needs of the other slots and of the allocator.
  pub record Fits (fs : Fs S) (pages : S) (idx : ℕ) (e : FileEntry) : Type 0 where
    pub file : IsFile e
    pub held : A.IsHeld pages e.page
    pub apart : (j : ℕ) → j < 32 → j ≢ idx → (fs.files j).used ≡ true → (fs.files j).page ≢ e.page
    pub alone : (j : ℕ) → j < 32 → j ≢ idx → (fs.files j).used ≡ true → ¬ Alike (fs.files j) e

  Alike-sym : {e f : FileEntry} → Alike e f → Alike f e
  Alike-sym {e} {f} h = record {
    len = sym h.len;
    bytes = λ j lt. sym (h.bytes j (omega (arith, h.len)));
  }

  -- Putting a file that fits, or an empty entry, into a slot keeps the invariant.
  module _ {fs : Fs S} (v : IsValid fs) (idx : ℕ) (e : FileEntry) (memory : Array ℕ) (pages : S)
      (good : A.IsGood pages)
      (others : (j : ℕ)
        → j < 32
        → j ≢ idx
        → (fs.files j).used ≡ true
        → A.IsHeld pages (fs.files j).page)
      (own : e.used ≡ true → Fits fs pages idx e) where
    abbrev files : Array FileEntry
    files = update fs.files idx e

    slot_cases : (i : ℕ) → ((i ≡ idx) × (files i ≡ e)) ⊎ ((i ≢ idx) × (files i ≡ fs.files i))
    slot_cases i = elim (Bool-cases (i == idx)) [
      | inl same ↦ inl (ground arith, ground arith)
      | inr other ↦ inr (ground arith, ground arith)
    ]

    pub replace-IsValid : IsValid (record { files = files; memory = memory; pages = pages })
    replace-IsValid = record {
      good = good;
      file = λ i lt u. elim (slot_cases i) [
        | inl (_, q) ↦ rw q (own (rw q at u)).file
        | inr (_, q) ↦ rw q (v.file i lt (rw q at u))
      ];
      held = λ i lt u. elim (slot_cases i) [
        | inl (_, q) ↦ rw q (own (rw q at u)).held
        | inr (n, q) ↦ rw q (others i lt n (rw q at u))
      ];
      apart = λ i j li lj ui uj ne. elim (slot_cases i) [
        | inl (a, q) ↦ elim (slot_cases j) [
          | inl (b, _) ↦ absurd (omega arith)
          | inr (n, r) ↦ rw (q, r) (λ p. (own (rw q at ui)).apart j lj n (rw r at uj) (sym p))
        ]
        | inr (m, q) ↦ elim (slot_cases j) [
          | inl (_, r) ↦ rw (q, r) ((own (rw r at uj)).apart i li m (rw q at ui))
          | inr (n, r) ↦ rw (q, r) (v.apart i j li lj (rw q at ui) (rw r at uj) ne)
        ]
      ];
      alone = λ i j li lj ui uj al. elim (slot_cases i) [
        | inl (a, q) ↦ elim (slot_cases j) [
          | inl (b, _) ↦ omega arith
          | inr (n, r) ↦
              absurd ((own (rw q at ui)).alone j lj n (rw r at uj) (Alike-sym (rw (q, r) at al)))
        ]
        | inr (m, q) ↦ elim (slot_cases j) [
          | inl (_, r) ↦ absurd ((own (rw r at uj)).alone i li m (rw q at ui) (rw (q, r) at al))
          | inr (n, r) ↦ v.alone i j li lj (rw q at ui) (rw r at uj) (rw (q, r) at al)
        ]
      ];
    }
