-- ===== src/Fs/Keeps.antt =====
-- fs/fs.go: the operations and the invariant of the file table.
use mathlib.Core.Path.{subst, sym, ◌∙◌}
use go_dav_os.Base.{ℕ, ◌<◌, ◌≡◌, ◌⊎◌, inl, inr, refl, Bool, true, false, Array, arith}
use go_dav_os.PageAllocator.{PageAllocator}
use go_dav_os.Fs.{FileEntry, Fs, init, copy_name, copy_data, store, write, remove}
use go_dav_os.Fs.Inv.{IsValid, replace-IsValid}
use go_dav_os.Fs.Store.{clip, Overwrites, Creates, write_cases, Removes, remove_cases}

pub copied_bytes :
    (e : FileEntry) (name : Array ℕ) (n : ℕ)
    → ((copy_name e name n).used ≡ e.used)
      × ((copy_name e name n).page ≡ e.page)
      × ((copy_name e name n).name_len ≡ n)
      × ((j : ℕ) → j < n → (copy_name e name n).name j ≡ name j)
unfolding copy_name
copied_bytes e name n = (refl, refl, refl, λ j h. ground arith)

module _ {S : Type 0} (A : PageAllocator S) where
  -- After `Init` no slot is in use.
  pub init-IsValid : (fs : Fs S) → A.IsGood fs.pages → IsValid A (init fs)
  unfolding init
  init-IsValid fs good = record {
    good = good;
    file = λ i lt u. ground arith;
    held = λ i lt u. absurd (ground arith);
    apart = λ i j li lj ui uj ne. absurd (ground arith);
    alone = λ i j li lj ui uj al. ground arith;
  }

  module _ (name : Array ℕ) (n : ℕ) {fs : Fs S} (v : IsValid A fs) where
    overwrites-IsValid :
        (src : Array ℕ) (len idx : ℕ) {r : Fs S × Bool}
        → Overwrites A name n fs src len idx r
        → IsValid A r.0
    unfolding store
    overwrites-IsValid src len idx o =
        let e = fs.files idx in
        let f = v.file idx o.slot o.here.used in
        rw o.result (
          replace-IsValid A v idx (record e { size = clip len })
            (copy_data e.page src (clip len) fs.memory) fs.pages v.good (λ j lt ne u. v.held j lt u)
            (λ _. record {
              file = record { size = ground arith; len_pos = f.len_pos; len_fits = f.len_fits };
              held = v.held idx o.slot o.here.used;
              apart = λ j lt ne u. v.apart j idx lt o.slot u o.here.used ne;
              alone = λ j lt ne u al. ne (
                  v.alone j idx lt o.slot u o.here.used
                    (record { len = al.len; bytes = al.bytes }));
            }))

    creates-IsValid :
        (src : Array ℕ) (len idx : ℕ) {r : Fs S × Bool}
        → Creates A name n fs src len idx r
        → IsValid A r.0
    unfolding store
    creates-IsValid src len idx c =
        let e = record (fs.files idx) { used = true; page = (A.alloc fs.pages).1 } in
        let b = copied_bytes e name n in
        let fresh = A.alloc_new fs.pages v.good c.new_page in
        rw c.result (
          replace-IsValid A v idx (record (copy_name e name n) { size = clip len })
            (copy_data (copy_name e name n).page src (clip len) fs.memory) (A.alloc fs.pages).0
            (A.alloc_good fs.pages v.good)
            (λ j lt ne u. A.alloc_keeps fs.pages (fs.files j).page v.good (v.held j lt u))
            (λ _. record {
              file = record {
                size = ground arith;
                len_pos = omega (arith, b.2, c.len_pos);
                len_fits = omega (arith, b.2, c.len_fits);
              };
              held = rw b.1 fresh.1;
              apart = λ j lt ne u p. fresh.0 (subst (A.IsHeld fs.pages) (p ∙ b.1) (v.held j lt u));
              alone = λ j lt ne u al. c.absent j lt (record {
                used = u;
                len = al.len ∙ b.2;
                bytes = λ k h. al.bytes k (omega (arith, b.2, h)) ∙ b.3 k h;
              });
            }))

    -- The same files over an allocator that still holds their pages.
    same_files-IsValid :
        (r : Fs S)
        → r.files ≡ fs.files
        → (r.pages ≡ fs.pages) ⊎ (r.pages ≡ (A.alloc fs.pages).0)
        → IsValid A r
    same_files-IsValid r e p = record {
      good = good p;
      file = λ i lt u. rw e (v.file i lt (rw e at u));
      held = λ i lt u. rw e (held p i lt (rw e at u));
      apart = λ i j li lj ui uj ne. rw e (v.apart i j li lj (rw e at ui) (rw e at uj) ne);
      alone = λ i j li lj ui uj al. v.alone i j li lj (rw e at ui) (rw e at uj) (rw e at al);
    }
      where
        good : (r.pages ≡ fs.pages) ⊎ (r.pages ≡ (A.alloc fs.pages).0) → A.IsGood r.pages
        good (inl q) = rw q v.good
        good (inr q) = rw q (A.alloc_good fs.pages v.good)

        held :
            (r.pages ≡ fs.pages) ⊎ (r.pages ≡ (A.alloc fs.pages).0)
            → (i : ℕ) → i < 32
            → (fs.files i).used ≡ true
            → A.IsHeld r.pages (fs.files i).page
        held (inl q) i lt u = rw q (v.held i lt u)
        held (inr q) i lt u = rw q (A.alloc_keeps fs.pages (fs.files i).page v.good (v.held i lt u))

    removes-IsValid : (idx : ℕ) (r : Fs S × Bool) → Removes A name n fs idx r → IsValid A r.0
    removes-IsValid idx r m =
        let here = v.held idx m.slot m.here.used in
        let nz = A.held_nonzero fs.pages (fs.files idx).page v.good here in
        let p : r.0.pages ≡ (A.free (fs.files idx).page fs.pages).0 = ground (arith, m.pages, nz) in
        let files_lem =
          replace-IsValid A v idx
            (record (fs.files idx) { used = false; name_len = 0; size = 0; page = 0 }) r.0.memory
            r.0.pages (rw p (A.free_good fs.pages (fs.files idx).page v.good))
            (λ j lt ne u. rw p (
              A.free_keeps fs.pages (fs.files idx).page (fs.files j).page v.good
                (v.apart idx j m.slot lt m.here.used u (λ q. ne (sym q))) (v.held j lt u)))
            (λ u. ground arith) in
        rw (← m.files) at files_lem

    -- `Write` keeps the invariant on every branch.
    pub write-IsValid : (src : Array ℕ) (len : ℕ) → IsValid A (write A name n src len fs).0
    write-IsValid src len = elim (write_cases A name n fs src len) [
      | inl (idx, o) ↦ overwrites-IsValid src len idx o
      | inr (inl (idx, c)) ↦ creates-IsValid src len idx c
      | inr (inr f) ↦ same_files-IsValid (write A name n src len fs).0 f.files f.pages
    ]

    -- `Remove` keeps the invariant on every branch.
    pub remove-IsValid : IsValid A (remove A name n fs).0
    remove-IsValid = elim (remove_cases A name n fs) [
      | inl (idx, m) ↦ removes-IsValid idx (remove A name n fs) m
      | inr (e, _) ↦ rw e v
    ]

    -- `Write` and `Remove` keep the invariant of the file table on every branch.
    pub write-remove-IsValid :
        (src : Array ℕ) (len : ℕ)
        → IsValid A (write A name n src len fs).0 × IsValid A (remove A name n fs).0
    write-remove-IsValid src len = (write-IsValid src len, remove-IsValid)
