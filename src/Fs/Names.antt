-- ===== src/Fs/Names.antt =====
-- fs/fs.go, `findByName`: when two names are the same.
use go_dav_os.Base.{ℕ, zero, suc, ◌+◌, ◌<◌, ◌≤◌, ◌≡◌, refl, true, Array, arith}
use go_dav_os.Fs.{names_match, FileEntry, entry_matches}

names_match_at :
    (n i : ℕ) (a b : Array ℕ) → names_match n i a b ≡ true → (j : ℕ) → i ≤ j → j < i + n → a j ≡ b j
unfolding names_match
names_match_at zero i a b h j lo hi = absurd (omega arith)
names_match_at (suc n) i a b h j lo hi =
    ground (arith, names_match_at n (i + 1) a b (ground arith) j)

names_match_of :
    (n i : ℕ) (a b : Array ℕ)
    → ((j : ℕ) → i ≤ j → j < i + n → a j ≡ b j)
    → names_match n i a b ≡ true
unfolding names_match
names_match_of zero i a b h = refl
names_match_of (suc n) i a b h = ground (
  arith,
  h i (omega arith) (omega arith),
  names_match_of n (i + 1) a b (λ j lo hi. h j (omega arith) (omega arith)),
)

-- The first `n` bytes agree.
abbrev pub SameName : ℕ → Array ℕ → Array ℕ → Type 0
SameName n a b = (j : ℕ) → j < n → a j ≡ b j

pub names_match-SameName : (n : ℕ) (a b : Array ℕ) → names_match n 0 a b ≡ true → SameName n a b
names_match-SameName n a b h j lt = names_match_at n 0 a b h j (omega arith) (omega arith)

pub SameName-names_match : (n : ℕ) (a b : Array ℕ) → SameName n a b → names_match n 0 a b ≡ true
SameName-names_match n a b h = names_match_of n 0 a b (λ j lo hi. h j (omega arith))

-- The entry is in use under the name.
pub record Holds (name : Array ℕ) (n : ℕ) (e : FileEntry) : Type 0 where
  pub used : e.used ≡ true
  pub len : e.name_len ≡ n
  pub bytes : SameName n e.name name

pub entry_matches-Holds :
    (name : Array ℕ) (n : ℕ) (e : FileEntry) → entry_matches name n e ≡ true → Holds name n e
unfolding entry_matches
entry_matches-Holds name n e h = record {
  used = ground arith;
  len = ground arith;
  bytes = names_match-SameName n e.name name (ground arith);
}

pub Holds-entry_matches :
    {name : Array ℕ} {n : ℕ} {e : FileEntry} → Holds name n e → entry_matches name n e ≡ true
unfolding entry_matches
Holds-entry_matches {name} {n} {e} h =
    ground (arith, h.used, h.len, SameName-names_match n e.name name h.bytes)
