-- ===== src/Syscall/Ranges.antt =====
-- kernel/syscall/dispatch.go, `validUserRange`.
use go_dav_os.Base.{ℕ, ◌+◌, ◌≤◌, ◌≡◌, ◌⊎◌, true, arith}
use go_dav_os.Syscall.{valid_user_range}

-- The bytes from `start` on lie in the program's window, as a statement about numbers that do not
-- wrap.
abbrev pub InWindow : ℕ → ℕ → Type 0
InWindow start length = (0x40000000 ≤ start) × (start + length ≤ 0x40002000)

-- `validUserRange` accepts only the ranges inside the program's window of two pages, and the empty
-- ones, whatever the two words.
pub valid_user_range_sound :
    (start length : ℕ) → valid_user_range start length ≡ true → (length ≡ 0) ⊎ InWindow start length
unfolding valid_user_range
valid_user_range_sound start length e = ground arith

-- `validUserRange` accepts every range inside the window.
pub valid_user_range_complete :
    (start length : ℕ) → InWindow start length → valid_user_range start length ≡ true
unfolding valid_user_range
valid_user_range_complete start length w = ground (arith, w)
