-- ===== src/Syscall/Write.antt =====
-- kernel/syscall/dispatch.go: `sysWrite`, and what a call leaves of the registers.
use mathlib.Core.Path.{ap, ap₂, sym}
use go_dav_os.Base.{
  ℕ, zero, suc, ◌+◌, ◌%◌, ◌^◌, ◌<◌, ◌≤◌, ◌≡◌, ◌⊎◌, refl, Bool, true, false, Option, List, [], ◌∷◌,
  ◌++◌, Array, ltb, ◌==◌, if◌then◌else◌, arith, Bool-cases, inl, inr,
}
use go_dav_os.Syscall.{
  TrapFrame, Output, put_rune, Kernel, valid_user_range, copy_from_user_bytes, put_bytes,
  sys_write_with_copier, sys_write, dispatch, syscall_error,
}
use go_dav_os.Syscall.Ranges.{InWindow, valid_user_range_sound}

put_bytes_ext :
    (a b : Array ℕ) (i j n : ℕ)
    → ((m : ℕ) → m < n → a (i + m) ≡ b (j + m))
    → put_bytes a i n ≡ put_bytes b j n
unfolding put_bytes
put_bytes_ext a b i j zero same = refl
put_bytes_ext a b i j (suc n) same =
    let i0 : i + 0 ≡ i = omega arith in
    let j0 : j + 0 ≡ j = omega arith in
    ap₂ (λ x xs. put_rune x ∷ xs) (rw (i0, j0) at (same 0 (omega arith)))
      (put_bytes_ext a b (i + 1) (j + 1) n (λ m lt.
        let im : i + 1 + m ≡ i + (m + 1) = omega arith in
        let jm : j + 1 + m ≡ j + (m + 1) = omega arith in
        rw (im, jm) (same (m + 1) (omega (arith, lt)))))

append_nil : (xs : List Output) → xs ++ [] ≡ xs
append_nil [] = refl
append_nil (x ∷ xs) = ap (λ ys. x ∷ ys) (append_nil xs)

-- What the copy holds of the program's bytes.
copied_bytes :
    (memory dst : Array ℕ) (buf count : ℕ)
    → (count ≡ 0) ⊎ InWindow buf count
    → put_bytes (λ i. if ltb i count then memory ((buf + i) % 2 ^ 64) else dst i) 0 count
      ≡ put_bytes memory buf count
copied_bytes memory dst buf count inside = put_bytes_ext _ memory 0 buf count (λ m lt.
    let low : ltb (0 + m) count ≡ true = ground (arith, lt) in
    let place : (buf + (0 + m)) % 2 ^ 64 ≡ buf + m = omega (arith, inside, lt) in
    rw (low, place) refl)

-- `sysWrite` answers an error and prints nothing; or it prints the program's bytes, at most 4096, all
-- from inside the program's window, and answers how many.
pub sys_write_cases :
    (fd buf n : ℕ) (k : Kernel)
    → (((sys_write fd buf n k).1 ≡ syscall_error) × ((sys_write fd buf n k).0.output ≡ k.output))
      ⊎ ((count : ℕ) × ((sys_write fd buf n k).1 ≡ count)
          × (count ≤ n)
          × (count ≤ 4096)
          × ((count ≡ 0) ⊎ InWindow buf count)
          × ((sys_write fd buf n k).0.output ≡ k.output ++ put_bytes k.memory buf count))
unfolding sys_write sys_write_with_copier copy_from_user_bytes put_bytes
sys_write_cases fd buf n k =
    let count = if ltb 4096 n then 4096 else n in
    elim (Bool-cases (fd == 1)) [
      | inr other ↦ rw other (inl (refl, refl))
      | inl out ↦ elim (Bool-cases (n == 0)) [
        | inl zero_bytes ↦
            rw (out, zero_bytes)
              (inr (0, refl, omega arith, omega arith, inl refl, sym (append_nil k.output)))
        | inr some_bytes ↦
            let fits : ltb 4096 count ≡ false = ground arith in
            elim (Bool-cases (valid_user_range buf count)) [
              | inr bad ↦ rw (out, some_bytes, fits, bad) (inl (refl, refl))
              | inl good ↦
                  let inside = valid_user_range_sound buf count good in
                  rw (out, some_bytes, fits, good)
                    (inr (
                      count,
                      refl,
                      ground arith,
                      ground arith,
                      inside,
                      ap (λ xs. k.output ++ xs) (copied_bytes k.memory k.buffer buf count inside),
                    ))
            ]
      ]
    ]

-- A system call leaves every register but `rax` as it was, and memory too.
pub dispatch_keeps :
    (ticks : Option ℕ) (returns : Bool) (tf : TrapFrame) (k : Kernel)
    → ((dispatch ticks returns tf k).0 ≡ record tf { rax = (dispatch ticks returns tf k).0.rax })
      × ((dispatch ticks returns tf k).1.memory ≡ k.memory)
unfolding dispatch sys_write sys_write_with_copier
dispatch_keeps ticks returns tf k = ground arith
