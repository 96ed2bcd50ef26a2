-- ===== src/Syscall.antt =====
-- kernel/syscall/dispatch.go and abi.go: the system calls of a user program. What the handlers print
-- is a list of events, in their order; `user_return` is a call of `returnToKernel`.
pub mod Ranges
pub mod Write
mod Examples
use go_dav_os.Base.{
  ℕ, zero, suc, ◌+◌, ◌-◌, ◌*◌, ◌/◌, ◌%◌, ◌^◌, Bool, true, false, not, ◌&&◌, ◌||◌, Option, none,
  some, List, [], ◌∷◌, ◌++◌, Array, ltb, leb, ◌==◌, if◌then◌else◌,
}

abbrev pub sys_write_number : ℕ
sys_write_number = 1

abbrev pub sys_exit_number : ℕ
sys_exit_number = 2

abbrev pub sys_get_ticks_number : ℕ
sys_get_ticks_number = 3

abbrev pub user_va_start : ℕ
user_va_start = 0x40000000

abbrev pub user_va_end : ℕ
user_va_end = 0x40002000

abbrev pub max_sys_write_bytes : ℕ
max_sys_write_bytes = 4096

-- `^uint64(0)`
abbrev pub syscall_error : ℕ
syscall_error = 2 ^ 64 - 1

pub record TrapFrame : Type 0 where
  pub r15 : ℕ
  pub r14 : ℕ
  pub r13 : ℕ
  pub r12 : ℕ
  pub r11 : ℕ
  pub r10 : ℕ
  pub r9 : ℕ
  pub r8 : ℕ
  pub rdi : ℕ
  pub rsi : ℕ
  pub rbp : ℕ
  pub rbx : ℕ
  pub rdx : ℕ
  pub rcx : ℕ
  pub rax : ℕ
  pub error_code : ℕ
  pub rip : ℕ
  pub cs : ℕ
  pub rflags : ℕ
  pub rsp : ℕ
  pub ss : ℕ

pub data Output : Type 0 where
  put_rune : ℕ → Output
  process_exited exit_rejected : ℕ → Output
  unknown_syscall user_return : Output

-- Memory, `sysWriteBuffer` and what has been printed.
pub record Kernel : Type 0 where
  pub memory : Array ℕ
  pub buffer : Array ℕ
  pub output : List Output

-- `validUserRange`, of two words; the subtraction wraps.
unfoldable pub valid_user_range : ℕ → ℕ → Bool
valid_user_range start length =
    if length == 0
    then true
    else if ltb start user_va_start || leb user_va_end start
    then false
    else leb length (user_va_end - user_va_start)
      && leb start ((user_va_end + 2 ^ 64 - length) % 2 ^ 64)

-- `copyFromUserBytes`, for a count that is not negative.
unfoldable pub copy_from_user_bytes : Array ℕ → Array ℕ → ℕ → ℕ → Array ℕ × Bool
copy_from_user_bytes memory dst count user_ptr =
    if ltb max_sys_write_bytes count
    then (dst, false)
    else if not (valid_user_range user_ptr count)
    then (dst, false)
    else ((λ i. if ltb i count then memory ((user_ptr + i) % 2 ^ 64) else dst i), true)

-- The events of the loop that prints the `n` bytes from `i` on.
unfoldable pub put_bytes : Array ℕ → ℕ → ℕ → List Output
put_bytes buf i zero = []
put_bytes buf i (suc n) = put_rune (buf i) ∷ put_bytes buf (i + 1) n

-- `sysWriteWithCopier`; the copier gets the buffer, the count and the address.
unfoldable pub sys_write_with_copier :
    (Array ℕ → ℕ → ℕ → Array ℕ × Bool) → ℕ → ℕ → ℕ → Kernel → Kernel × ℕ
sys_write_with_copier copier fd buf n k =
    let count = if ltb max_sys_write_bytes n then max_sys_write_bytes else n in
    let (copied, done) = copier k.buffer count buf in
    if not (fd == 1)
    then (k, syscall_error)
    else if n == 0
    then (k, 0)
    else if not done
    then (record k { buffer = copied }, syscall_error)
    else (record k { buffer = copied; output = k.output ++ put_bytes copied 0 count }, count)

-- `sysWrite`
unfoldable pub sys_write : ℕ → ℕ → ℕ → Kernel → Kernel × ℕ
sys_write fd buf n k = sys_write_with_copier (copy_from_user_bytes k.memory) fd buf n k

-- `Dispatch`. `ticks` is what `getTicks` answers, `none` for a nil function; `returns` is whether
-- `returnToKernel` is there.
unfoldable pub dispatch : Option ℕ → Bool → TrapFrame → Kernel → TrapFrame × Kernel
dispatch ticks returns tf k =
    let (written, answer) = sys_write tf.rdi tf.rsi tf.rdx k in
    let number = tf.rax % 2 ^ 32 in
    if number == sys_write_number
    then (record tf { rax = answer }, written)
    else if number == sys_exit_number
    then (if tf.cs % 4 == 3
        then (
          tf,
          record k {
            output = k.output ++ process_exited tf.rdi ∷ (if returns then user_return ∷ [] else []);
          },
        )
        else (
          record tf { rax = syscall_error },
          record k { output = k.output ++ exit_rejected tf.rdi ∷ [] },
        ))
    else if number == sys_get_ticks_number
    then (elim ticks [ none ↦ (record tf { rax = 0 }, k) | some t ↦ (record tf { rax = t }, k) ])
    else (record tf { rax = syscall_error }, record k { output = k.output ++ unknown_syscall ∷ [] })

-- `STARValue`, of two uint16 selectors; `&^ 3` clears the two low bits.
unfoldable pub star_value : ℕ → ℕ → ℕ
star_value kernel_cs user_cs =
    let base = (user_cs + 2 ^ 16 - 16) % 2 ^ 16 in
    (kernel_cs - kernel_cs % 4) * 2 ^ 32 + (base - base % 4) * 2 ^ 48
