-- ===== src/Syscall/Examples.antt =====
-- kernel/syscall/dispatch.go: calls of a program whose bytes are their own addresses.
use go_dav_os.Base.{ℕ, ◌≡◌, ◌≤◌, ◌⊎◌, refl, [], ◌++◌}
use go_dav_os.Syscall.{TrapFrame, Kernel, valid_user_range, put_bytes, sys_write, syscall_error}
use go_dav_os.Syscall.Ranges.{InWindow, valid_user_range_sound}
use go_dav_os.Syscall.Write.{sys_write_cases}

abbrev kernel : Kernel
kernel = record { memory = λ i. i; buffer = λ i. 0; output = [] }

-- `write(1, 0x40000010, 3)`
abbrev frame : TrapFrame
frame = record {
  r15 = 1;
  r14 = 2;
  r13 = 3;
  r12 = 4;
  r11 = 5;
  r10 = 6;
  r9 = 7;
  r8 = 8;
  rdi = 1;
  rsi = 0x40000010;
  rbp = 9;
  rbx = 10;
  rdx = 3;
  rcx = 11;
  rax = 1;
  error_code = 0;
  rip = 0x40000000;
  cs = 27;
  rflags = 2;
  rsp = 0x40002000;
  ss = 35;
}

valid_user_range_sound_example : ◌≡◌ {A = ℕ} 4096 0 ⊎ InWindow 0x40001000 4096
unfolding valid_user_range
valid_user_range_sound_example = valid_user_range_sound 0x40001000 4096 refl

sys_write_cases_example :
    (((sys_write 1 0x40000010 3 kernel).1 ≡ syscall_error)
      × ((sys_write 1 0x40000010 3 kernel).0.output ≡ kernel.output))
    ⊎ ((count : ℕ) × ((sys_write 1 0x40000010 3 kernel).1 ≡ count)
        × (count ≤ 3)
        × (count ≤ 4096)
        × ((count ≡ 0) ⊎ InWindow 0x40000010 count)
        × ((sys_write 1 0x40000010 3 kernel).0.output
            ≡ kernel.output ++ put_bytes kernel.memory 0x40000010 count))
sys_write_cases_example = sys_write_cases 1 0x40000010 3 kernel
