-- ===== src/Lib.antt =====
-- go-dav-os, a small x86-64 operating system in Go: its memory, files, disk, screen, messages,
-- tasks, keyboard, system calls, shell and the agent of the shell.
--
-- How the parts interact. At boot mem reads the memory map and prepares the page frame allocator;
-- fs keeps each file in a page that it takes from that allocator; fs/fat16 keeps files on a disk;
-- the scheduler switches between tasks on timer interrupts; the keyboard's interrupt handler puts
-- characters into a ring that the shell reads; a user program enters the kernel through the
-- dispatcher of system calls. The shell hands its commands to the agent's runtime, which validates
-- a plan, asks for a confirmation of what is risky, and calls the shell's handlers; requests to the
-- planner on the host go out as serial frames.
--
-- Which file models which part. The definitions stand in the first file of a tree, in the order of
-- the source and under its names in snake case; the files below it hold the proofs, named for what
-- they prove, and the module Examples of each tree runs the code on concrete inputs.
--   Mem            mem/allocator.go; Mem.Multiboot is mem/multiboot.go
--   PageAllocator  what fs takes from mem (fs/page_alloc_gccgo.go), as operations and laws;
--                  Mem.Provider fills it with mem's functions, the theorems of Fs take it
--   Fs             fs/fs.go, over any PageAllocator
--   BlockDevice    what fs/fat16 takes from drivers/ata, as operations and laws
--   Fat16          fs/fat16/fat16.go, over any BlockDevice; below it Directory is the loops over directory
--                  entries and ListDir, Files is CreateFile, ReadFile and the FAT
--   Serial         serial/frame.go
--   Scheduler      kernel/scheduler/scheduler.go
--   Agent          agent/types.go, agent/planner.go; below it Rules, Responses, Runtime and Entry are
--                  the parts of agent/runtime.go, and Runtime also agent/executor.go; Bridge is
--                  agent/planner_llm.go, with the bridge to the host as a function
--   Terminal       terminal/terminal.go; Terminal.Numbers is terminal/format.go, PrintInt and PrintHex
--   Shell          shell/shell.go: the line editor and the history; Shell.Words the words of a line and the
--                  numbers that are read, Shell.Numbers what is printed and suggested, Shell.Distance the
--                  edit distance
--   Keyboard       keyboard/keyboard.go, keyboard/irq.go
--   Syscall        kernel/syscall/dispatch.go, abi.go and common.go
--   Tables         kernel/tss/tss.go, kernel/gdt/gdt.go, and of kernel/idt.go and drivers/ata/ata.go what
--                  they put into tables and registers
--   Base           tests, arrays, bits, loops and searches that the trees share
--
-- How state and numbers are modelled. A package's variables are a record, and a function that
-- changes them returns the new record. An array of Go, and raw memory that the code reaches through
-- a pointer, is a function from places; a nil pointer is `none`. Numbers are natural numbers, with
-- the wrap-around of uint64 and uintptr written as `% 2 ^ 64` where the code's sums can reach it.
-- Lengths and indices that are int in Go are not negative, but for the numbers and places that
-- terminal prints, the lengths and the count of actions in the agent's plans and in the answers of the
-- bridge, and the length that Encode takes. Loops recurse on the rounds that are left: the bounds are the code's own (pages
-- up to totalPages, slots up to maxFiles or taskCount, the bytes of a payload, the entries of a
-- sector, the cells of the screen), and each function is total. Only the loop over the tags of the
-- boot tables is on fuel, the size of the tables in bytes, of which a tag takes eight or more; it
-- gives `none` where the fuel runs out. A switch of the processor to another task is an outcome of
-- `schedule`, and the handlers of the agent act on a world of any type.
--
-- What is a parameter: the two linker symbols that InitPFA reads, the addresses of the task stacks,
-- the keyboard's layout, the agent's handlers, the answer of getTicks, the bridge to the host's
-- planner, and the disk driver under fs/fat16, with the laws that a read gives what is on the disk
-- and a write changes no other sector.
--
-- What is not modelled: port input and output (in drivers/ata, serial/transport.go, kernel/pic.go
-- and the like) and assembly, which have no meaning apart from the hardware; the rest of kernel,
-- which loads tables of the processor. Of shell/shell.go the dispatch of commands in execute, the
-- handlers that it gives to the agent, dumpMemory, which prints memory at any address, and the
-- fixed messages; the tables of keyboard/layout and the other files of the host's planner in agent
-- are left for later.
pub mod Base
pub mod Terminal
pub mod Shell
pub mod PageAllocator
pub mod Mem
pub mod BlockDevice
pub mod Fat16
pub mod Fs
pub mod Serial
pub mod Scheduler
pub mod Agent
pub mod Keyboard
pub mod Syscall
pub mod Tables
