-- ===== src/Fs/Examples.antt =====
-- fs/fs.go: runs of the filesystem on the page frame allocator of a small machine.
use go_dav_os.Base.{ℕ, ◌+◌, ◌≡◌, refl, true, false, none, some, Array, slice, if◌then◌else◌}
use go_dav_os.Mem.{Pfa}
use go_dav_os.Mem.Provider.{frame_allocator}
use go_dav_os.Mem.Examples.{pool, pool-IsValid, pool_run}
use go_dav_os.Fs.{
  Fs, blank_entry, init, write, remove, pick_slot, find_by_name, entry_matches, find_free_slot,
  write_slot,
}
use go_dav_os.Base.Search.{find_first}
use go_dav_os.Fs.Inv.{IsValid}
use go_dav_os.Fs.Keeps.{write-remove-IsValid, init-IsValid, write-IsValid}
use go_dav_os.Fs.Store.{clip}
use go_dav_os.Fs.Contents.{cat}
use go_dav_os.Fs.Dictionary.{same_name, cat-write}
use go_dav_os.Fs.Removal.{cat-remove}

abbrev disk : Fs Pfa
disk = init (record { files = λ i. blank_entry; memory = λ i. 0; pages = pool })

disk-IsValid : IsValid frame_allocator disk
disk-IsValid =
    init-IsValid frame_allocator
      (record { files = λ i. blank_entry; memory = λ i. 0; pages = pool }) pool-IsValid

-- The names `a`, `b` and so on, of one byte.
abbrev name_of : ℕ → Array ℕ
name_of c = λ i. c

abbrev text : Array ℕ
text = λ i. i + 65

abbrev written : Fs Pfa
written = (write frame_allocator (name_of 97) 1 text 3 disk).0

written-IsValid : IsValid frame_allocator written
written-IsValid = write-IsValid frame_allocator (name_of 97) 1 disk-IsValid text 3

write_run : (write frame_allocator (name_of 97) 1 text 3 disk).1 ≡ true
unfolding write pick_slot find_by_name find_first entry_matches init find_free_slot write_slot
write_run = rw (pool-IsValid.ready, pool_run.0) refl

cat-write_example : cat (name_of 97) 1 (write frame_allocator (name_of 97) 1 text 3 disk).0 ≡ (
    if same_name (name_of 97) 1 (name_of 97) 1
    then some (slice text 0 (clip 3))
    else cat (name_of 97) 1 disk)
cat-write_example =
    cat-write frame_allocator (name_of 97) 1 disk-IsValid text 3 (name_of 97) 1 write_run

failed_run : (write frame_allocator (name_of 98) 17 text 3 written).1 ≡ false
unfolding write
failed_run = refl

cat-remove_example :
    cat (name_of 97) 1 (remove frame_allocator (name_of 97) 1 written).0
    ≡ (if same_name (name_of 97) 1 (name_of 97) 1 then none else cat (name_of 97) 1 written)
cat-remove_example = cat-remove frame_allocator (name_of 97) 1 written-IsValid (name_of 97) 1

write-remove-IsValid_example :
    IsValid frame_allocator (write frame_allocator (name_of 97) 1 text 3 written).0
    × IsValid frame_allocator (remove frame_allocator (name_of 97) 1 written).0
write-remove-IsValid_example =
    write-remove-IsValid frame_allocator (name_of 97) 1 written-IsValid text 3
