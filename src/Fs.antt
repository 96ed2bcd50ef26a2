-- ===== src/Fs.antt =====
-- fs/fs.go: the in-memory filesystem, over any page allocator. A name is the array of its bytes and
-- its length; a length that the code finds at most 0 is 0 here. Physical memory is an array of bytes.
pub mod Names
pub mod Inv
pub mod Store
pub mod Keeps
pub mod Contents
pub mod Dictionary
pub mod Removal
mod Examples
use go_dav_os.Base.{
  ℕ, zero, suc, ◌+◌, ◌-◌, Bool, true, false, not, ◌&&◌, ◌||◌, Option, none, some, Array, update,
  ltb, leb, ◌==◌, if◌then◌else◌,
}
use go_dav_os.Base.Search.{find_first}
use go_dav_os.PageAllocator.{PageAllocator}

abbrev pub max_files : ℕ
max_files = 32

abbrev pub max_name : ℕ
max_name = 16

abbrev pub page_size : ℕ
page_size = 4096

-- `fileEntry`
pub record FileEntry : Type 0 where
  pub used : Bool
  pub name_len : ℕ
  pub name : Array ℕ
  pub size : ℕ
  pub page : ℕ

abbrev pub blank_entry : FileEntry
blank_entry = record { used = false; name_len = 0; name = λ j. 0; size = 0; page = 0 }

-- The file table, physical memory and the allocator's state.
pub record Fs (S : Type 0) : Type 0 where
  pub files : Array FileEntry
  pub memory : Array ℕ
  pub pages : S

-- `for j := 0; j < nameLen; j++ { if a[j] != b[j] … }`
unfoldable pub names_match : ℕ → ℕ → Array ℕ → Array ℕ → Bool
names_match zero j a b = true
names_match (suc n) j a b = a j == b j && names_match n (j + 1) a b

-- The tests that one slot passes in `findByName`.
unfoldable pub entry_matches : Array ℕ → ℕ → FileEntry → Bool
entry_matches name name_len e =
    e.used && (e.name_len == name_len && names_match name_len 0 e.name name)

unfoldable pub find_by_name : Array ℕ → ℕ → Array FileEntry → Option ℕ
find_by_name name name_len files =
    if name_len == 0 || ltb max_name name_len
    then none
    else find_first (λ i. entry_matches name name_len (files i)) max_files 0

unfoldable pub find_free_slot : Array FileEntry → Option ℕ
find_free_slot files = find_first (λ i. not (files i).used) max_files 0

-- `copyName`: the name's bytes, then zeros.
unfoldable pub copy_name : FileEntry → Array ℕ → ℕ → FileEntry
copy_name e src name_len = record e {
  name_len = name_len;
  name = λ i. if ltb i name_len then src i else 0;
}

-- The copying loop of `Write`: the bytes of `src` go to the page at `base`. The caller's data lies
-- apart from that page, so that it is an array of its own.
unfoldable pub copy_data : ℕ → Array ℕ → ℕ → Array ℕ → Array ℕ
copy_data base src n memory a = if leb base a && ltb a (base + n) then src (a - base) else memory a

-- The slot that `Write` takes: the file's, or a free one.
unfoldable pub pick_slot : Array ℕ → ℕ → Array FileEntry → Option ℕ
pick_slot name name_len files = elim (find_by_name name name_len files) [
  | none ↦ find_free_slot files
  | some idx ↦ some idx
]

module _ {S : Type 0} where
  -- `Init` clears each slot but for its name.
  unfoldable pub init : Fs S → Fs S
  init fs = record fs {
    files = λ i.
        if ltb i max_files
        then record (fs.files i) { used = false; name_len = 0; size = 0; page = 0 }
        else fs.files i;
  }

  -- `Entry`, for an index that is not negative.
  unfoldable pub entry : ℕ → Fs S → FileEntry
  entry i fs = if leb max_files i then blank_entry else fs.files i

  -- `Lookup`: the page and the size.
  unfoldable pub lookup : Array ℕ → ℕ → Fs S → Option (ℕ × ℕ)
  lookup name name_len fs = elim (find_by_name name name_len fs.files) [
    | none ↦ none
    | some idx ↦ some ((fs.files idx).page, (fs.files idx).size)
  ]

  -- The end of `Write`: the data goes to the page of slot `idx`, which holds `e`.
  unfoldable pub store : ℕ → FileEntry → Array ℕ → ℕ → Fs S → Fs S
  store idx e src data_len fs = record fs {
    files = update fs.files idx (record e { size = data_len });
    memory = copy_data e.page src data_len fs.memory;
  }

module _ {S : Type 0} (A : PageAllocator S) where
  -- The rest of `Write`, at slot `idx`.
  unfoldable pub write_slot : Array ℕ → ℕ → Array ℕ → ℕ → ℕ → Fs S → Fs S × Bool
  write_slot name name_len src data_len idx fs =
      let e = fs.files idx in
      let (pages, p) = A.alloc fs.pages in
      let fresh = copy_name (record e { used = true; page = p }) name name_len in
      if e.used
      then (store idx e src data_len fs, true)
      else if not (A.ready fs.pages)
      then (fs, false)
      else if p == 0
      then (record fs { pages = pages }, false)
      else (store idx fresh src data_len (record fs { pages = pages }), true)

  -- `Write`
  unfoldable pub write : Array ℕ → ℕ → Array ℕ → ℕ → Fs S → Fs S × Bool
  write name name_len src data_len fs =
      if name_len == 0 || ltb max_name name_len
      then (fs, false)
      else elim (pick_slot name name_len fs.files) [
        | none ↦ (fs, false)
        | some idx ↦
            write_slot name name_len src (if ltb page_size data_len then page_size else data_len)
              idx fs
      ]

  -- `Remove`
  unfoldable pub remove : Array ℕ → ℕ → Fs S → Fs S × Bool
  remove name name_len fs = elim (find_by_name name name_len fs.files) [
    | none ↦ (fs, false)
    | some idx ↦
        let e = fs.files idx in
        (
          record fs {
            files =
                update fs.files idx (record e { used = false; name_len = 0; size = 0; page = 0 });
            pages = (if e.used && not (e.page == 0) then (A.free e.page fs.pages).0 else fs.pages);
          },
          true,
        )
  ]
