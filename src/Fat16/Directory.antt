-- ===== src/Fat16/Directory.antt =====
-- fs/fat16/fat16.go: the entries of the root directory, and `ListDir`.
use go_dav_os.Base.{
  ℕ, zero, suc, ◌+◌, ◌*◌, ◌/◌, ◌%◌, ◌^◌, Bool, true, false, not, ◌&&◌, ◌||◌, Option, none, some,
  List, [], ◌∷◌, ◌++◌, Array, ◌==◌, if◌then◌else◌,
}
use go_dav_os.BlockDevice.{BlockDevice}
use go_dav_os.Fat16.{
  Fat, Message, dir_entry_size, read_sector, print, word32, u32_text, rune, not_initialized,
  listing_read_error, root_directory, indent, gap, bytes_word,
}

-- How a loop over sectors ends: a read fails, a sector answers, or the sectors are used up.
pub data Scan (R : Type 0) : Type 0 where
  read_failed : Scan R
  found : R → Scan R
  used_up : Scan R

-- `for j := 0; j < n; j++`: whether the bytes agree from `b[i+j]` and `name[j]` on.
unfoldable pub bytes_match : ℕ → ℕ → Array ℕ → ℕ → Array ℕ → Bool
bytes_match zero j b i name = true
bytes_match (suc n) j b i name = b (i + j) == name j && bytes_match n (j + 1) b i name

-- Whether the entry at `off` has the name and the extension.
unfoldable pub entry_matches : Array ℕ → ℕ → Array ℕ → Array ℕ → Bool
entry_matches b off name ext = bytes_match 8 0 b off name && bytes_match 3 0 b (off + 8) ext

-- `fatBuf[off+11] & 0x08 != 0`
abbrev pub is_volume_label : Array ℕ → ℕ → Bool
is_volume_label b off = b (off + 11) / 8 % 2 == 1

-- What a loop over entries does at an entry: it stops with an answer, it stops with none, or goes on.
pub data Step (R : Type 0) : Type 0 where
  answer : R → Step R
  stop : Step R
  next : Step R

-- `for i := 0; i < n; i++` over the entries of a sector.
unfoldable pub each_entry : {R : Type 0} → (ℕ → Step R) → ℕ → ℕ → Option R
each_entry body zero i = none
each_entry body (suc n) i = elim (body (i * dir_entry_size)) [
  | answer r ↦ some r
  | stop ↦ none
  | next ↦ each_entry body n (i + 1)
]

-- `for sec := 0; sec < n; sec++` over the sectors from `base` on, which stops when one answers.
unfoldable pub each_sector :
    {D R : Type 0} → BlockDevice D → (ℕ → Array ℕ → Option R) → ℕ → ℕ → ℕ → Fat D → Fat D × Scan R
each_sector A body base zero sec f = (f, used_up)
each_sector A body base (suc n) sec f =
    let (g, got) = read_sector A (base + sec) f in
    elim got [
      | false ↦ (g, read_failed)
      | true ↦ elim (body sec g.fat_buf) [
        | some r ↦ (g, found r)
        | none ↦ each_sector A body base n (sec + 1) g
      ]
    ]

-- The characters of `b` from `i` on that are not spaces.
unfoldable pub name_text : Array ℕ → ℕ → ℕ → List Message
name_text b i zero = []
name_text b i (suc n) =
    let rest = name_text b (i + 1) n in if b i == b' ' then rest else rune (b i) ∷ rest

-- What `ListDir` prints of the entry at `off`.
unfoldable pub entry_text : Array ℕ → ℕ → List Message
entry_text b off =
    let extension = if b (off + 8) == b' ' then [] else rune b'.' ∷ name_text b (off + 8) 3 in
    indent
    ∷ (name_text b off 8
        ++ (extension ++ (gap ∷ (u32_text (word32 b (off + 28) % 2 ^ 32) ++ bytes_word ∷ []))))

-- The loop of `ListDir` over `n` entries of a sector: what it prints, and whether it came to the end
-- of the directory.
unfoldable pub list_entries : Array ℕ → ℕ → ℕ → List Message × Bool
list_entries b zero i = ([], false)
list_entries b (suc n) i =
    let off = i * dir_entry_size in
    let (rest, ended) = list_entries b n (i + 1) in
    if b off == 0x00
    then ([], true)
    else if b off == 0xE5 || is_volume_label b off
    then (rest, ended)
    else (entry_text b off ++ rest, ended)

unfoldable pub list_sectors : {D : Type 0} → BlockDevice D → ℕ → ℕ → ℕ → Fat D → Fat D
list_sectors A root zero sec f = f
list_sectors A root (suc n) sec f =
    let (g, got) = read_sector A (root + sec) f in
    let (text, ended) = list_entries g.fat_buf 16 0 in
    let h = record g { output = g.output ++ text } in
    elim got [
      | false ↦ print listing_read_error g
      | true ↦ elim ended [ true ↦ h | false ↦ list_sectors A root n (sec + 1) h ]
    ]

-- `ListDir`
unfoldable pub list_dir : {D : Type 0} → BlockDevice D → Fat D → Fat D
list_dir A f =
    if not f.initialized
    then print not_initialized f
    else list_sectors A f.layout.root_start f.layout.root_sectors 0 (print root_directory f)
