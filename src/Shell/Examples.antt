-- ===== src/Shell/Examples.antt =====
-- shell/shell.go: runs of the line editor, the history and the distance.
use go_dav_os.Base.{ℕ, ◌+◌, ◌≡◌, ◌⊎◌, ◌≤◌, refl, some, [], ◌∷◌, Array, arith}
use go_dav_os.Terminal.{Terminal}
use go_dav_os.Shell.{Shell, feed_rune, add_history}
use go_dav_os.Shell.Words.{parse_hex64}
use go_dav_os.Shell.Numbers.{hex_text, char_at}
use go_dav_os.Shell.Distance.{
  distance_loop, copy_cells, row_loop, min_int, first_row, calculate_distance, edit_distance,
  calculate_distance-edit_distance,
}
use go_dav_os.Shell.History.{IsValid, Repeats, Pushes, add_history_cases}
use go_dav_os.Shell.HexText.{HoldsText, parse_hex64-hex_text}
use go_dav_os.Shell.Editor.{typed, edit, feed_rune-edit}

abbrev start_screen : Terminal
start_screen = record { column = 0; row = 0; color = 7; cells = λ i j. (b' ', 7); events = [] }

-- The command `ls` has been typed.
abbrev typing : Shell Terminal
typing = record {
  line_buf = char_at (b'l' ∷ b's' ∷ []);
  line_len = 2;
  history_buf = λ i j. 0;
  history_len = λ i. 0;
  history_head = 0;
  history_count = 0;
  screen = start_screen;
  world = start_screen;
}

feed_rune-edit_example :
    ((feed_rune (λ s. s) 8 typing).line_len ≤ 128)
    × (typed (feed_rune (λ s. s) 8 typing) ≡ edit 8 2 (typed typing))
feed_rune-edit_example = feed_rune-edit (λ s. s) 8 typing (omega arith)

typing-IsValid : IsValid typing
typing-IsValid = record { head_low = omega arith; count_low = omega arith }

add_history_cases_example :
    IsValid (add_history typing.line_buf 2 typing)
    × ((((◌≡◌ {A = ℕ} 2 0) ⊎ Repeats typing typing.line_buf 2)
          × (add_history typing.line_buf 2 typing ≡ typing))
        ⊎ ((1 ≤ 2)
            × (Repeats typing typing.line_buf 2 → ⊥)
            × Pushes typing typing.line_buf 2 (add_history typing.line_buf 2 typing)))
add_history_cases_example = add_history_cases typing.line_buf 2 typing-IsValid

calculate_distance-edit_distance_example :
    calculate_distance typing.line_buf 0 2 (char_at (b'l' ∷ b'a' ∷ b's' ∷ [])) 3
    ≡ edit_distance (λ k. typing.line_buf (0 + k)) (char_at (b'l' ∷ b'a' ∷ b's' ∷ [])) 2 3
calculate_distance-edit_distance_example =
    calculate_distance-edit_distance typing.line_buf (char_at (b'l' ∷ b'a' ∷ b's' ∷ [])) 0 2 3

-- One letter is missing.
near : calculate_distance typing.line_buf 0 2 (char_at (b'l' ∷ b'a' ∷ b's' ∷ [])) 3 ≡ 1
unfolding calculate_distance char_at distance_loop copy_cells row_loop min_int first_row
near = refl

abbrev hex_line : Array ℕ
hex_line = char_at (b'0' ∷ b'x' ∷ hex_text 16 0xB8000)

hex_holds : HoldsText hex_line 0 (b'0' ∷ b'x' ∷ hex_text 16 0xB8000)
hex_holds = record { here = λ i lt. let plus : 0 + i ≡ i = omega arith in rw plus refl }

parse_hex64-hex_text_example : parse_hex64 hex_line 0 (0 + 18) ≡ some 0xB8000
parse_hex64-hex_text_example = parse_hex64-hex_text hex_line 0 0xB8000 (omega arith) hex_holds
