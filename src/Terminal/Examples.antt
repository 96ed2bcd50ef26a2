-- ===== src/Terminal/Examples.antt =====
-- terminal/terminal.go and terminal/format.go: runs on a blank screen.
use go_dav_os.Base.{
  ℕ, ◌+◌, ◌*◌, ◌≡◌, ◌<◌, ◌&&◌, some, List, [], ◌∷◌, Array, ltb, ◌==◌, if◌then◌else◌, arith,
}
use go_dav_os.Base.Ints.{pos, negsuc}
use go_dav_os.Terminal.{Terminal, init, put_rune, print, print_at, backspace, scroll}
use go_dav_os.Terminal.Numbers.{format_int}
use go_dav_os.Terminal.Scrolling.{with_cells, scrolled, scroll_lem}
use go_dav_os.Terminal.Screen.{IsValid, Keeps, init-IsValid, print-print_at-Keeps}
use go_dav_os.Terminal.Text.{IsPlain, backspace-put_rune}
use go_dav_os.Terminal.Decimal.{read_int, InRange, read_int-format_int}

abbrev off : Terminal
off = record { column = 7; row = 9; color = 0; cells = λ i j. (0, 0); events = [] }

abbrev hello : List ℕ
hello = b'h' ∷ b'i' ∷ []

init-IsValid_example :
    IsValid (init off)
    × ((init off).row ≡ 0)
    × ((init off).column ≡ 0)
    × ((i j : ℕ) → (init off).cells i j ≡ (if ltb i 25 && ltb j 80 then (b' ', 7) else (0, 0)))
init-IsValid_example = init-IsValid off

on-IsValid : IsValid (init off)
on-IsValid = (init-IsValid off).0

print-print_at-Keeps_example :
    Keeps (init off) (print hello (init off))
    × Keeps (init off) (print_at (negsuc 0) (pos 24) hello (init off))
print-print_at-Keeps_example = print-print_at-Keeps hello (negsuc 0) (pos 24) on-IsValid

scroll_lem_example : scroll off ≡ with_cells (scrolled off) off
scroll_lem_example = scroll_lem off

h-IsPlain : IsPlain b'h'
h-IsPlain = record { byte = omega arith; not_back = omega arith; not_line = omega arith }

on_inside : (init off).row * 80 + (init off).column < 1999
on_inside = let (_, row, column, _) = init-IsValid off in omega (arith, row, column)

backspace-put_rune_example :
    let u = backspace (put_rune b'h' (init off)) in
    (u.row ≡ (init off).row)
    × (u.column ≡ (init off).column)
    × ((i j : ℕ)
        → u.cells i j ≡ (
            if i == (init off).row && j == (init off).column
            then (b' ', (init off).color)
            else (init off).cells i j))
backspace-put_rune_example = backspace-put_rune b'h' h-IsPlain on-IsValid on_inside

least : InRange (negsuc 9223372036854775807)
unfolding InRange
least = omega arith

read_int-format_int_example :
    (buf : Array ℕ) × (start : ℕ) × (format_int (negsuc 9223372036854775807) ≡ some (buf, start))
    × (start < 20)
    × (read_int buf start ≡ negsuc 9223372036854775807)
read_int-format_int_example = read_int-format_int (negsuc 9223372036854775807) least
