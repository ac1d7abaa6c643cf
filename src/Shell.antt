-- ===== src/Shell.antt =====
-- The shell's output (src/utils/shell.c): the cursor, and the characters that it draws.
pub mod Screen
mod Tests
use pell_os.Base.{ℕ, ◌+◌, ◌-◌, ◌*◌, ◌%◌, ◌^◌, List, [], ◌∷◌, ◌==◌, ltb, if◌then◌else◌}

abbrev pub initial_x : ℕ
initial_x = 15

abbrev pub initial_y : ℕ
initial_y = 15

abbrev pub shell_zoom_level : ℕ
shell_zoom_level = 2

abbrev pub char_width : ℕ
char_width = 8

abbrev pub char_height : ℕ
char_height = 8

abbrev pub scaled_char_width : ℕ
scaled_char_width = char_width * shell_zoom_level

abbrev pub scaled_char_height : ℕ
scaled_char_height = char_height * shell_zoom_level

abbrev pub screen_width : ℕ
screen_width = 1920

abbrev pub screen_height : ℕ
screen_height = 1080

-- A call of `framebuffer_drawChar`.
pub record Glyph : Type 0 where
  pub ch : ℕ
  pub x : ℕ
  pub y : ℕ

-- The cursor, whose places are `uint16_t`, and the calls so far, the last one first.
pub record Shell : Type 0 where
  pub cursor_x : ℕ
  pub cursor_y : ℕ
  pub drawn : List Glyph

abbrev pub initial_shell : Shell
initial_shell = record { cursor_x = initial_x; cursor_y = initial_y; drawn = [] }

abbrev pub next_line : Shell → Shell
next_line s = record s {
  cursor_x = initial_x;
  cursor_y = (s.cursor_y + scaled_char_height) % 2 ^ 16;
}

abbrev pub draw_char : ℕ → Shell → Shell
draw_char ch s = record {
  cursor_x = (s.cursor_x + scaled_char_width) % 2 ^ 16;
  cursor_y = s.cursor_y;
  drawn = record { ch = ch; x = s.cursor_x; y = s.cursor_y } ∷ s.drawn;
}

-- The part of `kernel_writeChar` behind the two tests of the cursor.
abbrev pub put_char : ℕ → Shell → Shell
put_char ch s =
    if ch == 10
    then next_line s
    else if ch == 13
    then record s { cursor_x = initial_x }
    else draw_char ch s

abbrev pub wrap : Shell → Shell
wrap s = if ltb (screen_width - 1) (s.cursor_x + scaled_char_width) then next_line s else s

unfoldable pub write_char : ℕ → Shell → Shell
write_char ch s =
    let s₁ = wrap s in
    if ltb (screen_height - 1) (s₁.cursor_y + scaled_char_height) then s₁ else put_char ch s₁

unfoldable pub write_str : List ℕ → Shell → Shell
unfolding write_char
write_str [] s = s
write_str (ch ∷ str) s = write_str str (write_char ch s)
