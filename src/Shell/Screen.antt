-- ===== src/Shell/Screen.antt =====
-- The shell draws inside the screen (src/utils/shell.c).
use pell_os.Base.{ℕ, ◌+◌, ◌<◌, ◌≤◌, inl, inr, List, [], ◌∷◌, arith, All, ◌==◌, ltb, Bool-cases}
use pell_os.Shell.{
  Glyph, Shell, initial_shell, screen_width, screen_height, scaled_char_width, scaled_char_height,
  next_line, draw_char, put_char, wrap, write_char, write_str,
}

-- The character's pixels, with the row below its place for the first, are pixels of the screen.
abbrev pub IsInside : Glyph → Type 0
IsInside g = (g.x + scaled_char_width < screen_width) × (g.y + scaled_char_height < screen_height)

-- All characters are inside the screen. The cursor is on it, and past the last column of a
-- character only in a line in which one fits.
pub record IsOnScreen (s : Shell) : Type 0 where
  pub inside : All IsInside s.drawn
  pub column : s.cursor_x < screen_width
  pub line : s.cursor_y < screen_height
  pub end_of_line :
      screen_width ≤ s.cursor_x + scaled_char_width
      → s.cursor_y + scaled_char_height < screen_height

next_line-IsOnScreen :
    (s : Shell)
    → IsOnScreen s
    → s.cursor_y + scaled_char_height < screen_height
    → IsOnScreen (next_line s)
next_line-IsOnScreen s v fits = record {
  inside = v.inside;
  column = omega arith;
  line = omega arith;
  end_of_line = λ h. absurd (omega arith);
}

wrap-IsOnScreen :
    (s : Shell)
    → IsOnScreen s
    → IsOnScreen (wrap s) × ((wrap s).cursor_x + scaled_char_width < screen_width)
wrap-IsOnScreen s v = elim (Bool-cases (ltb 1919 (s.cursor_x + 16))) [
  | inl e ↦ rw e (next_line-IsOnScreen s v (v.end_of_line (ground (arith, e))), omega arith)
  | inr e ↦ rw e (v, ground (arith, e))
]

draw_char-IsOnScreen :
    (ch : ℕ) (s : Shell)
    → IsOnScreen s
    → s.cursor_x + scaled_char_width < screen_width
    → s.cursor_y + scaled_char_height < screen_height
    → IsOnScreen (draw_char ch s)
draw_char-IsOnScreen ch s v column line = record {
  inside = ((column, line), v.inside);
  column = omega arith;
  line = v.line;
  end_of_line = λ h. line;
}

put_char-IsOnScreen :
    (ch : ℕ) (s : Shell)
    → IsOnScreen s
    → s.cursor_x + scaled_char_width < screen_width
    → s.cursor_y + scaled_char_height < screen_height
    → IsOnScreen (put_char ch s)
put_char-IsOnScreen ch s v column line = elim (Bool-cases (ch == 10)) [
  | inl e ↦ rw e (next_line-IsOnScreen s v line)
  | inr e ↦ elim (Bool-cases (ch == 13)) [
    | inl r ↦
        rw (e, r)
          (record {
            inside = v.inside;
            column = omega arith;
            line = v.line;
            end_of_line = λ h. line;
          })
    | inr r ↦ rw (e, r) (draw_char-IsOnScreen ch s v column line)
  ]
]

write_char-IsOnScreen : (ch : ℕ) (s : Shell) → IsOnScreen s → IsOnScreen (write_char ch s)
unfolding write_char
write_char-IsOnScreen ch s v =
    let (v₁, column) = wrap-IsOnScreen s v in
    elim (Bool-cases (ltb 1079 ((wrap s).cursor_y + 16))) [
      | inl e ↦ rw e v₁
      | inr e ↦ rw e (put_char-IsOnScreen ch (wrap s) v₁ column (ground (arith, e)))
    ]

write_str_inv : (str : List ℕ) (s : Shell) → IsOnScreen s → IsOnScreen (write_str str s)
unfolding write_str
write_str_inv [] s v = v
write_str_inv (ch ∷ str) s v = write_str_inv str (write_char ch s) (write_char-IsOnScreen ch s v)

-- Whatever string is written from the start, every character drawn lies inside the screen, and so
-- does the cursor.
pub write_str-IsOnScreen : (str : List ℕ) → IsOnScreen (write_str str initial_shell)
write_str-IsOnScreen str = write_str_inv str initial_shell (record {
  inside = tt;
  column = omega arith;
  line = omega arith;
  end_of_line = λ h. absurd (omega arith);
})
