-- ===== src/Shell/Tests.antt =====
-- The shell's output (src/utils/shell.c) of a short string.
use pell_os.Base.{ℕ, ◌≡◌, refl, List, [], ◌∷◌}
use pell_os.Shell.{initial_shell, write_str}
use pell_os.Shell.Screen.{IsOnScreen, write_str-IsOnScreen}

-- `a`, a new line, and `b`
abbrev some_string : List ℕ
some_string = 97 ∷ 10 ∷ 98 ∷ []

two_lines :
    (write_str some_string initial_shell).drawn
    ≡ record { ch = 98; x = 15; y = 31 } ∷ record { ch = 97; x = 15; y = 15 } ∷ []
unfolding write_str
two_lines = refl

write_str-IsOnScreen_example : IsOnScreen (write_str some_string initial_shell)
write_str-IsOnScreen_example = write_str-IsOnScreen some_string
