-- ===== src/Framebuffer/Tests.antt =====
-- Drawing on the screen (src/peripherals/framebuffer.c) with 1920 pixels in a line.
use pell_os.Base.{◌+◌, ◌*◌, ◌/◌, ◌≡◌, inl, refl, arith}
use pell_os.Framebuffer.{Framebuffer, font_byte, draw_char}
use pell_os.Framebuffer.Font.{font}
use pell_os.Framebuffer.Glyph.{shade, draw_char-shade}

abbrev black : Framebuffer
black = record { pitch = 7680; pixels = λ o. 0 }

-- The third line of `A`
line_of_a : font_byte (65 * 8 + 2) ≡ 0x33
unfolding font
line_of_a = refl

draw_char-shade_example :
    ((draw_char 65 15 15 15 2 black).pixels ((15 + 1 + 4) * 7680 + (15 + 6) * 4)
      ≡ shade (font_byte (65 * 8 + 4 / 2)) 6 15)
    × ((draw_char 65 15 15 15 2 black).pixels 0 ≡ 0)
draw_char-shade_example =
    draw_char-shade 65 15 15 15 4 6 0 black (omega arith) (omega arith) (omega arith) (omega arith)
      (omega arith) (inl (omega arith))
