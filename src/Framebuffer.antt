-- ===== src/Framebuffer.antt =====
-- Drawing on the screen (src/peripherals/framebuffer.c, include/peripherals/framebuffer_char.h). The
-- frame buffer, at `fb`, is the 32-bit words at its byte offsets.
pub mod Font
pub mod Glyph
pub mod Screen
mod Tests
use pell_os.Base.{
  ℕ, zero, suc, ◌+◌, ◌-◌, ◌*◌, ◌/◌, ◌%◌, ◌^◌, List, [], ◌∷◌, bit_and, ◌==◌, ltb, if◌then◌else◌,
  get_or,
}
use pell_os.Base.Bits.{shl, shr}
use Font.{font}

abbrev pub font_width : ℕ
font_width = 8

abbrev pub font_height : ℕ
font_height = 8

abbrev pub font_bpg : ℕ
font_bpg = 8

abbrev pub font_bpl : ℕ
font_bpl = 1

abbrev pub font_numglyphs : ℕ
font_numglyphs = 224

unfoldable pub vgapal : List ℕ
vgapal =
    0x000000 ∷ 0x0000AA ∷ 0x00AA00 ∷ 0x00AAAA ∷ 0xAA0000 ∷ 0xAA00AA ∷ 0xAA5500 ∷ 0xAAAAAA ∷ 0x555555
    ∷ 0x5555FF ∷ 0x55FF55 ∷ 0x55FFFF ∷ 0xFF5555 ∷ 0xFF55FF ∷ 0xFFFF55 ∷ 0xFFFFFF ∷ []

pub record Framebuffer : Type 0 where
  pub pitch : ℕ
  pub pixels : ℕ → ℕ

-- `offs`, as an unsigned number. It is taken to be below 2 ^ 31.
abbrev pub offset : (pitch x y : ℕ) → ℕ
offset pitch x y = (y * pitch + x * 4) % 2 ^ 32

-- One 32-bit store.
unfoldable pub store_pixel : (o value : ℕ) → (ℕ → ℕ) → ℕ → ℕ
store_pixel o value pixels p = if p == o then value else pixels p

unfoldable pub draw_pixel : (x y attr : ℕ) → Framebuffer → Framebuffer
unfolding store_pixel
draw_pixel x y attr f = record f {
  pixels = store_pixel (offset f.pitch x y) (get_or vgapal (bit_and attr 0x0F) 0) f.pixels;
}

-- The byte at a place of the font's array.
abbrev pub font_byte : ℕ → ℕ
font_byte g = get_or (get_or font (g / font_bpg) []) (g % font_bpg) 0

-- The colour of column `j` of a line of a glyph.
abbrev pub colour : (line j attr zoom : ℕ) → ℕ
colour line j attr zoom =
    if bit_and line (shl 1 (j / zoom)) == 0 then shr (bit_and attr 0xF0) 4 else bit_and attr 0x0F

-- The inner loop of `framebuffer_drawChar`, with `left` columns to go.
unfoldable pub draw_columns : (left j line x y attr zoom : ℕ) → Framebuffer → Framebuffer
unfolding draw_pixel
draw_columns zero j line x y attr zoom f = f
draw_columns (suc left) j line x y attr zoom f =
    draw_columns left (j + 1) line x y attr zoom (draw_pixel (x + j) y (colour line j attr zoom) f)

-- The outer loop, with `left` lines to go.
unfoldable pub draw_lines : (left i glyph x y attr zoom : ℕ) → Framebuffer → Framebuffer
draw_lines zero i glyph x y attr zoom f = f
draw_lines (suc left) i glyph x y attr zoom f =
    draw_lines left (i + 1) (glyph + (if i % zoom == 0 then font_bpl else 0)) x y attr zoom
      (draw_columns (font_width * zoom) 0 (font_byte glyph) x (y + i) attr zoom f)

unfoldable pub draw_char : (ch x y attr zoom : ℕ) → Framebuffer → Framebuffer
unfolding draw_lines
draw_char ch x y attr zoom f =
    draw_lines (font_height * zoom) 1 ((if ltb ch font_numglyphs then ch else 0) * font_bpg) x y
      attr zoom f

-- One character of `framebuffer_drawString`: the cursor after it, and the frame buffer.
unfoldable pub draw_next : (ch x y attr : ℕ) → Framebuffer → (ℕ × ℕ) × Framebuffer
unfolding draw_char
draw_next ch x y attr f =
    if ch == 13
    then ((0, y), f)
    else if ch == 10
    then ((0, y + font_height), f)
    else ((x + font_width, y), draw_char ch x y attr 2 f)

unfoldable pub draw_string : (x y : ℕ) → List ℕ → (attr : ℕ) → Framebuffer → Framebuffer
unfolding draw_next
draw_string x y [] attr f = f
draw_string x y (ch ∷ s) attr f =
    let ((x', y'), f') = draw_next ch x y attr f in draw_string x' y' s attr f'
