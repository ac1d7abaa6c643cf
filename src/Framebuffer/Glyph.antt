-- ===== src/Framebuffer/Glyph.antt =====
-- The pixels that `framebuffer_drawChar` (src/peripherals/framebuffer.c) sets at zoom 2.
use mathlib.Core.Path.{subst}
use pell_os.Base.{
  ℕ, zero, suc, ◌+◌, ◌-◌, ◌*◌, ◌/◌, ◌%◌, ◌^◌, ◌≤◌, ◌<◌, ◌≡◌, ◌≢◌, ◌⊎◌, inl, inr, refl, ◌∙◌, ap,
  true, false, [], ◌∷◌, bit_and, ◌==◌, ltb, if◌then◌else◌, get_or, arith,
}
use pell_os.Base.Bits.{shl, shr}
use pell_os.Framebuffer.{
  Framebuffer, vgapal, offset, store_pixel, draw_pixel, font_byte, colour, draw_columns, draw_lines,
  draw_char, draw_next, draw_string,
}

-- The value of a pixel of a line of a glyph at zoom 2: bit `j / 2` of the line chooses between the
-- background, the high four bits of `attr`, and the foreground, the low four.
abbrev pub shade : (line j attr : ℕ) → ℕ
shade line j attr =
    let index =
      if bit_and line (shl 1 (j / 2)) == 0 then shr (bit_and attr 0xF0) 4 else bit_and attr 0x0F in
    get_or vgapal (bit_and index 0x0F) 0

pitch-draw_columns :
    (left j line x y attr : ℕ) (f : Framebuffer)
    → (draw_columns left j line x y attr 2 f).pitch ≡ f.pitch
unfolding draw_columns
pitch-draw_columns zero j line x y attr f = refl
pitch-draw_columns (suc left) j line x y attr f =
    pitch-draw_columns left (j + 1) line x y attr (draw_pixel (x + j) y (colour line j attr 2) f)

module _ (p x y attr : ℕ) where
  -- A pixel outside the columns keeps its value.
  columns-kept :
      (left j line : ℕ) (f : Framebuffer) (o : ℕ)
      → f.pitch ≡ p
      → y * p + (x + j + left) * 4 ≤ 2 ^ 32
      → (o < y * p + (x + j) * 4) ⊎ (y * p + (x + j + left) * 4 ≤ o)
      → (draw_columns left j line x y attr 2 f).pixels o ≡ f.pixels o
  unfolding draw_columns
  columns-kept zero j line f o e fits out = refl
  columns-kept (suc left) j line f o e fits out =
      let here : (o == offset p (x + j) y) ≡ false = ground (arith, out) in
      columns-kept left (j + 1) line (draw_pixel (x + j) y (colour line j attr 2) f) o
        (unfold draw_pixel in e) (omega arith)
        (elim out [ inl h ↦ inl (omega arith) | inr h ↦ inr (omega arith) ])
      ∙ unfold draw_pixel store_pixel in rw (e, here) refl

  columns-drawn :
      (left j line : ℕ) (f : Framebuffer) (k : ℕ)
      → f.pitch ≡ p
      → y * p + (x + j + left) * 4 ≤ 2 ^ 32
      → k < left
      → (draw_columns left j line x y attr 2 f).pixels (y * p + (x + j + k) * 4)
        ≡ shade line (j + k) attr
  unfolding draw_columns
  columns-drawn zero j line f k e fits lt = absurd (omega arith)
  columns-drawn (suc left) j line f zero e fits lt =
      let f' = draw_pixel (x + j) y (colour line j attr 2) f in
      let o : y * p + (x + j + 0) * 4 ≡ y * p + (x + j) * 4 = omega arith in
      let j₀ : j + 0 ≡ j = omega arith in
      let here : (y * p + (x + j) * 4 == offset p (x + j) y) ≡ true = ground arith in
      rw (o, j₀)
        (columns-kept left (j + 1) line f' (y * p + (x + j) * 4) (unfold draw_pixel in e)
            (omega arith) (inl (omega arith))
          ∙ unfold draw_pixel store_pixel in rw (e, here) refl)
  columns-drawn (suc left) j line f (suc k) e fits lt =
      let place : y * p + (x + j + suc k) * 4 ≡ y * p + (x + (j + 1) + k) * 4 = omega arith in
      let column : j + suc k ≡ j + 1 + k = omega arith in
      rw (place, column)
        (columns-drawn left (j + 1) line (draw_pixel (x + j) y (colour line j attr 2) f) k
          (unfold draw_pixel in e) (omega arith) (omega arith))

module _ (p x y attr : ℕ) (wide : (x + 16) * 4 ≤ p) where
  abbrev first_line : (i glyph : ℕ) → Framebuffer → Framebuffer
  first_line i glyph f = draw_columns 16 0 (font_byte glyph) x (y + i) attr 2 f

  abbrev next_glyph : ℕ → ℕ → ℕ
  next_glyph i glyph = glyph + (if i % 2 == 0 then 1 else 0)

  line_lem : (i left : ℕ) → (y + (i + 1) + left) * p ≡ (y + i + suc left) * p
  line_lem i left = omega arith

  line_order : (i left : ℕ) → (y + i) * p + p ≤ (y + i + suc left) * p
  line_order i left = omega arith

  -- The pixels above and below the lines that are drawn.
  lines-kept :
      (left i glyph : ℕ) (f : Framebuffer) (o : ℕ)
      → f.pitch ≡ p
      → (y + i + left) * p ≤ 2 ^ 32
      → (o < (y + i) * p) ⊎ ((y + i + left) * p ≤ o)
      → (draw_lines left i glyph x y attr 2 f).pixels o ≡ f.pixels o
  unfolding draw_lines
  lines-kept zero i glyph f o e fits out = refl
  lines-kept (suc left) i glyph f o e fits out =
      let same = line_lem i left in
      let order = line_order i left in
      lines-kept left (i + 1) (next_glyph i glyph) (first_line i glyph f) o
        (pitch-draw_columns 16 0 (font_byte glyph) x (y + i) attr f ∙ e) (omega (arith, same))
        (elim out [ inl h ↦ inl (omega arith) | inr h ↦ inr (omega (arith, same)) ])
      ∙ columns-kept p x (y + i) attr 16 0 (font_byte glyph) f o e (omega (arith, order))
          (elim out [ inl h ↦ inl (omega arith) | inr h ↦ inr (omega (arith, order)) ])

  -- Line `r` of the ones to be drawn shows line `(i + r - 1) / 2` of the glyph, where `i` is 1 for
  -- the first.
  lines-drawn :
      (left i glyph g : ℕ) (f : Framebuffer) (r k : ℕ)
      → f.pitch ≡ p
      → (y + i + left) * p ≤ 2 ^ 32
      → 0 < i
      → glyph ≡ g + (i - 1) / 2
      → r < left
      → k < 16
      → (draw_lines left i glyph x y attr 2 f).pixels ((y + i + r) * p + (x + k) * 4)
        ≡ shade (font_byte (g + (i + r - 1) / 2)) k attr
  unfolding draw_lines
  lines-drawn zero i glyph g f r k e fits pos eg lt lt' = absurd (omega arith)
  lines-drawn (suc left) i glyph g f zero k e fits pos eg lt lt' =
      let order = line_order i left in
      let same = line_lem i left in
      let o : (y + i + 0) * p + (x + k) * 4 ≡ (y + i) * p + (x + 0 + k) * 4 = omega arith in
      let row : g + (i + 0 - 1) / 2 ≡ glyph = omega arith in
      rw (o, row)
        (lines-kept left (i + 1) (next_glyph i glyph) (first_line i glyph f)
            ((y + i) * p + (x + 0 + k) * 4)
            (pitch-draw_columns 16 0 (font_byte glyph) x (y + i) attr f ∙ e) (omega (arith, same))
            (inl (omega arith))
          ∙ columns-drawn p x (y + i) attr 16 0 (font_byte glyph) f k e (omega (arith, order)) lt'
          ∙ ap (λ k. shade (font_byte glyph) k attr) (omega arith))
  lines-drawn (suc left) i glyph g f (suc r) k e fits pos eg lt lt' =
      let same = line_lem i left in
      let o : (y + i + suc r) * p + (x + k) * 4 ≡ (y + (i + 1) + r) * p + (x + k) * 4 =
        omega arith in
      let row : (i + suc r - 1) / 2 ≡ (i + 1 + r - 1) / 2 = omega arith in
      let step : next_glyph i glyph ≡ g + (i + 1 - 1) / 2 = ground arith in
      rw (o, row)
        (lines-drawn left (i + 1) (next_glyph i glyph) g (first_line i glyph f) r k
          (pitch-draw_columns 16 0 (font_byte glyph) x (y + i) attr f ∙ e) (omega (arith, same))
          (omega arith) step (omega arith) lt')

-- For a character of the font, drawn at zoom 2 so that it ends before the right edge, and a frame
-- buffer whose offsets stay below 2 ^ 31: the pixel of column `k` and line `r` of its 16 by 16
-- pixels, which start one line below `y`, gets the shade of column `k / 2` and line `r / 2` of the
-- glyph, and a pixel in a line above or below them keeps its value.
pub draw_char-shade :
    (ch x y attr r k o : ℕ) (f : Framebuffer)
    → ch < 224
    → (x + 16) * 4 ≤ f.pitch
    → (y + 17) * f.pitch ≤ 2 ^ 31
    → r < 16
    → k < 16
    → (o < (y + 1) * f.pitch) ⊎ ((y + 17) * f.pitch ≤ o)
    → ((draw_char ch x y attr 2 f).pixels ((y + 1 + r) * f.pitch + (x + k) * 4)
        ≡ shade (font_byte (ch * 8 + r / 2)) k attr)
      × ((draw_char ch x y attr 2 f).pixels o ≡ f.pixels o)
unfolding draw_char
draw_char-shade ch x y attr r k o f known wide fits hr hk out =
    let here : ltb ch 224 ≡ true = ground arith in
    let fits' : (y + 1 + 16) * f.pitch ≤ 2 ^ 32 = omega arith in
    let row : (1 + r - 1) / 2 ≡ r / 2 = omega arith in
    rw here (
      lines-drawn f.pitch x y attr wide 16 1 (ch * 8) (ch * 8) f r k refl fits' (omega arith)
            (omega arith) hr hk
          ∙ ap (λ q. shade (font_byte (ch * 8 + q)) k attr) row,
      lines-kept f.pitch x y attr wide 16 1 (ch * 8) f o refl fits'
          (elim out [ inl h ↦ inl h | inr h ↦ inr (omega arith) ]),
    )

pitch-draw_lines :
    (left i glyph x y attr : ℕ) (f : Framebuffer)
    → (draw_lines left i glyph x y attr 2 f).pitch ≡ f.pitch
unfolding draw_lines
pitch-draw_lines zero i glyph x y attr f = refl
pitch-draw_lines (suc left) i glyph x y attr f =
    pitch-draw_lines left (i + 1) (glyph + (if i % 2 == 0 then 1 else 0)) x y attr
      (draw_columns 16 0 (font_byte glyph) x (y + i) attr 2 f)
    ∙ pitch-draw_columns 16 0 (font_byte glyph) x (y + i) attr f

abbrev pub IsPrinted : ℕ → Type 0
IsPrinted c = (c ≢ 10) × (c ≢ 13)

draw_next_lem :
    (c x y attr : ℕ) (f : Framebuffer)
    → IsPrinted c
    → draw_next c x y attr f ≡ ((x + 8, y), draw_char c x y attr 2 f)
unfolding draw_next
draw_next_lem c x y attr f (h, h') =
    let e : (c == 10) ≡ false = ground (arith, h) in
    let e' : (c == 13) ≡ false = ground (arith, h') in rw (e, e') refl

draw_string_lem :
    (c d x y attr : ℕ) (f : Framebuffer)
    → IsPrinted c
    → IsPrinted d
    → draw_string x y (c ∷ d ∷ []) attr f ≡ draw_char d (x + 8) y attr 2 (draw_char c x y attr 2 f)
unfolding draw_string
draw_string_lem c d x y attr f h h' =
    ap (λ (r : (ℕ × ℕ) × Framebuffer). let ((x', y'), f') = r in (draw_next d x' y' attr f').1)
      (draw_next_lem c x y attr f h)
    ∙ ap (λ (r : (ℕ × ℕ) × Framebuffer). r.1)
        (draw_next_lem d (x + 8) y attr (draw_char c x y attr 2 f) h')

-- `framebuffer_drawString` moves on by 8 pixels and draws characters 16 pixels wide: of two
-- characters of the font other than line ends, at a place where the second fits too and with offsets below 2 ^ 31, the right half
-- of the first is overwritten by the left half of the second.
pub draw_string-overlaps :
    (c d x y attr r k : ℕ) (f : Framebuffer)
    → c < 224
    → d < 224
    → IsPrinted c
    → IsPrinted d
    → (x + 8 + 16) * 4 ≤ f.pitch
    → (y + 17) * f.pitch ≤ 2 ^ 31
    → r < 16
    → k < 8
    → (draw_string x y (c ∷ d ∷ []) attr f).pixels ((y + 1 + r) * f.pitch + (x + (8 + k)) * 4)
      ≡ shade (font_byte (d * 8 + r / 2)) k attr
draw_string-overlaps c d x y attr r k f known known' printed printed' wide fits hr hk =
    let f' = draw_char c x y attr 2 f in
    let same : f'.pitch ≡ f.pitch = unfold draw_char in pitch-draw_lines 16 1 _ x y attr f in
    let place : x + (8 + k) ≡ x + 8 + k = omega arith in
    let wide' : (x + 8 + 16) * 4 ≤ f'.pitch = omega (arith, same) in
    let fits' : (y + 17) * f'.pitch ≤ 2 ^ 31 = rw same fits in
    rw (draw_string_lem c d x y attr f printed printed', place)
      (subst
        (λ q.
          (draw_char d (x + 8) y attr 2 f').pixels ((y + 1 + r) * q + (x + 8 + k) * 4)
          ≡ shade (font_byte (d * 8 + r / 2)) k attr)
        same
        (draw_char-shade d (x + 8) y attr r k 0 f' known' wide' fits' hr (omega arith)
          (inl (omega (arith, same)))).0)
