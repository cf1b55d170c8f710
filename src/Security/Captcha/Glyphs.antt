-- ===== src/Security/Captcha/Glyphs.antt =====
-- The glyphs of the characters, how they are drawn, and the whole picture of `_captcha_png_base64`
-- before it is compressed.
use acoj_worker.Common.{
  ℕ, zero, suc, ◌+◌, ◌*◌, String, Option, none, some, List, [], ◌∷◌, Text, codes, nat_eq, ◌==◌,
  if◌then◌else◌, get,
}
use acoj_worker.Common.Int.{pos}
use acoj_worker.Security.Captcha.{Color, set_pixel, draw_line}

abbrev glyph_rows : List String → List Text
glyph_rows [] = []
glyph_rows (row ∷ rows) = codes row ∷ glyph_rows rows

-- CAPTCHA_GLYPHS, by the code of the character
unfoldable pub captcha_glyphs : List (ℕ × List Text)
captcha_glyphs =
    (50, glyph_rows ("11110" ∷ "00001" ∷ "00001" ∷ "11110" ∷ "10000" ∷ "10000" ∷ "11111" ∷ []))
    ∷ (51, glyph_rows ("11110" ∷ "00001" ∷ "00001" ∷ "01110" ∷ "00001" ∷ "00001" ∷ "11110" ∷ []))
    ∷ (52, glyph_rows ("10001" ∷ "10001" ∷ "10001" ∷ "11111" ∷ "00001" ∷ "00001" ∷ "00001" ∷ []))
    ∷ (53, glyph_rows ("11111" ∷ "10000" ∷ "10000" ∷ "11110" ∷ "00001" ∷ "00001" ∷ "11110" ∷ []))
    ∷ (54, glyph_rows ("01111" ∷ "10000" ∷ "10000" ∷ "11110" ∷ "10001" ∷ "10001" ∷ "01110" ∷ []))
    ∷ (55, glyph_rows ("11111" ∷ "00001" ∷ "00010" ∷ "00100" ∷ "01000" ∷ "01000" ∷ "01000" ∷ []))
    ∷ (56, glyph_rows ("01110" ∷ "10001" ∷ "10001" ∷ "01110" ∷ "10001" ∷ "10001" ∷ "01110" ∷ []))
    ∷ (57, glyph_rows ("01110" ∷ "10001" ∷ "10001" ∷ "01111" ∷ "00001" ∷ "00001" ∷ "11110" ∷ []))
    ∷ (65, glyph_rows ("01110" ∷ "10001" ∷ "10001" ∷ "11111" ∷ "10001" ∷ "10001" ∷ "10001" ∷ []))
    ∷ (66, glyph_rows ("11110" ∷ "10001" ∷ "10001" ∷ "11110" ∷ "10001" ∷ "10001" ∷ "11110" ∷ []))
    ∷ (67, glyph_rows ("01111" ∷ "10000" ∷ "10000" ∷ "10000" ∷ "10000" ∷ "10000" ∷ "01111" ∷ []))
    ∷ (68, glyph_rows ("11110" ∷ "10001" ∷ "10001" ∷ "10001" ∷ "10001" ∷ "10001" ∷ "11110" ∷ []))
    ∷ (69, glyph_rows ("11111" ∷ "10000" ∷ "10000" ∷ "11110" ∷ "10000" ∷ "10000" ∷ "11111" ∷ []))
    ∷ (70, glyph_rows ("11111" ∷ "10000" ∷ "10000" ∷ "11110" ∷ "10000" ∷ "10000" ∷ "10000" ∷ []))
    ∷ (71, glyph_rows ("01111" ∷ "10000" ∷ "10000" ∷ "10011" ∷ "10001" ∷ "10001" ∷ "01111" ∷ []))
    ∷ (72, glyph_rows ("10001" ∷ "10001" ∷ "10001" ∷ "11111" ∷ "10001" ∷ "10001" ∷ "10001" ∷ []))
    ∷ (74, glyph_rows ("00111" ∷ "00010" ∷ "00010" ∷ "00010" ∷ "10010" ∷ "10010" ∷ "01100" ∷ []))
    ∷ (75, glyph_rows ("10001" ∷ "10010" ∷ "10100" ∷ "11000" ∷ "10100" ∷ "10010" ∷ "10001" ∷ []))
    ∷ (76, glyph_rows ("10000" ∷ "10000" ∷ "10000" ∷ "10000" ∷ "10000" ∷ "10000" ∷ "11111" ∷ []))
    ∷ (77, glyph_rows ("10001" ∷ "11011" ∷ "10101" ∷ "10101" ∷ "10001" ∷ "10001" ∷ "10001" ∷ []))
    ∷ (78, glyph_rows ("10001" ∷ "11001" ∷ "10101" ∷ "10011" ∷ "10001" ∷ "10001" ∷ "10001" ∷ []))
    ∷ (80, glyph_rows ("11110" ∷ "10001" ∷ "10001" ∷ "11110" ∷ "10000" ∷ "10000" ∷ "10000" ∷ []))
    ∷ (81, glyph_rows ("01110" ∷ "10001" ∷ "10001" ∷ "10001" ∷ "10101" ∷ "10010" ∷ "01101" ∷ []))
    ∷ (82, glyph_rows ("11110" ∷ "10001" ∷ "10001" ∷ "11110" ∷ "10100" ∷ "10010" ∷ "10001" ∷ []))
    ∷ (83, glyph_rows ("01111" ∷ "10000" ∷ "10000" ∷ "01110" ∷ "00001" ∷ "00001" ∷ "11110" ∷ []))
    ∷ (84, glyph_rows ("11111" ∷ "00100" ∷ "00100" ∷ "00100" ∷ "00100" ∷ "00100" ∷ "00100" ∷ []))
    ∷ (85, glyph_rows ("10001" ∷ "10001" ∷ "10001" ∷ "10001" ∷ "10001" ∷ "10001" ∷ "01110" ∷ []))
    ∷ (86, glyph_rows ("10001" ∷ "10001" ∷ "10001" ∷ "10001" ∷ "01010" ∷ "01010" ∷ "00100" ∷ []))
    ∷ (87, glyph_rows ("10001" ∷ "10001" ∷ "10001" ∷ "10101" ∷ "10101" ∷ "11011" ∷ "10001" ∷ []))
    ∷ (88, glyph_rows ("10001" ∷ "01010" ∷ "00100" ∷ "00100" ∷ "00100" ∷ "01010" ∷ "10001" ∷ []))
    ∷ (89, glyph_rows ("10001" ∷ "01010" ∷ "00100" ∷ "00100" ∷ "00100" ∷ "00100" ∷ "00100" ∷ []))
    ∷ (90, glyph_rows ("11111" ∷ "00001" ∷ "00010" ∷ "00100" ∷ "01000" ∷ "10000" ∷ "11111" ∷ []))
    ∷ []

module _ (width height : ℕ) (color : Color) where
  -- `for dx in range(scale)`, from `dx` on, with so many left
  abbrev pub draw_across : (left : ℕ) → (x y : ℕ) → List ℕ → List ℕ
  draw_across zero x y pixels = pixels
  draw_across (suc left) x y pixels =
      draw_across left (suc x) y (set_pixel width height (pos x) (pos y) color pixels)

  -- `for dy in range(scale)`, each with a row of `scale` pixels
  abbrev pub draw_block : (left : ℕ) → (scale x y : ℕ) → List ℕ → List ℕ
  draw_block zero scale x y pixels = pixels
  draw_block (suc left) scale x y pixels =
      draw_block left scale x (suc y) (draw_across scale x y pixels)

  -- The columns of a row of the glyph; `1` is enabled.
  abbrev pub draw_columns : (row : Text) → (scale x y : ℕ) → List ℕ → List ℕ
  draw_columns [] scale x y pixels = pixels
  draw_columns (enabled ∷ row) scale x y pixels =
      draw_columns row scale (x + scale) y
        (if enabled == 49 then draw_block scale scale x y pixels else pixels)

  abbrev pub draw_rows : (rows : List Text) → (scale x y : ℕ) → List ℕ → List ℕ
  draw_rows [] scale x y pixels = pixels
  draw_rows (row ∷ rows) scale x y pixels =
      draw_rows rows scale x (y + scale) (draw_columns row scale x y pixels)

  abbrev pub draw_found : Option (List Text) → (scale x y : ℕ) → List ℕ → List ℕ
  draw_found none scale x y pixels = pixels
  draw_found (some rows) scale x y pixels = draw_rows rows scale x y pixels

  -- `_draw_glyph`
  unfoldable pub draw_glyph : (char x y scale : ℕ) → List ℕ → List ℕ
  draw_glyph char x y scale pixels = draw_found (get char captcha_glyphs) scale x y pixels

-- The random numbers of a line, and those of a character
pub record RandomLine : Type 0 where
  pub x1 : ℕ
  pub y1 : ℕ
  pub x2 : ℕ
  pub y2 : ℕ

abbrev pub blank : ℕ → List ℕ
blank zero = []
blank (suc n) = 248 ∷ 250 ∷ 252 ∷ blank n

unfoldable pub draw_noise : (width height : ℕ) → List RandomLine → Option (List ℕ) → Option (List ℕ)
draw_noise width height lines none = none
draw_noise width height [] (some pixels) = some pixels
draw_noise width height (l ∷ lines) (some pixels) =
    draw_noise width height lines
      (draw_line width height (pos l.x1) (pos l.y1) (pos l.x2) (pos l.y2) (148, 163, 184) pixels)

-- The characters from the one with that index on, each with its two random numbers
unfoldable pub draw_value : (width height : ℕ) → (index : ℕ) → List (ℕ × ℕ × ℕ) → List ℕ → List ℕ
draw_value width height index [] pixels = pixels
draw_value width height index ((char, right, down) ∷ chars) pixels =
    draw_value width height (suc index) chars
      (draw_glyph width height (15, 23, 42) char (18 + index * 28 + right) (8 + down) 4 pixels)

abbrev pub with_value : (width height : ℕ) → List (ℕ × ℕ × ℕ) → Option (List ℕ) → Option (List ℕ)
with_value width height chars none = none
with_value width height chars (some pixels) = some (draw_value width height 0 chars pixels)

-- The pixels of `_captcha_png_base64`
unfoldable pub captcha_pixels : List RandomLine → (value : List (ℕ × ℕ × ℕ)) → Option (List ℕ)
captcha_pixels lines value =
    with_value 140 44 value (draw_noise 140 44 lines (some (blank (140 * 44))))
