-- ===== src/Security/Captcha/Picture.antt =====
-- _captcha_png_base64 of transport.py: the size of the picture.
use acoj_worker.Common.{
  ℕ, zero, suc, ◌+◌, ◌*◌, Option, none, some, List, [], ◌∷◌, Text, length, nat_eq, ◌==◌, Bool-cases,
  get, ◌≡◌, refl, ap, ◌∙◌, arith, inl, inr,
}
use acoj_worker.Common.Int.{pos}
use acoj_worker.Security.Captcha.{Color, set_pixel}
use acoj_worker.Security.Captcha.Ending.{set_pixel-length, draw_line-IsDrawn}
use acoj_worker.Security.Captcha.Glyphs.{
  captcha_glyphs, draw_across, draw_block, draw_columns, draw_rows, draw_found, draw_glyph,
  RandomLine, blank, draw_noise, draw_value, captcha_pixels,
}

module _ (width height : ℕ) where
  abbrev IsSized : List ℕ → Type 0
  IsSized pixels = length pixels ≡ width * height * 3

  module _ (color : Color) where
    draw_across-IsSized :
        (left x y : ℕ) (pixels : List ℕ)
        → IsSized pixels
        → IsSized (draw_across width height color left x y pixels)
    draw_across-IsSized zero x y pixels h = h
    draw_across-IsSized (suc left) x y pixels h =
        draw_across-IsSized left (suc x) y (set_pixel width height (pos x) (pos y) color pixels)
          (set_pixel-length width height color (pos x) (pos y) pixels h ∙ h)

    draw_block-IsSized :
        (left scale x y : ℕ) (pixels : List ℕ)
        → IsSized pixels
        → IsSized (draw_block width height color left scale x y pixels)
    draw_block-IsSized zero scale x y pixels h = h
    draw_block-IsSized (suc left) scale x y pixels h =
        draw_block-IsSized left scale x (suc y) (draw_across width height color scale x y pixels)
          (draw_across-IsSized scale x y pixels h)

    draw_columns-IsSized :
        (row : Text) (scale x y : ℕ) (pixels : List ℕ)
        → IsSized pixels
        → IsSized (draw_columns width height color row scale x y pixels)
    draw_columns-IsSized [] scale x y pixels h = h
    draw_columns-IsSized (c ∷ row) scale x y pixels h = elim (Bool-cases (c == 49)) [
      | inl e ↦ rw e (
          draw_columns-IsSized row scale (x + scale) y
            (draw_block width height color scale scale x y pixels)
            (draw_block-IsSized scale scale x y pixels h))
      | inr e ↦ rw e (draw_columns-IsSized row scale (x + scale) y pixels h)
    ]

    draw_rows-IsSized :
        (rows : List Text) (scale x y : ℕ) (pixels : List ℕ)
        → IsSized pixels
        → IsSized (draw_rows width height color rows scale x y pixels)
    draw_rows-IsSized [] scale x y pixels h = h
    draw_rows-IsSized (row ∷ rows) scale x y pixels h =
        draw_rows-IsSized rows scale x (y + scale)
          (draw_columns width height color row scale x y pixels)
          (draw_columns-IsSized row scale x y pixels h)

    draw_found-IsSized :
        (found : Option (List Text)) (scale x y : ℕ) (pixels : List ℕ)
        → IsSized pixels
        → IsSized (draw_found width height color found scale x y pixels)
    draw_found-IsSized none scale x y pixels h = h
    draw_found-IsSized (some rows) scale x y pixels h = draw_rows-IsSized rows scale x y pixels h

    draw_glyph-IsSized :
        (char x y scale : ℕ) (pixels : List ℕ)
        → IsSized pixels
        → IsSized (draw_glyph width height color char x y scale pixels)
    unfolding draw_glyph
    draw_glyph-IsSized char x y scale pixels h =
        draw_found-IsSized (get char captcha_glyphs) scale x y pixels h

  draw_value-IsSized :
      (index : ℕ) (chars : List (ℕ × ℕ × ℕ)) (pixels : List ℕ)
      → IsSized pixels
      → IsSized (draw_value width height index chars pixels)
  unfolding draw_value
  draw_value-IsSized index [] pixels h = h
  draw_value-IsSized index ((char, right, down) ∷ chars) pixels h =
      draw_value-IsSized (suc index) chars
        (draw_glyph width height (15, 23, 42) char (18 + index * 28 + right) (8 + down) 4 pixels)
        (draw_glyph-IsSized (15, 23, 42) char (18 + index * 28 + right) (8 + down) 4 pixels h)

  draw_noise-IsSized :
      (lines : List RandomLine) (pixels : List ℕ)
      → IsSized pixels
      → (drawn : List ℕ) × (draw_noise width height lines (some pixels) ≡ some drawn)
        × IsSized drawn
  unfolding draw_noise
  draw_noise-IsSized [] pixels h = (pixels, refl, h)
  draw_noise-IsSized (l ∷ lines) pixels h =
      let (one, ends, same) =
        draw_line-IsDrawn width height (148, 163, 184) (pos l.x1) (pos l.y1) (pos l.x2) (pos l.y2)
          pixels h in
      let (drawn, ends', h') = draw_noise-IsSized lines one (same ∙ h) in
      (drawn, ap (draw_noise width height lines) ends ∙ ends', h')

length-blank : (n : ℕ) → length (blank n) ≡ n * 3
length-blank zero = refl
length-blank (suc n) = omega (arith, length-blank n)

-- Whatever the random numbers are, the drawing of a captcha ends, and the picture has three bytes for
-- each of its 140 * 44 pixels.
captcha_pixels-length :
    (lines : List RandomLine) (value : List (ℕ × ℕ × ℕ))
    → (drawn : List ℕ) × (captcha_pixels lines value ≡ some drawn) × (length drawn ≡ 18480)
unfolding captcha_pixels
captcha_pixels-length lines value =
    let (noisy, ends, size) =
      draw_noise-IsSized 140 44 lines (blank (140 * 44)) (length-blank (140 * 44)) in
    (draw_value 140 44 0 value noisy, rw ends refl, draw_value-IsSized 140 44 0 value noisy size)
