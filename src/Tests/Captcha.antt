-- ===== src/Tests/Captcha.antt =====
-- Runs of the drawing of a captcha.
use acoj_worker.Common.{
  ℕ, List, [], ◌∷◌, some, Text, true, ◌&&◌, all, length, nat_eq, ◌==◌, ◌≡◌, refl,
}
use acoj_worker.Common.Int.{pos, ◌+ℤ◌, neg_ℤ, abs_ℤ}
use acoj_worker.Security.Captcha.{
  put_bytes, set_pixel, advance, draw_loop, line_to, pen_at, draw_line,
}
use acoj_worker.Security.Captcha.Ending.{IsDrawn, draw_line-IsDrawn}
use acoj_worker.Security.Captcha.Glyphs.{captcha_glyphs}

abbrev black : ℕ × ℕ × ℕ
black = (0, 0, 0)

abbrev white : List ℕ
white = 9 ∷ 9 ∷ 9 ∷ 9 ∷ 9 ∷ 9 ∷ 9 ∷ 9 ∷ 9 ∷ 9 ∷ 9 ∷ 9 ∷ []

-- From the lower right corner of a square of two pixels to the upper left one
draw_line_sample :
    draw_line 2 2 (pos 1) (pos 1) (pos 0) (pos 0) black white
    ≡ some (0 ∷ 0 ∷ 0 ∷ 9 ∷ 9 ∷ 9 ∷ 9 ∷ 9 ∷ 9 ∷ 0 ∷ 0 ∷ 0 ∷ [])
unfolding draw_line line_to pen_at draw_loop advance set_pixel put_bytes ◌+ℤ◌ neg_ℤ abs_ℤ
draw_line_sample = refl

-- Each glyph has seven rows of five columns.
captcha_glyphs_sample :
    all (λ g. length g.1 == 7 && all (λ (row : Text). length row == 5) g.1) captcha_glyphs ≡ true
unfolding captcha_glyphs
captcha_glyphs_sample = refl

draw_line-IsDrawn_example :
    IsDrawn 2 2 black white (draw_line 2 2 (pos 1) (pos 1) (pos 0) (pos 0) black white)
draw_line-IsDrawn_example = draw_line-IsDrawn 2 2 black (pos 1) (pos 1) (pos 0) (pos 0) white refl
