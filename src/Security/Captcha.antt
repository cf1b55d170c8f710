-- ===== src/Security/Captcha.antt =====
-- app/core/security/transport.py: the drawing of a captcha as a bitmap. The random numbers are
-- inputs; the cryptographic functions of the file and the compression are not modelled.
pub mod Course
pub mod Ending
pub mod Glyphs
pub mod Picture
use acoj_worker.Common.{
  ℕ, zero, suc, ◌+◌, ◌*◌, Bool, true, false, not, ◌&&◌, ◌||◌, Option, none, some, List, [], ◌∷◌,
  ◌++◌, take, drop, ltb, if◌then◌else◌,
}
use acoj_worker.Common.Int.{ℤ, pos, negsuc, above, below, ◌+ℤ◌, neg_ℤ, abs_ℤ, leb_ℤ, eqb_ℤ}

-- The three bytes of a pixel
abbrev pub Color : Type 0
Color = ℕ × ℕ × ℕ

abbrev pub color_bytes : Color → List ℕ
color_bytes (red, green, blue) = red ∷ green ∷ blue ∷ []

abbrev pub is_negative : ℤ → Bool
is_negative x = ltb 0 (below x)

-- `pixels[offset : offset + 3] = bytes(color)`
unfoldable pub put_bytes : ℕ → Color → List ℕ → List ℕ
put_bytes offset color pixels =
    take offset pixels ++ (color_bytes color ++ drop (offset + 3) pixels)

-- `_set_pixel`
unfoldable pub set_pixel : (width height : ℕ) → (x y : ℤ) → Color → List ℕ → List ℕ
set_pixel width height x y color pixels =
    if is_negative x || not (ltb (above x) width) || is_negative y || not (ltb (above y) height)
    then pixels
    else put_bytes ((above y * width + above x) * 3) color pixels

-- The variables of `_draw_line` that its loop changes
pub record Pen : Type 0 where
  pub x1 : ℤ
  pub y1 : ℤ
  pub error : ℤ

-- Those that it does not change
pub record Line : Type 0 where
  pub x2 : ℤ
  pub y2 : ℤ
  pub dx : ℤ
  pub dy : ℤ
  pub sx : ℤ
  pub sy : ℤ

abbrev pub move_x : Line → Pen → Pen
move_x l p = record p { x1 = p.x1 +ℤ l.sx; error = p.error +ℤ l.dy }

abbrev pub move_y : Line → Pen → Pen
move_y l p = record p { y1 = p.y1 +ℤ l.sy; error = p.error +ℤ l.dx }

-- The two `if`s, where `e2` is taken before the first
unfoldable pub advance : Line → Pen → Pen
advance l p =
    let e2 = p.error +ℤ p.error in
    let first = if leb_ℤ l.dy e2 then move_x l p else p in
    if leb_ℤ e2 l.dx then move_y l first else first

abbrev pub is_at_end : Line → Pen → Bool
is_at_end l p = eqb_ℤ p.x1 l.x2 && eqb_ℤ p.y1 l.y2

-- The loop, with at most so many more turns; `none` where they do not suffice
unfoldable pub draw_loop : ℕ → (width height : ℕ) → Color → Line → Pen → List ℕ → Option (List ℕ)
draw_loop zero width height color l p pixels =
    if is_at_end l p then some (set_pixel width height p.x1 p.y1 color pixels) else none
draw_loop (suc n) width height color l p pixels =
    let drawn = set_pixel width height p.x1 p.y1 color pixels in
    let rest = draw_loop n width height color l (advance l p) drawn in
    if is_at_end l p then some drawn else rest

-- `1 if a < b else -1`
abbrev pub step_to : ℤ → ℤ → ℤ
step_to a b = if leb_ℤ b a then negsuc 0 else pos 1

unfoldable pub line_to : (x1 y1 x2 y2 : ℤ) → Line
line_to x1 y1 x2 y2 = record {
  x2 = x2;
  y2 = y2;
  dx = abs_ℤ (x2 +ℤ neg_ℤ x1);
  dy = neg_ℤ (abs_ℤ (y2 +ℤ neg_ℤ y1));
  sx = step_to x1 x2;
  sy = step_to y1 y2;
}

unfoldable pub pen_at : (x1 y1 : ℤ) → Line → Pen
pen_at x1 y1 l = record { x1 = x1; y1 = y1; error = l.dx +ℤ l.dy }

-- The number of turns behind the first that always suffices
abbrev pub turns : Line → ℕ
turns l = above l.dx + below l.dy

-- `_draw_line`
unfoldable pub draw_line : (width height : ℕ) → (x1 y1 x2 y2 : ℤ) → Color → List ℕ → Option (List ℕ)
draw_line width height x1 y1 x2 y2 color pixels =
    let l = line_to x1 y1 x2 y2 in draw_loop (turns l) width height color l (pen_at x1 y1 l) pixels
