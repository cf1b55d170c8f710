-- ===== src/Security/Captcha/Ending.antt =====
-- _draw_line of transport.py: its loop and the size of the picture.
use acoj_worker.Common.{
  ℕ, zero, suc, ◌+◌, ◌*◌, ◌≤◌, ◌<◌, Option, some, List, ◌∷◌, length, length-append, length-drop,
  take, drop, take-append-drop, ltb, Bool-cases, ◌≡◌, refl, ap, ◌∙◌, arith, inl, inr,
}
use acoj_worker.Common.Int.{ℤ, above, below}
use acoj_worker.Security.Captcha.{
  Color, put_bytes, set_pixel, Pen, Line, advance, is_at_end, draw_loop, line_to, pen_at, turns,
  draw_line,
}
use acoj_worker.Security.Captcha.Course.{
  IsUnderway, suc-mul, advance-Progress, at_end, steps_left, start-IsUnderway,
}

put_bytes-length :
    (offset : ℕ) (color : Color) (pixels : List ℕ)
    → offset + 3 ≤ length pixels
    → length (put_bytes offset color pixels) ≡ length pixels
unfolding put_bytes
put_bytes-length offset (red, green, blue) pixels h =
    let whole =
      length-append (take offset pixels) (red ∷ green ∷ blue ∷ drop (offset + 3) pixels) in
    let start = length-append (take offset pixels) (drop offset pixels) in
    let both = ap (λ (l : List ℕ). length l) (take-append-drop offset pixels) in
    let behind = length-drop offset pixels in
    let end = length-drop (offset + 3) pixels in omega arith

-- A pixel of the picture is among its pixels.
place-lt : (width height x y : ℕ) → x < width → y < height → y * width + x < width * height
place-lt width zero x y hx hy = absurd (omega arith)
place-lt width (suc height) x zero hx hy =
    let more : width * suc height ≡ width * height + width = omega arith in omega arith
place-lt width (suc height) x (suc y) hx hy =
    let ih = place-lt width height x y hx (omega arith) in
    let more : width * suc height ≡ width * height + width = omega arith in
    let row = suc-mul y width in omega arith

module _ (width height : ℕ) (color : Color) where
  pub set_pixel-length :
      (x y : ℤ) (pixels : List ℕ)
      → length pixels ≡ width * height * 3
      → length (set_pixel width height x y color pixels) ≡ length pixels
  unfolding set_pixel
  set_pixel-length x y pixels h = elim (Bool-cases (ltb (above x) width)) [
    | inr off ↦
        let skipped : set_pixel width height x y color pixels ≡ pixels = ground arith in
        ap (λ (l : List ℕ). length l) skipped
    | inl in_x ↦ elim (Bool-cases (ltb (above y) height)) [
      | inr off ↦
          let skipped : set_pixel width height x y color pixels ≡ pixels = ground arith in
          ap (λ (l : List ℕ). length l) skipped
      | inl in_y ↦
          let place = place-lt width height (above x) (above y) (ground arith) (ground arith) in
          let kept =
            put_bytes-length ((above y * width + above x) * 3) color pixels (omega arith) in
          ground arith
    ]
  ]

  -- It ends, with as many bytes as there were.
  abbrev pub IsDrawn : (pixels : List ℕ) → Option (List ℕ) → Type 0
  IsDrawn pixels o = (drawn : List ℕ) × (o ≡ some drawn) × (length drawn ≡ length pixels)

  draw_loop-IsDrawn :
      (n p q : ℕ) (l : Line) (pen : Pen) (pixels : List ℕ)
      → p + q ≤ n
      → IsUnderway l p q pen
      → length pixels ≡ width * height * 3
      → IsDrawn pixels (draw_loop n width height color l pen pixels)
  unfolding draw_loop
  draw_loop-IsDrawn zero zero zero l pen pixels h u size =
      let last = set_pixel width height pen.x1 pen.y1 color pixels in
      rw (at_end l pen u) (last, refl, set_pixel-length pen.x1 pen.y1 pixels size)
  draw_loop-IsDrawn zero (suc p) q l pen pixels h u size = absurd (omega arith)
  draw_loop-IsDrawn zero zero (suc q) l pen pixels h u size = absurd (omega arith)
  draw_loop-IsDrawn (suc n) p q l pen pixels h u size =
      let next = set_pixel width height pen.x1 pen.y1 color pixels in
      let same = set_pixel-length pen.x1 pen.y1 pixels size in
      elim (Bool-cases (is_at_end l pen)) [
        | inl e ↦ rw e (next, refl, same)
        | inr e ↦
            let t = advance-Progress l pen p q (steps_left l pen p q u e) u in
            let (drawn, ends, size') =
              draw_loop-IsDrawn n t.p' t.q' l (advance l pen) next (let f = t.fewer in omega arith)
                t.underway (same ∙ size) in
            rw e (drawn, ends, size' ∙ same)
      ]

  -- On a picture of three bytes for each pixel, between any two points: the loop of `_draw_line` ends,
  -- after at most |x2 - x1| + |y2 - y1| turns behind the first, and the picture keeps its size.
  pub draw_line-IsDrawn :
      (x1 y1 x2 y2 : ℤ) (pixels : List ℕ)
      → length pixels ≡ width * height * 3
      → IsDrawn pixels (draw_line width height x1 y1 x2 y2 color pixels)
  unfolding draw_line
  draw_line-IsDrawn x1 y1 x2 y2 pixels size =
      let l = line_to x1 y1 x2 y2 in
      draw_loop-IsDrawn (turns l) (above l.dx) (below l.dy) l (pen_at x1 y1 l) pixels (omega arith)
        (start-IsUnderway x1 y1 x2 y2) size
