-- ===== src/Security/Captcha/Course.antt =====
-- _draw_line of transport.py: one turn of its loop.
use acoj_worker.Common.{
  ℕ, zero, suc, ◌+◌, ◌*◌, ◌≤◌, ◌<◌, Bool, true, false, Bool-cases, nat_beq, ◌≡◌, ◌⊎◌, refl, subst,
  sym, arith, inl, inr,
}
use acoj_worker.Common.Int.{
  ℤ, above, below, ◌+ℤ◌, neg_ℤ, abs_ℤ, leb_ℤ, eqb_ℤ, +ℤ_balance, neg_ℤ_balance, one_sided,
}
use acoj_worker.Security.Captcha.{
  Pen, Line, move_x, move_y, advance, is_at_end, step_to, line_to, pen_at,
}

-- `far` steps of 1 or -1 lead from the one number to the other.
abbrev pub IsAway : (far : ℕ) (step from to : ℤ) → Type 0
IsAway far step from to =
    ((above step ≡ 1) × (below step ≡ 0) × (above to + below from ≡ below to + above from + far))
    ⊎ ((above step ≡ 0) × (below step ≡ 1) × (above to + below from + far ≡ below to + above from))

IsAway-move :
    (far : ℕ) (step from to : ℤ) → IsAway (suc far) step from to → IsAway far step (from +ℤ step) to
IsAway-move far step from to (inl (one, none_below, way)) =
    let s = +ℤ_balance from step in inl (one, none_below, omega arith)
IsAway-move far step from to (inr (none_above, one, way)) =
    let s = +ℤ_balance from step in inr (none_above, one, omega arith)

IsAway-here : (far : ℕ) (step from to : ℤ) → IsAway far step from to → eqb_ℤ from to ≡ nat_beq far 0
IsAway-here far step from to (inl (one, none_below, way)) = ground arith
IsAway-here far step from to (inr (none_above, one, way)) = ground arith

IsAway-start : (from to : ℤ) → IsAway (above (abs_ℤ (to +ℤ neg_ℤ from))) (step_to from to) from to
unfolding abs_ℤ
IsAway-start from to =
    let s = +ℤ_balance to (neg_ℤ from) in
    let n = neg_ℤ_balance from in
    let side = one_sided (to +ℤ neg_ℤ from) in
    elim (Bool-cases (leb_ℤ to from)) [
      | inl e ↦ rw e (inr (refl, refl, ground arith))
      | inr e ↦ rw e (inl (refl, refl, ground arith))
    ]

-- `p` and `q` steps are left, and the error is what they make of it.
pub record IsUnderway (l : Line) (p q : ℕ) (pen : Pen) : Type 0 where
  pub x_away : IsAway p l.sx pen.x1 l.x2
  pub y_away : IsAway q l.sy pen.y1 l.y2
  pub x_left : p ≤ above l.dx
  pub y_left : q ≤ below l.dy
  pub dx_sign : below l.dx ≡ 0
  pub dy_sign : above l.dy ≡ 0
  pub balanced :
      above pen.error + below l.dy + q * above l.dx ≡ below pen.error + above l.dx + p * below l.dy

pub suc-mul : (n m : ℕ) → suc n * m ≡ n * m + m
suc-mul n m = omega arith

-- What the two tests decide
abbrev goes_x : Line → Pen → Bool
goes_x l pen = leb_ℤ l.dy (pen.error +ℤ pen.error)

abbrev goes_y : Line → Pen → Bool
goes_y l pen = leb_ℤ (pen.error +ℤ pen.error) l.dx

module _ (l : Line) (pen : Pen) where
  goes-x_only :
      (p : ℕ) → IsUnderway l (suc p) 0 pen → (goes_x l pen ≡ true) × (goes_y l pen ≡ false)
  goes-x_only p h =
      let e2 = +ℤ_balance pen.error pen.error in
      let left = suc-mul p (below l.dy) in
      let b = h.balanced in
      let c = h.dx_sign in let d = h.dy_sign in let f = h.x_left in (ground arith, ground arith)

  goes-y_only :
      (q : ℕ) → IsUnderway l 0 (suc q) pen → (goes_x l pen ≡ false) × (goes_y l pen ≡ true)
  goes-y_only q h =
      let e2 = +ℤ_balance pen.error pen.error in
      let left = suc-mul q (above l.dx) in
      let b = h.balanced in
      let c = h.dx_sign in let d = h.dy_sign in let f = h.y_left in (ground arith, ground arith)

  goes-somewhere : (p q : ℕ) → IsUnderway l p q pen → (goes_x l pen ≡ false) → goes_y l pen ≡ true
  goes-somewhere p q h off =
      let e2 = +ℤ_balance pen.error pen.error in
      let c = h.dx_sign in let d = h.dy_sign in ground arith

  move_x-IsUnderway : (p q : ℕ) → IsUnderway l (suc p) q pen → IsUnderway l p q (move_x l pen)
  move_x-IsUnderway p q h =
      let sum = +ℤ_balance pen.error l.dy in
      let left = suc-mul p (below l.dy) in
      let b = h.balanced in
      let c = h.dx_sign in
      let d = h.dy_sign in
      let f = h.x_left in
      record {
        x_away = IsAway-move p l.sx pen.x1 l.x2 h.x_away;
        y_away = h.y_away;
        x_left = omega arith;
        y_left = h.y_left;
        dx_sign = h.dx_sign;
        dy_sign = h.dy_sign;
        balanced = omega arith;
      }

  move_y-IsUnderway : (p q : ℕ) → IsUnderway l p (suc q) pen → IsUnderway l p q (move_y l pen)
  move_y-IsUnderway p q h =
      let sum = +ℤ_balance pen.error l.dx in
      let left = suc-mul q (above l.dx) in
      let b = h.balanced in
      let c = h.dx_sign in
      let d = h.dy_sign in
      let f = h.y_left in
      record {
        x_away = h.x_away;
        y_away = IsAway-move q l.sy pen.y1 l.y2 h.y_away;
        x_left = h.x_left;
        y_left = omega arith;
        dx_sign = h.dx_sign;
        dy_sign = h.dy_sign;
        balanced = omega arith;
      }

-- One turn of the loop away from the end
pub record Progress (l : Line) (p q : ℕ) (pen : Pen) : Type 0 where
  pub p' : ℕ
  pub q' : ℕ
  pub fewer : p' + q' < p + q
  pub underway : IsUnderway l p' q' (advance l pen)

module _ (l : Line) (pen : Pen) where
  move_x-Progress :
      (p q : ℕ)
      → IsUnderway l (suc p) q pen
      → goes_x l pen ≡ true
      → goes_y l pen ≡ false
      → Progress l (suc p) q pen
  unfolding advance
  move_x-Progress p q h on off = record {
    p' = p;
    q' = q;
    fewer = omega arith;
    underway = rw (on, off) (move_x-IsUnderway l pen p q h);
  }

  move_y-Progress :
      (p q : ℕ)
      → IsUnderway l p (suc q) pen
      → goes_x l pen ≡ false
      → goes_y l pen ≡ true
      → Progress l p (suc q) pen
  unfolding advance
  move_y-Progress p q h off on = record {
    p' = p;
    q' = q;
    fewer = omega arith;
    underway = rw (on, off) (move_y-IsUnderway l pen p q h);
  }

  move_both-Progress :
      (p q : ℕ)
      → IsUnderway l (suc p) (suc q) pen
      → goes_x l pen ≡ true
      → goes_y l pen ≡ true
      → Progress l (suc p) (suc q) pen
  unfolding advance
  move_both-Progress p q h on_x on_y = record {
    p' = p;
    q' = q;
    fewer = omega arith;
    underway =
        rw (on_x, on_y)
          (move_y-IsUnderway l (move_x l pen) p q (move_x-IsUnderway l pen p (suc q) h));
  }

  pub advance-Progress : (p q : ℕ) → 0 < p + q → IsUnderway l p q pen → Progress l p q pen
  advance-Progress zero zero some_left h = absurd (omega arith)
  advance-Progress (suc p) zero some_left h =
      let (on, off) = goes-x_only l pen p h in move_x-Progress p 0 h on off
  advance-Progress zero (suc q) some_left h =
      let (off, on) = goes-y_only l pen q h in move_y-Progress 0 q h off on
  advance-Progress (suc p) (suc q) some_left h = elim (Bool-cases (goes_x l pen)) [
    | inr off ↦ move_y-Progress (suc p) q h off (goes-somewhere l pen (suc p) (suc q) h off)
    | inl on ↦ elim (Bool-cases (goes_y l pen)) [
      | inl on_y ↦ move_both-Progress p q h on on_y
      | inr off_y ↦ move_x-Progress p (suc q) h on off_y
    ]
  ]

  pub at_end : IsUnderway l 0 0 pen → is_at_end l pen ≡ true
  at_end h =
      let x = IsAway-here 0 l.sx pen.x1 l.x2 h.x_away in
      let y = IsAway-here 0 l.sy pen.y1 l.y2 h.y_away in ground arith

pub steps_left :
    (l : Line) (pen : Pen) (p q : ℕ) → IsUnderway l p q pen → is_at_end l pen ≡ false → 0 < p + q
steps_left l pen zero zero u e = absurd (let there = at_end l pen u in ground arith)
steps_left l pen (suc p) q u e = omega arith
steps_left l pen zero (suc q) u e = omega arith

neg_ℤ-abs_ℤ : (x : ℤ) → (below (neg_ℤ (abs_ℤ x)) ≡ above (abs_ℤ x)) × (above (neg_ℤ (abs_ℤ x)) ≡ 0)
unfolding neg_ℤ abs_ℤ
neg_ℤ-abs_ℤ x = (ground arith, ground arith)

abs_ℤ-below : (x : ℤ) → below (abs_ℤ x) ≡ 0
unfolding abs_ℤ
abs_ℤ-below x = refl

pub start-IsUnderway :
    (x1 y1 x2 y2 : ℤ)
    → let l = line_to x1 y1 x2 y2 in IsUnderway l (above l.dx) (below l.dy) (pen_at x1 y1 l)
unfolding line_to pen_at
start-IsUnderway x1 y1 x2 y2 =
    let l = line_to x1 y1 x2 y2 in
    let error = +ℤ_balance l.dx l.dy in
    let x = IsAway-start x1 x2 in
    let y = IsAway-start y1 y2 in
    let (turned, none_above) = neg_ℤ-abs_ℤ (y2 +ℤ neg_ℤ y1) in
    let none_below = abs_ℤ-below (x2 +ℤ neg_ℤ x1) in
    record {
      x_away = x;
      y_away = subst (λ far. IsAway far l.sy y1 y2) (sym turned) y;
      x_left = omega arith;
      y_left = omega arith;
      dx_sign = none_below;
      dy_sign = none_above;
      balanced = omega arith;
    }
