-- ===== src/Graphics/Intersection.antt =====
-- kernel/graphics.hpp: the intersection of rectangles is the set of the points in both.
use uhyok_os.Base.{◌+◌, ◌<◌, ◌≡◌, ◌↔◌, true, arith, Bool-cases, inl, inr, ltb→lt}
use uhyok_os.Base.Int.{ℤ, pos, ◌+ℤ◌, ◌-ℤ◌, ◌≤ℤ◌, ltb_ℤ, pos_part, neg_part, +ℤ_parts, -ℤ_parts}
use uhyok_os.Graphics.{Vector2D, Rectangle, intersect, end_of, max_ℤ, min_ℤ}

infix 50 ◌<ℤ◌
abbrev pub ◌<ℤ◌ : ℤ → ℤ → Type 0
a <ℤ b = pos_part a + neg_part b < pos_part b + neg_part a

-- From `low` up to `low + size`, the end excluded.
abbrev pub Within : ℤ → ℤ → ℤ → Type 0
Within low size p = (low ≤ℤ p) × (p <ℤ low +ℤ size)

-- The point is a pixel of the rectangle.
abbrev pub Contains : Rectangle → Vector2D → Type 0
Contains r p = Within r.pos.x r.size.x p.x × Within r.pos.y r.size.y p.y

-- On one axis.
Within-overlap :
    (a n b k p : ℤ)
    → (Within (max_ℤ a b) (min_ℤ (a +ℤ n) (b +ℤ k) -ℤ max_ℤ a b) p ↔ (Within a n p × Within b k p))
Within-overlap a n b k p = ground (
  arith,
  +ℤ_parts a n,
  +ℤ_parts b k,
  +ℤ_parts (max_ℤ a b) (min_ℤ (a +ℤ n) (b +ℤ k) -ℤ max_ℤ a b),
  -ℤ_parts (min_ℤ (a +ℤ n) (b +ℤ k)) (max_ℤ a b),
)

-- Rectangles that are apart on an axis share nothing of it.
Within-apart : (a n b k p : ℤ) → ltb_ℤ (a +ℤ n) b ≡ true → Within a n p → Within b k p → ⊥
Within-apart a n b k p h u v =
    omega (arith, ltb→lt (pos_part (a +ℤ n) + neg_part b) (pos_part b + neg_part (a +ℤ n)) h)

Within-none : (p : ℤ) → Within (pos 0) (pos 0) p → ⊥
unfolding ◌+ℤ◌
Within-none p u = omega arith

-- A point is a pixel of the intersection exactly when it is one of both rectangles.
pub intersect-Contains :
    (a b : Rectangle) (p : Vector2D) → (Contains (intersect a b) p ↔ (Contains a p × Contains b p))
unfolding intersect
intersect-Contains a b p = elim (Bool-cases (ltb_ℤ (end_of a).x b.pos.x)) [
  | inl apart ↦
      rw (apart, intersect)
        (
          (λ c. absurd (Within-none p.x c.0)),
          (λ c. absurd (Within-apart a.pos.x a.size.x b.pos.x b.size.x p.x apart c.0.0 c.1.0)),
        )
  | inr e ↦ elim (Bool-cases (ltb_ℤ (end_of a).y b.pos.y)) [
    | inl apart ↦
        rw (e, apart, intersect)
          (
            (λ c. absurd (Within-none p.x c.0)),
            (λ c. absurd (Within-apart a.pos.y a.size.y b.pos.y b.size.y p.y apart c.0.1 c.1.1)),
          )
    | inr f ↦ elim (Bool-cases (ltb_ℤ (end_of b).x a.pos.x)) [
      | inl apart ↦
          rw (e, f, apart, intersect)
            (
              (λ c. absurd (Within-none p.x c.0)),
              (λ c. absurd (Within-apart b.pos.x b.size.x a.pos.x a.size.x p.x apart c.1.0 c.0.0)),
            )
      | inr g ↦ elim (Bool-cases (ltb_ℤ (end_of b).y a.pos.y)) [
        | inl apart ↦
            rw (e, f, g, apart, intersect)
              (
                (λ c. absurd (Within-none p.x c.0)),
                (λ c.
                    absurd (Within-apart b.pos.y b.size.y a.pos.y a.size.y p.y apart c.1.1 c.0.1)),
              )
        | inr h ↦
            let on_x = Within-overlap a.pos.x a.size.x b.pos.x b.size.x p.x in
            let on_y = Within-overlap a.pos.y a.size.y b.pos.y b.size.y p.y in
            rw (e, f, g, h, intersect)
              (
                (λ c. let u = on_x.0 c.0 in let v = on_y.0 c.1 in ((u.0, v.0), (u.1, v.1))),
                (λ c. (on_x.1 (c.0.0, c.1.0), on_y.1 (c.0.1, c.1.1))),
              )
      ]
    ]
  ]
]
