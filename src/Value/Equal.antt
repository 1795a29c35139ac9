-- ===== src/Value/Equal.antt =====
-- Python's `==` on JSON values: numbers of any kind compare by value, dicts without order.
use k2s.Prelude.{
  ◌≡◌, refl, ap, eq_iff, arith, ℕ, suc, Bool, true, false, not, ◌&&◌, String, ℤ, pos, List, [], ◌∷◌,
  Option, none, some, ◌==◌, if◌then◌else◌, eqb, eqb_ℤ, leb_ℤ, scale, any,
}
use k2s.Value.Defs.{
  Value, null, boolean, int, float, str, arr, obj, Items, nil, cons, Fields, end, field,
}

-- A number as `m / 2 ^ k`.
unfoldable pub as_number : Value → Option (ℤ × ℕ)
as_number (boolean true) = some (pos 1, 0)
as_number (boolean false) = some (pos 0, 0)
as_number (int n) = some (n, 0)
as_number (float m k) = some (m, k)
as_number _ = none

unfoldable same_number : Option (ℤ × ℕ) → Option (ℤ × ℕ) → Bool
same_number (some (m, k)) (some (n, l)) = eqb_ℤ (scale m l) (scale n k)
same_number _ _ = false

-- 0.0 <= v <= 1.0, false where the comparison raises `TypeError`.
unfoldable pub in_unit : Value → Bool
unfolding as_number
in_unit v = elim (as_number v) [
  | none ↦ false
  | some (m, k) ↦ leb_ℤ (pos 0) m && leb_ℤ m (scale (pos 1) k)
]

count_fields : Fields → ℕ
count_fields end = 0
count_fields (field k v fs) = suc (count_fields fs)

value_at : String → Fields → Option Value
value_at k end = none
value_at k (field j v fs) = if j == k then some v else value_at k fs

unfoldable mutual
  unfolding as_number same_number count_fields value_at

  pub same : Value → Value → Bool
  same null null = true
  same (str s) (str t) = s == t
  same (arr xs) (arr ys) = same_items xs ys
  same (obj fs) (obj gs) = eqb (count_fields fs) (count_fields gs) && same_fields fs gs
  same v w = same_number (as_number v) (as_number w)

  pub same_items : Items → Items → Bool
  same_items nil nil = true
  same_items (cons v xs) (cons w ys) = same v w && same_items xs ys
  same_items _ _ = false

  pub same_fields : Fields → Fields → Bool
  same_fields end gs = true
  same_fields (field k v fs) gs =
      elim (value_at k gs) [ none ↦ false | some w ↦ same v w ] && same_fields fs gs

-- hash(v) does not raise
unfoldable pub hashable : Value → Bool
hashable (arr xs) = false
hashable (obj fs) = false
hashable _ = true

-- len(set(vs)) == len(vs), for hashable values
unfoldable pub distinct : List Value → Bool
unfolding same any
distinct [] = true
distinct (v ∷ vs) = not (any (same v) vs) && distinct vs

same_number-none : (x : Option (ℤ × ℕ)) → same_number x none ≡ false
unfolding same_number
same_number-none none = refl
same_number-none (some x) = refl

-- What equals a text is that text.
pub same-str : (v : Value) (s : String) → same v (str s) ≡ true → v ≡ str s
unfolding same as_number
same-str null s h = absurd (ground (arith, same_number-none (as_number null)))
same-str (boolean b) s h = absurd (ground (arith, same_number-none (as_number (boolean b))))
same-str (int n) s h = absurd (ground (arith, same_number-none (as_number (int n))))
same-str (float m k) s h = absurd (ground (arith, same_number-none (as_number (float m k))))
same-str (str t) s h = ap str ((eq_iff t s).0 h)
same-str (arr xs) s h = absurd (ground (arith, same_number-none (as_number (arr xs))))
same-str (obj fs) s h = absurd (ground (arith, same_number-none (as_number (obj fs))))
