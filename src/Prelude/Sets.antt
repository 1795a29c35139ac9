-- ===== src/Prelude/Sets.antt =====
-- Python's `set[str]`: a list that is read through `contains`.
use Prim.Native.String.{String}
use mathlib.Core.Path.{◌≡◌}
use mathlib.Core.Bool.{Bool, true, false, not, ◌&&◌, ◌||◌}
use mathlib.Core.List.{List, [], ◌∷◌}
use native.Mathlib.Omega.{arith}
use text.Mathlib.Text.{◌==◌}
use text.Mathlib.TextEquality.{eq_iff}
use k2s.Prelude.Tests.{if◌then◌else◌}
use k2s.Prelude.Lists.{all, keep}

unfoldable pub contains : String → List String → Bool
contains a [] = false
contains a (x ∷ xs) = x == a || contains a xs

-- s.add(a)
unfoldable pub add : String → List String → List String
add a xs = if contains a xs then xs else a ∷ xs

-- s.discard(a)
unfoldable pub discard : String → List String → List String
discard a xs = keep (λ x. not (x == a)) xs

-- s.intersection(t)
unfoldable pub intersection : List String → List String → List String
intersection xs ys = keep (λ x. contains x ys) xs

-- s.issubset(t)
unfoldable pub is_subset : List String → List String → Bool
is_subset xs ys = all (λ x. contains x ys) xs

pub contains-add :
    (a b : String) (xs : List String)
    → contains b (add a xs) ≡ (if a == b then true else contains b xs)
unfolding add contains
contains-add a b xs = ground (arith, eq_iff a b)

pub contains-keep :
    (p : String → Bool) (b : String) (xs : List String)
    → contains b (keep p xs) ≡ (p b && contains b xs)
unfolding contains keep
contains-keep p b [] = ground arith
contains-keep p b (x ∷ xs) = ground (arith, contains-keep p b xs, eq_iff x b)

pub contains-discard :
    (a b : String) (xs : List String)
    → contains b (discard a xs) ≡ (if a == b then false else contains b xs)
unfolding discard
contains-discard a b xs =
    ground (arith, contains-keep (λ x. not (x == a)) b xs, eq_iff a b, eq_iff b a)

pub contains-intersection :
    (b : String) (xs ys : List String)
    → contains b (intersection xs ys) ≡ (contains b ys && contains b xs)
unfolding intersection
contains-intersection b xs ys = contains-keep (λ x. contains x ys) b xs

pub is_subset-contains :
    (b : String) (xs ys : List String)
    → is_subset xs ys ≡ true
    → contains b xs ≡ true
    → contains b ys ≡ true
unfolding is_subset contains all
is_subset-contains b [] ys h k = ground arith
is_subset-contains b (x ∷ xs) ys h k = ground (arith, is_subset-contains b xs ys, eq_iff x b)
