-- ===== src/Store/Unseen.antt =====
-- Counting for the recursive query of argo_dt/event_store.py: each round uses up a pending row, and
-- each row that it adds uses up an edge whose target was not seen.
use k2s.Prelude.{
  ℕ, suc, ◌+◌, ◌≤◌, String, ◌≡◌, refl, sym, ◌∙◌, true, false, not, ◌&&◌, ◌||◌, List, [], ◌∷◌, ◌++◌,
  any, keep, length, arith, eq_iff, Bool-cases, inl, inr, eq_refl,
}
use mathlib.Core.Path.{subst}
use k2s.Store.Defs.{Edge}
use k2s.Store.Index.{Node, same_node, seen_in, leaves, target, successors}

pub same_node_eq : (a b : Node) → same_node a b ≡ true → a ≡ b
same_node_eq a b h = ground (arith, eq_iff a.kind b.kind, eq_iff a.id b.id)

pub same_node_refl : (a : Node) → same_node a a ≡ true
same_node_refl a = ground (arith, eq_refl a.kind, eq_refl a.id)

pub seen_in-append :
    (n : Node) (ms ns : List Node) → seen_in n (ms ++ ns) ≡ (seen_in n ms || seen_in n ns)
unfolding seen_in any
seen_in-append n [] ns = refl
seen_in-append n (a ∷ ms) ns = ground (arith, seen_in-append n ms ns)

-- The edges whose target was not seen.
abbrev pub unseen : List Edge → List Node → ℕ
unseen edges seen = length (keep (λ e. not (seen_in (target e) seen)) edges)

-- Where everything seen is seen again, no more edges are unseen.
unseen_mono :
    (es : List Edge) (ms ns : List Node)
    → ((n : Node) → seen_in n ms ≡ true → seen_in n ns ≡ true)
    → unseen es ns ≤ unseen es ms
unfolding keep
unseen_mono [] ms ns h = omega arith
unseen_mono (e ∷ es) ms ns h = ground (arith, unseen_mono es ms ns h, h (target e))

pub unseen-le-length : (es : List Edge) (seen : List Node) → unseen es seen ≤ length es
unfolding keep
unseen-le-length [] seen = omega arith
unseen-le-length (e ∷ es) seen = ground (arith, unseen-le-length es seen)

pub seen_in-cons :
    (n m : Node) (ms ns : List Node) → seen_in n (m ∷ ms ++ ns) ≡ seen_in n (ms ++ m ∷ ns)
unfolding seen_in any
seen_in-cons n m [] ns = refl
seen_in-cons n m (k ∷ ms) ns = ground (arith, seen_in-cons n m ms ns)

pub successors-hit :
    (t : String) (n : Node) (e : Edge) (es : List Edge) (seen : List Node)
    → (leaves t n e && not (seen_in (target e) seen)) ≡ true
    → successors t n (e ∷ es) seen ≡ target e ∷ successors t n es (target e ∷ seen)
unfolding successors
successors-hit t n e es seen h = ground arith

pub successors-miss :
    (t : String) (n : Node) (e : Edge) (es : List Edge) (seen : List Node)
    → (leaves t n e && not (seen_in (target e) seen)) ≡ false
    → successors t n (e ∷ es) seen ≡ successors t n es seen
unfolding successors
successors-miss t n e es seen h = ground arith

unseen-seen :
    (e : Edge) (es : List Edge) (seen : List Node)
    → seen_in (target e) seen ≡ true
    → unseen (e ∷ es) seen ≡ unseen es seen
unfolding keep
unseen-seen e es seen h = ground arith

unseen-new :
    (e : Edge) (es : List Edge) (seen : List Node)
    → seen_in (target e) seen ≡ false
    → unseen (e ∷ es) seen ≡ suc (unseen es seen)
unfolding keep
unseen-new e es seen h = ground arith

pub seen_in-head : (n : Node) (ns : List Node) → seen_in n (n ∷ ns) ≡ true
unfolding seen_in any
seen_in-head n ns = ground (arith, same_node_refl n)

pub seen_in-tail : (n m : Node) (ns : List Node) → seen_in n ns ≡ true → seen_in n (m ∷ ns) ≡ true
unfolding seen_in any
seen_in-tail n m ns h = ground arith

pub successors-unseen :
    (t : String) (n : Node) (es : List Edge) (seen : List Node)
    → unseen es (successors t n es seen ++ seen) + length (successors t n es seen) ≤ unseen es seen
unfolding successors keep
successors-unseen t n [] seen = omega arith
successors-unseen t n (e ∷ es) seen =
    elim (Bool-cases (leaves t n e && not (seen_in (target e) seen))) [
      | inl y ↦
          let te = target e in
          let ns = successors t n es (te ∷ seen) in
          let fresh : seen_in te seen ≡ false = ground arith in
          let new = successors-hit t n e es seen y in
          let a = unseen-seen e es (te ∷ ns ++ seen) (seen_in-head te (ns ++ seen)) in
          let b : unseen es (te ∷ ns ++ seen) ≤ unseen es (ns ++ te ∷ seen) =
            unseen_mono es (ns ++ te ∷ seen) (te ∷ ns ++ seen)
              (λ m h. seen_in-cons m te ns seen ∙ h) in
          let c = successors-unseen t n es (te ∷ seen) in
          let d = unseen_mono es seen (te ∷ seen) (λ m h. seen_in-tail m te seen h) in
          let f = unseen-new e es seen fresh in
          let goal : unseen (e ∷ es) (te ∷ ns ++ seen) + suc (length ns) ≤ unseen (e ∷ es) seen =
            omega (arith, a, b, c, d, f) in
          subst (λ x. unseen (e ∷ es) (x ++ seen) + length x ≤ unseen (e ∷ es) seen) (sym new) goal
      | inr miss ↦
          let ns = successors t n es seen in
          let new = successors-miss t n e es seen miss in
          let c = successors-unseen t n es seen in
          let goal : unseen (e ∷ es) (ns ++ seen) + length ns ≤ unseen (e ∷ es) seen =
            elim (Bool-cases (seen_in (target e) seen)) [
              | inl y ↦
                  let there : seen_in (target e) (ns ++ seen) ≡ true =
                    ground (arith, seen_in-append (target e) ns seen, y) in
                  omega (arith, c, unseen-seen e es seen y, unseen-seen e es (ns ++ seen) there)
              | inr fresh ↦ elim (Bool-cases (seen_in (target e) (ns ++ seen))) [
                | inl there ↦
                    omega
                      (arith, c, unseen-new e es seen fresh, unseen-seen e es (ns ++ seen) there)
                | inr gone ↦
                    omega (arith, c, unseen-new e es seen fresh, unseen-new e es (ns ++ seen) gone)
              ]
            ] in
          subst (λ x. unseen (e ∷ es) (x ++ seen) + length x ≤ unseen (e ∷ es) seen) (sym new) goal
    ]
