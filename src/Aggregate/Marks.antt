-- ===== src/Aggregate/Marks.antt =====
-- What the marking loop of `apply` adds to a set of identities.
use k2s.Prelude.{
  Memᴰ, Bool-cases, ap, sym, ◌∙◌, inr, ◌==◌, if◌then◌else◌, String, ◌≡◌, ◌⊎◌, inl, Bool, true, some,
  List, [], ◌∷◌, eq_iff, contains, add, contains-add, Dict, lookup, has, arith,
}
use k2s.Errors.{Result, ok, >>=-eq-ok}
use k2s.Value.{Fields}
use k2s.Aggregate.Handlers.{mark}

pub mark-keeps :
    (test : Fields → Result Bool) (d : Dict Fields) (ids out : List String) (k : String)
    → mark test d ids ≡ ok out
    → contains k ids ≡ true
    → contains k out ≡ true
unfolding mark
mark-keeps test [] ids out k h c = ground arith
mark-keeps test ((j, r) ∷ d) ids out k h c =
    ground (
      arith,
      mark-keeps test d (add j ids) out k,
      mark-keeps test d ids out k,
      contains-add j k ids,
    )

pub mark-known :
    (test : Fields → Result Bool) (d : Dict Fields) (ids out : List String) (k : String)
    → mark test d ids ≡ ok out
    → contains k out ≡ true
    → (contains k ids ≡ true) ⊎ (has k d ≡ true)
unfolding mark has lookup
mark-known test [] ids out k h c = inl (ground arith)
mark-known test ((j, r) ∷ d) ids out k h c =
    ground (
      arith,
      mark-known test d (add j ids) out k,
      mark-known test d ids out k,
      contains-add j k ids,
    )

-- A record that passes the test is marked.
pub mark_complete :
    (test : Fields → Result Bool) (d : Dict Fields) (ids out : List String) (k : String)
    (r : Fields)
    → mark test d ids ≡ ok out
    → lookup k d ≡ some r
    → test r ≡ ok true
    → contains k out ≡ true
unfolding mark lookup
mark_complete test [] ids out k r h l t = ground arith
mark_complete test ((j, q) ∷ d) ids out k r h l t = ground (
  arith,
  eq_iff j k,
  mark_complete test d (add j ids) out k r,
  mark_complete test d ids out k r,
  mark-keeps test d (add j ids) out k,
  contains-add j k ids,
)

-- What is marked then was marked before, or is a record that passes the test.
pub mark_sound :
    (test : Fields → Result Bool) (d : Dict Fields) (ids out : List String) (k : String)
    → mark test d ids ≡ ok out
    → contains k out ≡ true
    → (contains k ids ≡ true) ⊎ ((r : Fields) × Memᴰ (k, r) d × (test r ≡ ok true))
unfolding mark
mark_sound test [] ids out k h c = inl (ground arith)
mark_sound test ((j, q) ∷ d) ids out k h c =
    let (hit, tested, h1) = >>=-eq-ok (test q) _ h in
    elim (mark_sound test d (if hit then add j ids else ids) out k h1 c) [
      | inr (r, m, t) ↦ inr (r, Memᴰ.tail m, t)
      | inl was ↦ elim (Bool-cases hit) [
        | inl y ↦ elim (Bool-cases (j == k)) [
          | inl here ↦
              let same = (eq_iff j k).0 here in
              inr (q, Memᴰ.head (ap (λ i. (i, q)) (sym same)), tested ∙ ap ok y)
          | inr other ↦ inl (ground (arith, was, y, other, contains-add j k ids))
        ]
        | inr n ↦ inl (ground (arith, was, n))
      ]
    ]
