-- ===== src/Store/Closure.antt =====
-- The recursive query of argo_dt/event_store.py: it finds what the root reaches, nothing else, and
-- its fuel is enough.
use mathlib.Core.Path.{subst}
use k2s.Prelude.{
  ℕ, zero, suc, ◌+◌, ◌<◌, String, ◌≡◌, ◌↔◌, refl, true, false, List, [], ◌∷◌, ◌++◌, any, length,
  length-append, arith, Memᴰ, inl, inr, ◌⊎◌,
}
use k2s.Store.Defs.{Edge}
use k2s.Store.Index.{Node, seen_in, leaves, target, successors, closure, impacted}
use k2s.Store.Unseen.{seen_in-append, unseen, unseen-le-length, successors-unseen, seen_in-tail}
use k2s.Store.Reach.{
  Reaches, step, further, seen_in-eq, seen_in-split, successors_complete, successors_sound,
}

-- Where a node of two lists stands.
seen_in-either :
    (m : Node) (ms ns : List Node)
    → seen_in m (ms ++ ns) ≡ true
    → (seen_in m ms ≡ true) ⊎ (seen_in m ns ≡ true)
seen_in-either m ms ns h = ground (arith, seen_in-append m ms ns)

seen_in-left : (m : Node) (ms ns : List Node) → seen_in m ms ≡ true → seen_in m (ms ++ ns) ≡ true
seen_in-left m ms ns h = ground (arith, seen_in-append m ms ns)

seen_in-right : (m : Node) (ms ns : List Node) → seen_in m ns ≡ true → seen_in m (ms ++ ns) ≡ true
seen_in-right m ms ns h = ground (arith, seen_in-append m ms ns)

seen_in-nil : (m : Node) → seen_in m [] ≡ false
unfolding seen_in any
seen_in-nil m = refl

module _ (t : String) (edges : List Edge) where
  closure_sound :
      (root : Node) (fuel : ℕ) (pending seen : List Node)
      → ((m : Node) → seen_in m pending ≡ true → Reaches t edges root m)
      → ((m : Node) → seen_in m seen ≡ true → Reaches t edges root m)
      → (m : Node) → seen_in m (closure fuel t edges pending seen) ≡ true
      → Reaches t edges root m
  unfolding closure
  closure_sound root zero pending seen p s m h = s m h
  closure_sound root (suc fuel) [] seen p s m h = s m h
  closure_sound root (suc fuel) (n ∷ pending) seen p s m h =
      let new = successors t n edges seen in
      let led : (k : Node) → seen_in k new ≡ true → Reaches t edges root k =
        λ k r. further (p n (seen_in-eq n n pending refl)) (successors_sound t n edges seen k r) in
      closure_sound root fuel (pending ++ new) (new ++ seen)
        (λ k r. elim (seen_in-either k pending new r) [
          | inl old ↦ p k (seen_in-tail k n pending old)
          | inr fresh ↦ led k fresh
        ])
        (λ k r. elim (seen_in-either k new seen r) [ inl fresh ↦ led k fresh | inr old ↦ s k old ])
        m h

  -- The edges of what was seen lead to what was seen, but for the rows that are pending.
  abbrev Expanded : List Node → List Node → Type 0
  Expanded pending seen =
      (n : Node) (e : Edge)
      → seen_in n seen ≡ true
      → Memᴰ e edges
      → leaves t n e ≡ true
      → (seen_in n pending ≡ true) ⊎ (seen_in (target e) seen ≡ true)

  closure_complete :
      (fuel : ℕ) (pending seen : List Node)
      → unseen edges seen + length pending < fuel
      → Expanded pending seen
      → ((m : Node) → seen_in m seen ≡ true → seen_in m (closure fuel t edges pending seen) ≡ true)
        × Expanded [] (closure fuel t edges pending seen)
  unfolding closure
  closure_complete zero pending seen l x = absurd (omega (arith, l))
  closure_complete (suc fuel) [] seen l x = ((λ m h. h), x)
  closure_complete (suc fuel) (n ∷ pending) seen l x =
      let new = successors t n edges seen in
      let smaller : unseen edges (new ++ seen) + length (pending ++ new) < fuel =
        omega (arith, l, successors-unseen t n edges seen, length-append pending new) in
      let (kept, closed) =
        closure_complete fuel (pending ++ new) (new ++ seen) smaller (λ k e there m away.
          elim (seen_in-either k new seen there) [
            | inl fresh ↦ inl (seen_in-right k pending new fresh)
            | inr old ↦ elim (x k e old m away) [
              | inr led ↦ inr (seen_in-right (target e) new seen led)
              | inl waits ↦ elim (seen_in-split k n pending waits) [
                | inr later ↦ inl (seen_in-left k pending new later)
                | inl here ↦ inr (
                    successors_complete t n edges seen e m
                      (subst (λ q. leaves t q e ≡ true) here away))
              ]
            ]
          ]) in
      ((λ m h. kept m (seen_in-right m new seen h)), closed)

  -- `WITH RECURSIVE` finds exactly the nodes that the root reaches by one edge or more of the twin.
  pub impacted_iff :
      (root m : Node) → (seen_in m (impacted t edges root) ≡ true) ↔ Reaches t edges root m
  unfolding impacted
  impacted_iff root m = (sound, complete m)
    where
      first : List Node
      first = successors t root edges []

      result : List Node
      result = closure (suc (length edges + length first)) t edges first first

      starts : (k : Node) → seen_in k first ≡ true → Reaches t edges root k
      starts k r = step (successors_sound t root edges [] k r)

      sound : seen_in m result ≡ true → Reaches t edges root m
      sound h = closure_sound root (suc (length edges + length first)) first first starts starts m h

      ends : ((k : Node) → seen_in k first ≡ true → seen_in k result ≡ true) × Expanded [] result
      ends =
          closure_complete (suc (length edges + length first)) first first
            (omega (arith, unseen-le-length edges first)) (λ n e there m away. inl there)

      complete : (k : Node) → Reaches t edges root k → seen_in k result ≡ true
      complete k (step l) =
          let there = successors_complete t root edges [] l.edge l.listed l.leaving in
          elim (seen_in-either (target l.edge) first [] there) [
            | inl new ↦ subst (λ q. seen_in q result ≡ true) l.arriving (ends.0 (target l.edge) new)
            | inr old ↦ absurd (ground (arith, seen_in-nil (target l.edge)))
          ]
      complete k (further {m = j} r l) = elim (ends.1 j l.edge (complete j r) l.listed l.leaving) [
        | inl waits ↦ absurd (ground (arith, seen_in-nil j))
        | inr led ↦ subst (λ q. seen_in q result ≡ true) l.arriving led
      ]
