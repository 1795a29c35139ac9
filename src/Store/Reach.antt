-- ===== src/Store/Reach.antt =====
-- What the recursive query of argo_dt/event_store.py finds: exactly what the root reaches.
use mathlib.Core.Path.{subst}
use k2s.Prelude.{
  String, ◌≡◌, refl, sym, ap, ◌∙◌, true, false, not, ◌&&◌, List, [], ◌∷◌, ◌++◌, any, arith, Memᴰ,
  Bool-cases, inl, inr, ◌⊎◌,
}
use mathlib.Core.List.Memᴰ
use k2s.Store.Defs.{Edge}
use k2s.Store.Index.{Node, same_node, seen_in, leaves, target, successors}
use k2s.Store.Unseen.{
  same_node_eq, seen_in-append, seen_in-cons, successors-hit, successors-miss, seen_in-head,
}

-- One edge of a twin leads from a node to another.
pub record Leads (t : String) (edges : List Edge) (n m : Node) : Type 0 where
  pub edge : Edge
  pub listed : Memᴰ edge edges
  pub leaving : leaves t n edge ≡ true
  pub arriving : target edge ≡ m

-- A path of one edge or more.
pub data Reaches (t : String) (edges : List Edge) (n : Node) : Node → Type 0 where
  step : {m : Node} → Leads t edges n m → Reaches t edges n m
  further : {m k : Node} → Reaches t edges n m → Leads t edges m k → Reaches t edges n k

pub seen_in-eq : (n m : Node) (ns : List Node) → n ≡ m → seen_in n (m ∷ ns) ≡ true
seen_in-eq n m ns e = subst (λ k. seen_in n (k ∷ ns) ≡ true) e (seen_in-head n ns)

pub seen_in-split :
    (n m : Node) (ns : List Node) → seen_in n (m ∷ ns) ≡ true → (n ≡ m) ⊎ (seen_in n ns ≡ true)
unfolding seen_in any
seen_in-split n m ns h = elim (Bool-cases (same_node n m)) [
  | inl y ↦ inl (same_node_eq n m y)
  | inr other ↦ inr (ground arith)
]

module _ (t : String) where
  -- The target of an edge that leaves the node is new, or was seen.
  pub successors_complete :
      (n : Node) (es : List Edge) (seen : List Node) (e : Edge)
      → Memᴰ e es
      → leaves t n e ≡ true
      → seen_in (target e) (successors t n es seen ++ seen) ≡ true
  successors_complete n [] seen e m l = elim m [ ]
  successors_complete n (d ∷ ds) seen e m l =
      elim (Bool-cases (leaves t n d && not (seen_in (target d) seen))) [
        | inl y ↦
            subst (λ x. seen_in (target e) (x ++ seen) ≡ true)
              (sym (successors-hit t n d ds seen y))
              (elim (Memᴰ.cases_cons m) [
                | inl same ↦ seen_in-eq (target e) (target d) _ (ap target same)
                | inr later ↦
                    seen_in-cons (target e) (target d) (successors t n ds (target d ∷ seen)) seen
                    ∙ successors_complete n ds (target d ∷ seen) e later l
              ])
        | inr miss ↦
            subst (λ x. seen_in (target e) (x ++ seen) ≡ true)
              (sym (successors-miss t n d ds seen miss))
              (elim (Memᴰ.cases_cons m) [
                | inl same ↦
                    let away : leaves t n d ≡ true = subst (λ x. leaves t n x ≡ true) same l in
                    let there : seen_in (target d) seen ≡ true = ground arith in
                    let mine : seen_in (target e) seen ≡ true =
                      ap (λ x. seen_in (target x) seen) same ∙ there in
                    ground (arith, seen_in-append (target e) (successors t n ds seen) seen, mine)
                | inr later ↦ successors_complete n ds seen e later l
              ])
      ]

  Leads-tail : (n m : Node) (d : Edge) (ds : List Edge) → Leads t ds n m → Leads t (d ∷ ds) n m
  Leads-tail n m d ds l = record {
    edge = l.edge;
    listed = Memᴰ.tail l.listed;
    leaving = l.leaving;
    arriving = l.arriving;
  }

  successors-nil :
      (n : Node) (seen : List Node) (m : Node) → seen_in m (successors t n [] seen) ≡ false
  unfolding successors seen_in any
  successors-nil n seen m = refl

  -- What is new is led to.
  pub successors_sound :
      (n : Node) (es : List Edge) (seen : List Node) (m : Node)
      → seen_in m (successors t n es seen) ≡ true
      → Leads t es n m
  successors_sound n [] seen m h = absurd (ground (arith, successors-nil n seen m))
  successors_sound n (d ∷ ds) seen m h =
      elim (Bool-cases (leaves t n d && not (seen_in (target d) seen))) [
        | inl y ↦
            let there : seen_in m (target d ∷ successors t n ds (target d ∷ seen)) ≡ true =
              ap (seen_in m) (sym (successors-hit t n d ds seen y)) ∙ h in
            elim (seen_in-split m (target d) _ there) [
              | inl same ↦ record {
                edge = d;
                listed = Memᴰ.head refl;
                leaving = ground arith;
                arriving = sym same;
              }
              | inr later ↦ Leads-tail n m d ds (successors_sound n ds (target d ∷ seen) m later)
            ]
        | inr miss ↦ Leads-tail n m d ds (
            successors_sound n ds seen m
              (ap (seen_in m) (sym (successors-miss t n d ds seen miss)) ∙ h))
      ]
