-- ===== src/Store/Converse.antt =====
-- `dependents` and `ancestors` of argo_dt/event_store.py are converse to each other.
use k2s.Prelude.{
  ℕ, String, ◌≡◌, ◌↔◌, refl, sym, ap, ◌∙◌, true, ◌||◌, Option, List, [], ◌∷◌, map, any, arith,
  eq_iff, Memᴰ, inl, inr,
}
use mathlib.Core.List.Memᴰ
use k2s.Errors.{ok, ensure-eq-ok, value_error}
use k2s.Store.Defs.{Edge, Ledger}
use k2s.Store.Index.{Node, same_node, seen_in, leaves, target, impacted, order_nodes, insert_node}
use k2s.Store.Reach.{Leads, Reaches, step, further}
use k2s.Store.Closure.{impacted_iff}
use k2s.Store.Lineage.{is_lineage_kind, edges_until, flip, trace, dependents, ancestors}

seen_in-insert_node :
    (m n : Node) (ns : List Node) → seen_in m (insert_node n ns) ≡ (same_node m n || seen_in m ns)
unfolding insert_node seen_in any
seen_in-insert_node m n [] = refl
seen_in-insert_node m n (k ∷ ks) = ground (arith, seen_in-insert_node m n ks)

pub seen_in-order_nodes : (m : Node) (ns : List Node) → seen_in m (order_nodes ns) ≡ seen_in m ns
unfolding order_nodes seen_in any
seen_in-order_nodes m [] = refl
seen_in-order_nodes m (n ∷ ns) =
    ground (arith, seen_in-insert_node m n (order_nodes ns), seen_in-order_nodes m ns)

Mem-flip : (e : Edge) (es : List Edge) → Memᴰ e es → Memᴰ (flip e) (map flip es)
Mem-flip e [] m = elim m [ ]
Mem-flip e (d ∷ ds) m = elim (Memᴰ.cases_cons m) [
  | inl same ↦ Memᴰ.head (ap flip same)
  | inr later ↦ Memᴰ.tail (Mem-flip e ds later)
]

Mem-unflip : (e : Edge) (es : List Edge) → Memᴰ e (map flip es) → Memᴰ (flip e) es
Mem-unflip e [] m = elim m [ ]
Mem-unflip e (d ∷ ds) m = elim (Memᴰ.cases_cons m) [
  | inl same ↦ Memᴰ.head (ap flip same)
  | inr later ↦ Memᴰ.tail (Mem-unflip e ds later)
]

-- An edge, turned round, leaves the node that it arrived at.
leaves-flip :
    (t : String) (n m : Node) (e : Edge)
    → leaves t n e ≡ true
    → target e ≡ m
    → (leaves t m (flip e) ≡ true) × (target (flip e) ≡ n)
leaves-flip t n m e l a =
    let kind : e.dependent_kind ≡ m.kind = ap (λ k. k.kind) a in
    let id : e.dependent_id ≡ m.id = ap (λ k. k.id) a in
    ground (
      arith,
      eq_iff e.dependent_kind m.kind,
      eq_iff e.dependent_id m.id,
      eq_iff e.source_kind n.kind,
      eq_iff e.source_id n.id,
    )

module _ (t : String) (edges : List Edge) where
  Leads-flip : (n m : Node) → Leads t edges n m → Leads t (map flip edges) m n
  Leads-flip n m l =
      let (leaving, arriving) = leaves-flip t n m l.edge l.leaving l.arriving in
      record {
        edge = flip l.edge;
        listed = Mem-flip l.edge edges l.listed;
        leaving = leaving;
        arriving = arriving;
      }

  Leads-unflip : (n m : Node) → Leads t (map flip edges) n m → Leads t edges m n
  Leads-unflip n m l =
      let (leaving, arriving) = leaves-flip t n m l.edge l.leaving l.arriving in
      record {
        edge = flip l.edge;
        listed = Mem-unflip l.edge edges l.listed;
        leaving = leaving;
        arriving = arriving;
      }

-- A path may be taken from its first edge as well as from its last.
before :
    (t : String) (edges : List Edge) {n m k : Node}
    → Leads t edges n m
    → Reaches t edges m k
    → Reaches t edges n k
before t edges l (step d) = further (step l) d
before t edges l (further r d) = further (before t edges l r) d

module _ (t : String) (edges : List Edge) where
  Reaches-flip : (n m : Node) → Reaches t edges n m → Reaches t (map flip edges) m n
  Reaches-flip n m (step l) = step (Leads-flip t edges n m l)
  Reaches-flip n m (further {m = k} r l) =
      before t (map flip edges) (Leads-flip t edges k m l) (Reaches-flip n k r)

  Reaches-unflip : (n m : Node) → Reaches t (map flip edges) n m → Reaches t edges m n
  Reaches-unflip n m (step l) = step (Leads-unflip t edges n m l)
  Reaches-unflip n m (further {m = k} r l) =
      before t edges (Leads-unflip t edges k m l) (Reaches-unflip n k r)

trace_iff :
    (t : String) (edges : List Edge) (n m : Node)
    → (seen_in m (trace true t edges n) ≡ true) ↔ Reaches t edges n m
unfolding trace
trace_iff t edges n m =
    let same = seen_in-order_nodes m (impacted t edges n) in
    let (sound, complete) = impacted_iff t edges n m in
    ((λ h. sound (sym same ∙ h)), (λ r. same ∙ complete r))

-- For a kind of the lineage, `dependents` answers with exactly the nodes that the source reaches by
-- the edges of the twin up to the cutoff.
pub dependents_iff :
    (t : String) (n m : Node) (u : Option ℕ) (db : Ledger) (ns : List Node)
    → dependents t n true u db ≡ ok ns
    → (seen_in m ns ≡ true) ↔ Reaches t (edges_until u db.dependencies) n m
unfolding dependents
dependents_iff t n m u db ns h =
    let (_, g) = ensure-eq-ok (is_lineage_kind n.kind) value_error _ h in
    let same : trace true t (edges_until u db.dependencies) n ≡ ns = ground arith in
    let (sound, complete) = trace_iff t (edges_until u db.dependencies) n m in
    ((λ s. sound (ap (seen_in m) same ∙ s)), (λ r. ap (seen_in m) (sym same) ∙ complete r))

-- A node is among the dependents of another exactly if that one is among its ancestors, with one
-- cutoff for both.
pub ancestors-dependents_iff :
    (t : String) (n m : Node) (u : Option ℕ) (db : Ledger) (ns ms : List Node)
    → dependents t n true u db ≡ ok ns
    → ancestors t m true u db ≡ ok ms
    → (seen_in m ns ≡ true) ↔ (seen_in n ms ≡ true)
unfolding ancestors
ancestors-dependents_iff t n m u db ns ms d a =
    let edges = edges_until u db.dependencies in
    let (_, g) = ensure-eq-ok (is_lineage_kind m.kind) value_error _ a in
    let same : trace true t (map flip edges) m ≡ ms = ground arith in
    let (sound, complete) = dependents_iff t n m u db ns d in
    let (back, forth) = trace_iff t (map flip edges) m n in
    (
      (λ s. ap (seen_in n) (sym same) ∙ forth (Reaches-flip t edges n m (sound s))),
      (λ s. complete (Reaches-unflip t edges m n (back (ap (seen_in n) same ∙ s)))),
    )
