-- ===== src/Store/Queue.antt =====
-- What a deletion puts on the invalidation queue of argo_dt/event_store.py.
use mathlib.Core.Path.{subst}
use k2s.Prelude.{
  String, ◌≡◌, ◌≢◌, ◌↔◌, refl, sym, ap, ◌∙◌, Bool, true, false, ◌&&◌, ◌||◌, none, List, [], ◌∷◌,
  ◌++◌, any, arith, eq_iff, eq_refl, eqb, ◌==◌, Bool-cases, inl, inr, if◌then◌else◌,
}
use k2s.Errors.{ok, ◌>>=◌}
use k2s.Host.{Host}
use k2s.Types.{EventEnvelope, evidence_deleted}
use k2s.Store.Defs.{InvalidationRow, Ledger}
use k2s.Store.Index.{
  Node, same_node, seen_in, impacted, order_nodes, same_row, enqueue, edges_of, add_edges, text_or,
  invalidate, index_dependencies,
}
use k2s.Store.Unseen.{same_node_eq}
use k2s.Store.Reach.{Reaches}
use k2s.Store.Closure.{impacted_iff}
use k2s.Store.Converse.{seen_in-order_nodes}

-- A row of a deletion for a node.
abbrev pub is_row_of : EventEnvelope → Node → InvalidationRow → Bool
is_row_of e m r =
    r.twin_id == e.twin_id
    && eqb r.deletion_sequence e.sequence
    && r.dependent_kind == m.kind
    && r.dependent_id == m.id

unfoldable pub queued : EventEnvelope → Node → List InvalidationRow → Bool
queued e m rows = any (is_row_of e m) rows

queued-append :
    (e : EventEnvelope) (m : Node) (rows more : List InvalidationRow)
    → queued e m (rows ++ more) ≡ (queued e m rows || queued e m more)
unfolding queued any
queued-append e m [] more = refl
queued-append e m (r ∷ rows) more = ground (arith, queued-append e m rows more)

-- The row that `enqueue` makes for a node.
abbrev row_for : EventEnvelope → String → Node → InvalidationRow
row_for e evidence_id n = record {
  twin_id = e.twin_id;
  deletion_sequence = e.sequence;
  source_evidence_id = evidence_id;
  dependent_kind = n.kind;
  dependent_id = n.id;
  created_at = e.recorded_at;
  processed_at = none;
}

row_for-queued :
    (e : EventEnvelope) (id : String) (n : Node) (rows : List InvalidationRow)
    → any (same_row (row_for e id n)) rows ≡ queued e n rows
unfolding queued any same_row
row_for-queued e id n [] = refl
row_for-queued e id n (r ∷ rows) = grind (
  arith,
  row_for-queued e id n rows,
  eq_iff e.twin_id r.twin_id,
  eq_iff r.twin_id e.twin_id,
  eq_iff n.kind r.dependent_kind,
  eq_iff r.dependent_kind n.kind,
  eq_iff n.id r.dependent_id,
  eq_iff r.dependent_id n.id,
)

row_for-is_row_of :
    (e : EventEnvelope) (id : String) (n m : Node) → is_row_of e m (row_for e id n) ≡ same_node m n
row_for-is_row_of e id n m = grind (
  arith,
  eq_refl e.twin_id,
  eq_iff n.kind m.kind,
  eq_iff m.kind n.kind,
  eq_iff n.id m.id,
  eq_iff m.id n.id,
)

-- INSERT OR IGNORE of one row.
abbrev with_row : EventEnvelope → String → Node → List InvalidationRow → List InvalidationRow
with_row e id n rows =
    if any (same_row (row_for e id n)) rows then rows else rows ++ row_for e id n ∷ []

queued-with_row :
    (e : EventEnvelope) (id : String) (m n : Node) (rows : List InvalidationRow)
    → queued e m (with_row e id n rows) ≡ (queued e m rows || same_node m n)
unfolding queued any
queued-with_row e id m n rows =
    let known = row_for-queued e id n rows in
    let row = row_for-is_row_of e id n m in
    elim (Bool-cases (same_node m n)) [
      | inl y ↦
          let same : queued e m rows ≡ queued e n rows =
            ap (λ k. queued e k rows) (same_node_eq m n y) in
          ground (arith, known, row, same, queued-append e m rows (row_for e id n ∷ []))
      | inr other ↦ ground (arith, known, row, queued-append e m rows (row_for e id n ∷ []))
    ]

queued-enqueue :
    (e : EventEnvelope) (id : String) (m : Node) (ns : List Node) (rows : List InvalidationRow)
    → queued e m (enqueue e id ns rows) ≡ (queued e m rows || seen_in m ns)
unfolding enqueue seen_in any
queued-enqueue e id m [] rows = ground arith
queued-enqueue e id m (n ∷ ns) rows =
    let rest = queued-enqueue e id m ns (with_row e id n rows) in
    let here = queued-with_row e id m n rows in ground (arith, rest, here)

module _ ⦃host : Host⦄ where
  -- The evidence that a deletion names.
  abbrev pub named_evidence : EventEnvelope → Node
  named_evidence e = record { kind = "evidence"; id = text_or "evidence_id" "" e.payload }

  deletion-rows :
      (e : EventEnvelope) (db next : Ledger)
      → (named_evidence e).id ≢ ""
      → (edges_of evidence_deleted e >>= λ edges. ok (
          invalidate evidence_deleted e
            (record db { dependencies = add_edges edges db.dependencies })))
        ≡ ok next
      → next.invalidations
        ≡ enqueue e
            (named_evidence e).id
            (order_nodes (impacted e.twin_id db.dependencies (named_evidence e)))
            db.invalidations
  unfolding edges_of invalidate add_edges
  deletion-rows e db next named h = ground (arith, h, eq_iff (named_evidence e).id "")

  -- A deletion that names evidence, and of whose sequence nothing was queued, queues exactly the
  -- nodes that the evidence reaches by the edges of the twin.
  pub index_dependencies-queued :
      (e : EventEnvelope) (m : Node) (db : Ledger) {next : Ledger}
      → e.event_type ≡ evidence_deleted
      → (named_evidence e).id ≢ ""
      → queued e m db.invalidations ≡ false
      → index_dependencies e db ≡ ok next
      → (queued e m next.invalidations ≡ true)
        ↔ Reaches e.twin_id db.dependencies (named_evidence e) m
  unfolding index_dependencies
  index_dependencies-queued e m db {next = next} type named none_before h =
      let rows : next.invalidations
          ≡ enqueue e (named_evidence e).id
              (order_nodes (impacted e.twin_id db.dependencies (named_evidence e)))
              db.invalidations =
        deletion-rows e db next named (
          subst
            (λ t.
              (edges_of t e >>= λ edges.
              ok (invalidate t e (record db { dependencies = add_edges edges db.dependencies })))
              ≡ ok next)
            type h) in
      let ns = order_nodes (impacted e.twin_id db.dependencies (named_evidence e)) in
      let found : queued e m next.invalidations
          ≡ seen_in m (impacted e.twin_id db.dependencies (named_evidence e)) =
        ap (queued e m) rows
        ∙ queued-enqueue e (named_evidence e).id m ns db.invalidations
        ∙ ap (λ b. b || seen_in m ns) none_before
        ∙ seen_in-order_nodes m (impacted e.twin_id db.dependencies (named_evidence e)) in
      let (sound, complete) = impacted_iff e.twin_id db.dependencies (named_evidence e) m in
      ((λ q. sound (sym found ∙ q)), (λ r. found ∙ complete r))
