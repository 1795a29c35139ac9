-- ===== src/Store/Index.antt =====
-- `_index_dependencies` of argo_dt/event_store.py: the edges that an event adds, and the queue of
-- what a deletion reaches.
use Prim.Native.String.{compare}
use text.Mathlib.Text.{is_le}
use k2s.Prelude.{
  ℕ, zero, suc, String, Bool, true, false, not, ◌&&◌, ◌||◌, none, List, [], ◌∷◌, ◌++◌, ◌==◌, any,
  length, eqb, ◌+◌, if◌then◌else◌,
}
use k2s.Value.{Value, str, arr, obj, nil, Fields, get_default, iterate}
use k2s.Errors.{Result, ok, ◌>>=◌}
use k2s.Host.{Host, to_str}
use k2s.Types.{
  EventType, entity_linked, claim_proposed, claim_superseded, contradiction_detected,
  correction_recorded, projection_issued, evidence_deleted, EventEnvelope,
}
use k2s.Store.Defs.{Edge, InvalidationRow, Ledger}

-- A node of the lineage graph: its kind and its identity.
pub record Node : Type 0 where
  pub kind : String
  pub id : String

abbrev pub same_node : Node → Node → Bool
same_node a b = a.kind == b.kind && a.id == b.id

unfoldable pub seen_in : Node → List Node → Bool
seen_in n ns = any (same_node n) ns

same_edge : Edge → Edge → Bool
same_edge a b =
    a.twin_id == b.twin_id
    && a.source_kind == b.source_kind
    && a.source_id == b.source_id
    && a.dependent_kind == b.dependent_kind
    && a.dependent_id == b.dependent_id
    && a.relation == b.relation

-- `add_edge`: INSERT OR IGNORE, and nothing for an empty identity.
unfoldable pub add_edge : Edge → List Edge → List Edge
unfolding same_edge
add_edge e edges =
    if e.source_id == "" || e.dependent_id == ""
    then edges
    else if any (same_edge e) edges
    then edges
    else edges ++ e ∷ []

unfoldable pub add_edges : List Edge → List Edge → List Edge
add_edges [] edges = edges
add_edges (e ∷ es) edges = add_edges es (add_edge e edges)

-- Whether an edge of a twin leaves a node.
abbrev pub leaves : String → Node → Edge → Bool
leaves twin_id n e = e.twin_id == twin_id && e.source_kind == n.kind && e.source_id == n.id

abbrev pub target : Edge → Node
target e = record { kind = e.dependent_kind; id = e.dependent_id }

-- The targets of a node's edges that were not seen, each once.
unfoldable pub successors : String → Node → List Edge → List Node → List Node
successors twin_id n [] seen = []
successors twin_id n (e ∷ es) seen = elim (leaves twin_id n e && not (seen_in (target e) seen)) [
  | true ↦ target e ∷ successors twin_id n es (target e ∷ seen)
  | false ↦ successors twin_id n es seen
]

-- The recursive query: rows that are pending are expanded, `UNION` drops what was seen.
unfoldable pub closure : ℕ → String → List Edge → List Node → List Node → List Node
closure zero twin_id edges pending seen = seen
closure (suc fuel) twin_id edges [] seen = seen
closure (suc fuel) twin_id edges (n ∷ pending) seen =
    let new = successors twin_id n edges seen in
    closure fuel twin_id edges (pending ++ new) (new ++ seen)

-- WITH RECURSIVE impacted: each round uses up an edge, or a pending row.
unfoldable pub impacted : String → List Edge → Node → List Node
impacted twin_id edges root =
    let first = successors twin_id root edges [] in
    closure (suc (length edges + length first)) twin_id edges first first

-- ORDER BY kind, identifier
node_le : Node → Node → Bool
node_le a b = if a.kind == b.kind then is_le (compare a.id b.id) else is_le (compare a.kind b.kind)

unfoldable pub insert_node : Node → List Node → List Node
unfolding node_le
insert_node n [] = n ∷ []
insert_node n (m ∷ ms) = let rest = insert_node n ms in if node_le n m then n ∷ m ∷ ms else m ∷ rest

unfoldable pub order_nodes : List Node → List Node
unfolding insert_node
order_nodes [] = []
order_nodes (n ∷ ns) = insert_node n (order_nodes ns)

unfoldable pub same_row : InvalidationRow → InvalidationRow → Bool
same_row a b =
    a.twin_id == b.twin_id
    && eqb a.deletion_sequence b.deletion_sequence
    && a.dependent_kind == b.dependent_kind
    && a.dependent_id == b.dependent_id

-- INSERT OR IGNORE INTO dt_invalidation_queue
unfoldable pub enqueue :
    EventEnvelope → String → List Node → List InvalidationRow → List InvalidationRow
unfolding same_row
enqueue e evidence_id [] rows = rows
enqueue e evidence_id (n ∷ ns) rows =
    let row : InvalidationRow = record {
      twin_id = e.twin_id;
      deletion_sequence = e.sequence;
      source_evidence_id = evidence_id;
      dependent_kind = n.kind;
      dependent_id = n.id;
      created_at = e.recorded_at;
      processed_at = none;
    } in
    enqueue e evidence_id ns (if any (same_row row) rows then rows else rows ++ row ∷ [])

-- An edge of an event's twin at its sequence.
abbrev pub edge : EventEnvelope → String → String → String → String → String → Edge
edge e source_kind source_id dependent_kind dependent_id relation = record {
  twin_id = e.twin_id;
  source_kind = source_kind;
  source_id = source_id;
  dependent_kind = dependent_kind;
  dependent_id = dependent_id;
  created_sequence = e.sequence;
  relation = relation;
}

module _ ⦃host : Host⦄ where
  -- str(payload.get(key, default))
  unfoldable pub text_or : String → String → Fields → String
  text_or key default p = to_str (get_default key (str default) p)

  -- The edges of a provenance list; what is no dict is passed over.
  provenance_edges : EventEnvelope → String → String → String → List Value → List Edge
  unfolding text_or
  provenance_edges e kind id relation [] = []
  provenance_edges e kind id relation (obj r ∷ vs) =
      edge e "evidence" (text_or "evidence_id" "" r) kind id (text_or "relation" relation r)
      ∷ provenance_edges e kind id relation vs
  provenance_edges e kind id relation (v ∷ vs) = provenance_edges e kind id relation vs

  -- The edges from claims that an event lists.
  claim_edges : EventEnvelope → String → String → String → List Value → List Edge
  claim_edges e kind id relation [] = []
  claim_edges e kind id relation (v ∷ vs) =
      edge e "claim" (to_str v) kind id relation ∷ claim_edges e kind id relation vs

  correction_edges : EventEnvelope → Fields → List Edge
  unfolding text_or
  correction_edges e p =
      let kind = text_or "target_kind" "" p in
      let id = text_or "correction_id" "" p in
      if kind == "evidence" || kind == "claim"
      then edge e kind (text_or "target_id" "" p) "correction" id "corrected"
        ∷ edge e kind (text_or "replacement_id" "" p) "correction" id "replacement"
        ∷ []
      else []

  -- The edges that an event adds, by its type.
  unfoldable pub edges_of : EventType → EventEnvelope → Result (List Edge)
  unfolding text_or provenance_edges claim_edges correction_edges
  edges_of claim_proposed e = do
    references ← iterate (get_default "provenance" (arr nil) e.payload)
    ok (provenance_edges e "claim" (text_or "claim_id" "" e.payload) "supports" references)
  edges_of entity_linked e = do
    references ← iterate (get_default "provenance" (arr nil) e.payload)
    ok (provenance_edges e "entity" (text_or "entity_link_id" "" e.payload) "identifies" references)
  edges_of claim_superseded e = ok (
      edge e "claim" (text_or "claim_id" "" e.payload) "claim"
        (text_or "successor_claim_id" "" e.payload) "superseded_by"
      ∷ [])
  edges_of contradiction_detected e = do
    claim_ids ← iterate (get_default "claim_ids" (arr nil) e.payload)
    ok (
        claim_edges e "contradiction" (text_or "contradiction_id" "" e.payload) "contradicts"
          claim_ids)
  edges_of correction_recorded e = ok (correction_edges e e.payload)
  edges_of projection_issued e = do
    sources ← iterate (get_default "source_claim_ids" (arr nil) e.payload)
    ok (claim_edges e "projection" (text_or "projection_id" "" e.payload) "compiled_from" sources)
  edges_of _ e = ok []

  -- A deletion queues what the evidence reaches.
  unfoldable pub invalidate : EventType → EventEnvelope → Ledger → Ledger
  unfolding text_or
  invalidate evidence_deleted e db =
      let evidence_id = text_or "evidence_id" "" e.payload in
      let reached =
        impacted e.twin_id db.dependencies (record { kind = "evidence"; id = evidence_id }) in
      if evidence_id == "" then db else record db {
        invalidations = enqueue e evidence_id (order_nodes reached) db.invalidations;
      }
  invalidate _ e db = db

  unfoldable pub index_dependencies : EventEnvelope → Ledger → Result Ledger
  index_dependencies e db = do
    edges ← edges_of e.event_type e
    ok (invalidate e.event_type e (record db { dependencies = add_edges edges db.dependencies }))
