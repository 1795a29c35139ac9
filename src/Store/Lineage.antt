-- ===== src/Store/Lineage.antt =====
-- `dependents` and `ancestors` of argo_dt/event_store.py. A cutoff is a natural number: a negative
-- one answers nothing there.
use k2s.Prelude.{
  ℕ, String, Bool, true, false, Option, none, some, List, [], ◌∷◌, map, any, ◌==◌, keep, leb,
}
use k2s.Errors.{Result, ok, ensure, value_error, ◌>>◌}
use k2s.Store.Defs.{Edge, Ledger}
use k2s.Store.Index.{Node, leaves, target, impacted, order_nodes}

-- _LINEAGE_KINDS
abbrev pub lineage_kinds : List String
lineage_kinds = "evidence" ∷ "entity" ∷ "claim" ∷ "contradiction" ∷ "correction" ∷ "projection" ∷ []

abbrev pub is_lineage_kind : String → Bool
is_lineage_kind kind = any (λ k. k == kind) lineage_kinds

-- created_sequence <= cutoff; with no bound the cutoff is the largest integer of SQLite.
abbrev pub before_cutoff : Option ℕ → Edge → Bool
before_cutoff none e = true
before_cutoff (some cutoff) e = leb e.created_sequence cutoff

unfoldable pub edges_until : Option ℕ → List Edge → List Edge
edges_until up_to_sequence edges = keep (before_cutoff up_to_sequence) edges

-- The second query has its edges the other way round.
abbrev pub flip : Edge → Edge
flip e = record e {
  source_kind = e.dependent_kind;
  source_id = e.dependent_id;
  dependent_kind = e.source_kind;
  dependent_id = e.source_id;
}

-- What a node leads to: by any path, or by one edge, a row for each relation.
unfoldable pub trace : Bool → String → List Edge → Node → List Node
trace true twin_id edges root = order_nodes (impacted twin_id edges root)
trace false twin_id edges root = order_nodes (map target (keep (leaves twin_id root) edges))

unfoldable pub dependents : String → Node → Bool → Option ℕ → Ledger → Result (List Node)
dependents twin_id source transitive up_to_sequence db = do
  ensure (is_lineage_kind source.kind) value_error
  ok (trace transitive twin_id (edges_until up_to_sequence db.dependencies) source)

unfoldable pub ancestors : String → Node → Bool → Option ℕ → Ledger → Result (List Node)
ancestors twin_id dependent transitive up_to_sequence db = do
  ensure (is_lineage_kind dependent.kind) value_error
  ok (trace transitive twin_id (map flip (edges_until up_to_sequence db.dependencies)) dependent)
