-- ===== src/Tests/Lineage.antt =====
-- A piece of evidence, the claim that cites it, and the projection that was compiled from the claim.
use mathlib.Core.Path.{subst}
use k2s.Prelude.{
  ℕ, String, ◌≡◌, ◌≢◌, sym, ◌↔◌, refl, Option, none, some, List, [], ◌∷◌, true, false, arith,
  eq_iff, map, take, keep, length,
}
use k2s.Errors.{ok}
use k2s.Store.{
  Edge, Ledger, empty_ledger, Node, seen_in, impacted, dependents, ancestors, edges_until,
  index_dependencies, InvalidationRecord, pending_invalidations, mark_invalidation_processed,
  invalidation_of, order_invalidations,
}
use k2s.Store.Reach.{Reaches}
use k2s.Store.Closure.{impacted_iff}
use k2s.Store.Converse.{dependents_iff, ancestors-dependents_iff}
use k2s.Store.Queue.{queued, named_evidence, index_dependencies-queued}
use k2s.Store.Processed.{is_left, mark_invalidation_processed-pending}
use k2s.Tests.Data.{test_host, deletion_event, returned}

abbrev cited : Edge
cited = record {
  twin_id = "t1";
  source_kind = "evidence";
  source_id = "e1";
  dependent_kind = "claim";
  dependent_id = "c1";
  created_sequence = 2;
  relation = "supports";
}

abbrev compiled : Edge
compiled = record {
  twin_id = "t1";
  source_kind = "claim";
  source_id = "c1";
  dependent_kind = "projection";
  dependent_id = "p1";
  created_sequence = 4;
  relation = "compiled_from";
}

abbrev evidence : Node
evidence = record { kind = "evidence"; id = "e1" }

abbrev projection : Node
projection = record { kind = "projection"; id = "p1" }

abbrev db : Ledger
db = record empty_ledger { dependencies = cited ∷ compiled ∷ [] }

impacted_iff_example :
    (seen_in projection (impacted "t1" db.dependencies evidence) ≡ true)
    ↔ Reaches "t1" db.dependencies evidence projection
impacted_iff_example = impacted_iff "t1" db.dependencies evidence projection

abbrev found : List Node
found = returned [] (dependents "t1" evidence true (some 4) db)

abbrev origins : List Node
origins = returned [] (ancestors "t1" projection true (some 4) db)

found-ok : dependents "t1" evidence true (some 4) db ≡ ok found
unfolding dependents k2s.Prelude.any
found-ok = refl

origins-ok : ancestors "t1" projection true (some 4) db ≡ ok origins
unfolding ancestors k2s.Prelude.any
origins-ok = refl

dependents_iff_example :
    (seen_in projection found ≡ true)
    ↔ Reaches "t1" (edges_until (some 4) db.dependencies) evidence projection
dependents_iff_example = dependents_iff "t1" evidence projection (some 4) db found found-ok

ancestors-dependents_iff_example :
    (seen_in projection found ≡ true) ↔ (seen_in evidence origins ≡ true)
ancestors-dependents_iff_example =
    ancestors-dependents_iff "t1" evidence projection (some 4) db found origins found-ok origins-ok

-- The claim and the projection are both found.
found_two : seen_in projection found ≡ true
unfolding dependents seen_in k2s.Prelude.any k2s.Store.trace k2s.Store.order_nodes impacted
    k2s.Store.closure k2s.Store.successors edges_until k2s.Prelude.keep
found_two = refl

abbrev after_deletion : Ledger
after_deletion = returned db (index_dependencies ⦃host = test_host⦄ deletion_event db)

after_deletion-ok : index_dependencies ⦃host = test_host⦄ deletion_event db ≡ ok after_deletion
unfolding index_dependencies k2s.Store.edges_of
after_deletion-ok = refl

deletion_id : (named_evidence ⦃host = test_host⦄ deletion_event).id ≡ evidence.id
unfolding k2s.Store.text_or k2s.Host.to_str k2s.Value.get_default
deletion_id = refl

e1-named : evidence.id ≢ ""
e1-named = λ e. ground (arith, eq_iff evidence.id "", e)

deletion-named : (named_evidence ⦃host = test_host⦄ deletion_event).id ≢ ""
deletion-named = subst (λ s. s ≢ "") (sym deletion_id) e1-named

index_dependencies-queued_example :
    (queued deletion_event projection after_deletion.invalidations ≡ true)
    ↔ Reaches "t1" db.dependencies (named_evidence ⦃host = test_host⦄ deletion_event) projection
unfolding queued k2s.Prelude.any
index_dependencies-queued_example =
    index_dependencies-queued ⦃host = test_host⦄ deletion_event projection db refl deletion-named
      refl after_deletion-ok

abbrev entry : InvalidationRecord
entry = record {
  twin_id = "t1";
  deletion_sequence = deletion_event.sequence;
  source_evidence_id = "e1";
  dependent_kind = "claim";
  dependent_id = "c1";
  created_at = deletion_event.recorded_at;
}

abbrev after_mark : Ledger
after_mark = (mark_invalidation_processed entry 9 after_deletion).1

mark_invalidation_processed-pending_example :
    (pending_invalidations 5 after_mark
      ≡ map invalidation_of
          (take 5 (order_invalidations (keep (is_left entry) after_deletion.invalidations))))
    × ((mark_invalidation_processed entry 10 after_mark).0 ≡ false)
mark_invalidation_processed-pending_example =
    mark_invalidation_processed-pending entry 9 10 5 after_deletion

-- The claim is marked, and the projection is left.
marked : (mark_invalidation_processed entry 9 after_deletion).0 ≡ true
unfolding mark_invalidation_processed k2s.Prelude.keep index_dependencies k2s.Store.edges_of
    k2s.Store.invalidate k2s.Host.to_str k2s.Value.get_default k2s.Store.enqueue
    k2s.Store.order_nodes impacted k2s.Store.closure k2s.Store.successors k2s.Store.add_edges
    seen_in k2s.Prelude.any k2s.Store.has_key_of
marked = refl

one_left : length (pending_invalidations 5 after_mark) ≡ 1
unfolding mark_invalidation_processed pending_invalidations order_invalidations keep
    k2s.Store.process index_dependencies k2s.Store.edges_of k2s.Store.invalidate k2s.Host.to_str
    k2s.Value.get_default k2s.Store.enqueue k2s.Store.order_nodes impacted k2s.Store.closure
    k2s.Store.successors k2s.Store.add_edges seen_in k2s.Prelude.any k2s.Store.add_edge
    k2s.Store.insert_node k2s.Store.same_row k2s.Store.text_or k2s.Store.has_key_of
one_left = refl
