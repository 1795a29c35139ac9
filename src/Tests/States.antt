-- ===== src/Tests/States.antt =====
-- A twin with one piece of evidence and one accepted claim, whose evidence is then deleted.
use k2s.Prelude.{Memᴰ, ◌↔◌, String, ◌≡◌, refl, none, some, List, [], ◌∷◌, All, true}
use k2s.Errors.{Result, ok, err, ◌>>=◌}
use k2s.Value.{Fields, end}
use k2s.Types.{EventEnvelope}
use k2s.Aggregate.{
  TwinState, empty_state, apply, replay, accepted_claims, admits, ClaimFilter, text_at,
  select_valid_at,
}
use k2s.Aggregate.Replay.{
  IsWellFormed, empty-IsWellFormed, apply-IsWellFormed, replay-IsWellFormed, replay-append,
}
use k2s.Aggregate.Extends.{Extends, apply-Extends, replay-Extends}
use k2s.Aggregate.Deletion.{Invalidates, apply-Invalidates}
use k2s.Aggregate.Accepted.{IsReliable, accepted_claims_iff}
use k2s.Aggregate.Passing.{Passes}
use k2s.Aggregate.Selected.{IsSelected, select_valid_at-IsSelected}
use k2s.Host.{aware}
use k2s.Store.{twin_events}
use k2s.Tests.Data.{
  test_host, evidence_event, deletion_event, claim_event, acceptance_event, returned,
}
use k2s.Tests.Ledgers.{first, second, second-IsReplayable}

abbrev after : TwinState → EventEnvelope → TwinState
after s e = returned s (apply ⦃host = test_host⦄ s e)

abbrev known : TwinState
known = after (empty_state "t1") evidence_event

known-applied : apply ⦃host = test_host⦄ (empty_state "t1") evidence_event ≡ ok known
unfolding apply k2s.Aggregate.validate_event k2s.Aggregate.validate_envelope
    k2s.Aggregate.validate_payload k2s.Prelude.any k2s.Value.has_field k2s.Value.truthy
    k2s.Value.get k2s.Value.is_dict k2s.Types.sensitivity_of k2s.Host.to_str
    k2s.Aggregate.transition k2s.Aggregate.ingest_evidence text_at k2s.Value.require
    k2s.Aggregate.bind_subject k2s.Prelude.has k2s.Prelude.lookup
known-applied = refl

abbrev proposed : TwinState
proposed = after known claim_event

proposed-applied : apply ⦃host = test_host⦄ known claim_event ≡ ok proposed
unfolding apply k2s.Aggregate.validate_event k2s.Aggregate.validate_envelope
    k2s.Aggregate.validate_payload k2s.Value.get k2s.Errors.traverse k2s.Value.to_list
    k2s.Value.as_dict k2s.Prelude.any k2s.Value.truthy k2s.Prelude.all k2s.Value.hashable
    k2s.Value.distinct k2s.Errors.for_each k2s.Prelude.is_subset k2s.Value.field_names
    k2s.Prelude.contains k2s.Value.in_unit k2s.Aggregate.transition k2s.Aggregate.propose_claim
    text_at k2s.Value.require k2s.Aggregate.bind_subject k2s.Host.to_str k2s.Value.has_field
    k2s.Value.is_dict k2s.Types.sensitivity_of k2s.Aggregate.ingest_evidence k2s.Prelude.has
    k2s.Prelude.lookup k2s.Aggregate.check_sources k2s.Value.iterate k2s.Prelude.put
proposed-applied = refl

abbrev accepted : TwinState
accepted = after proposed acceptance_event

accepted-applied : apply ⦃host = test_host⦄ proposed acceptance_event ≡ ok accepted
unfolding apply k2s.Aggregate.validate_event k2s.Aggregate.validate_envelope
    k2s.Aggregate.validate_payload k2s.Value.truthy k2s.Value.get k2s.Aggregate.transition
    k2s.Aggregate.accept_claim text_at k2s.Value.require k2s.Prelude.has k2s.Prelude.lookup
    k2s.Errors.traverse k2s.Value.to_list k2s.Value.as_dict k2s.Prelude.any k2s.Prelude.all
    k2s.Value.hashable k2s.Value.distinct k2s.Errors.for_each k2s.Prelude.is_subset
    k2s.Value.field_names k2s.Prelude.contains k2s.Value.in_unit k2s.Aggregate.propose_claim
    k2s.Aggregate.bind_subject k2s.Host.to_str k2s.Value.has_field k2s.Value.is_dict
    k2s.Types.sensitivity_of k2s.Aggregate.ingest_evidence k2s.Aggregate.check_sources
    k2s.Value.iterate k2s.Prelude.put
accepted-applied = refl

abbrev deleted : TwinState
deleted = after accepted deletion_event

deleted-applied : apply ⦃host = test_host⦄ accepted deletion_event ≡ ok deleted
unfolding apply k2s.Aggregate.validate_event k2s.Aggregate.validate_envelope
    k2s.Aggregate.validate_payload k2s.Value.truthy k2s.Value.get k2s.Aggregate.transition
    k2s.Aggregate.delete_evidence text_at k2s.Value.require k2s.Prelude.has k2s.Prelude.lookup
    k2s.Aggregate.accept_claim k2s.Errors.traverse k2s.Value.to_list k2s.Value.as_dict
    k2s.Prelude.any k2s.Prelude.all k2s.Value.hashable k2s.Value.distinct k2s.Errors.for_each
    k2s.Prelude.is_subset k2s.Value.field_names k2s.Prelude.contains k2s.Value.in_unit
    k2s.Aggregate.propose_claim k2s.Aggregate.bind_subject k2s.Host.to_str k2s.Value.has_field
    k2s.Value.is_dict k2s.Types.sensitivity_of k2s.Aggregate.ingest_evidence
    k2s.Aggregate.check_sources k2s.Value.iterate k2s.Prelude.put k2s.Aggregate.mark
    k2s.Aggregate.cites k2s.Value.put_field k2s.Errors.any_of k2s.Aggregate.refers_to
deleted-applied = refl

known-IsWellFormed : IsWellFormed known
known-IsWellFormed =
    apply-IsWellFormed ⦃host = test_host⦄ (empty_state "t1") known evidence_event
      (empty-IsWellFormed "t1") known-applied

proposed-IsWellFormed : IsWellFormed proposed
proposed-IsWellFormed =
    apply-IsWellFormed ⦃host = test_host⦄ known proposed claim_event known-IsWellFormed
      proposed-applied

accepted-IsWellFormed : IsWellFormed accepted
accepted-IsWellFormed =
    apply-IsWellFormed ⦃host = test_host⦄ proposed accepted acceptance_event proposed-IsWellFormed
      accepted-applied

apply-IsWellFormed_example : IsWellFormed deleted
apply-IsWellFormed_example =
    apply-IsWellFormed ⦃host = test_host⦄ accepted deleted deletion_event accepted-IsWellFormed
      deleted-applied

replay-IsWellFormed_example : IsWellFormed (second-IsReplayable.replayed "t1").0
replay-IsWellFormed_example =
    replay-IsWellFormed ⦃host = test_host⦄ none (empty_state "t1") ""
      (twin_events "t1" second.1.events) (second-IsReplayable.replayed "t1").0
      (empty-IsWellFormed "t1") (second-IsReplayable.replayed "t1").1

replay-append_example :
    replay ⦃host = test_host⦄ none (empty_state "t1") "" (first.0 ∷ second.0 ∷ []) ≡ (
      replay ⦃host = test_host⦄ none (empty_state "t1") "" (first.0 ∷ []) >>= λ mid.
      replay ⦃host = test_host⦄ none mid mid.last_event_hash (second.0 ∷ []))
replay-append_example =
    replay-append ⦃host = test_host⦄ (empty_state "t1") (first.0 ∷ []) (second.0 ∷ [])

apply-Extends_example : Extends accepted deleted
apply-Extends_example =
    apply-Extends ⦃host = test_host⦄ accepted deleted deletion_event deleted-applied

replay-Extends_example : Extends (empty_state "t1") (second-IsReplayable.replayed "t1").0
replay-Extends_example =
    replay-Extends ⦃host = test_host⦄ none (empty_state "t1") "" (twin_events "t1" second.1.events)
      (second-IsReplayable.replayed "t1").0 (second-IsReplayable.replayed "t1").1

apply-Invalidates_example :
    (id : String) × (text_at ⦃host = test_host⦄ "evidence_id" deletion_event.payload ≡ ok id)
    × Invalidates accepted deleted id
apply-Invalidates_example =
    apply-Invalidates ⦃host = test_host⦄ accepted deleted deletion_event refl deleted-applied

abbrev plain : ClaimFilter
plain = record { valid_at = none; known_at = none; max_sensitivity = none }

abbrev answer : List Fields
answer = returned [] (accepted_claims ⦃host = test_host⦄ plain accepted)

answered : accepted_claims ⦃host = test_host⦄ plain accepted ≡ ok answer
unfolding accepted_claims apply k2s.Aggregate.validate_event k2s.Aggregate.validate_envelope
    k2s.Aggregate.validate_payload k2s.Value.truthy k2s.Value.get k2s.Aggregate.transition
    k2s.Aggregate.delete_evidence text_at k2s.Value.require k2s.Prelude.has k2s.Prelude.lookup
    k2s.Aggregate.accept_claim k2s.Errors.traverse k2s.Value.to_list k2s.Value.as_dict
    k2s.Prelude.any k2s.Prelude.all k2s.Value.hashable k2s.Value.distinct k2s.Errors.for_each
    k2s.Prelude.is_subset k2s.Value.field_names k2s.Prelude.contains k2s.Value.in_unit
    k2s.Aggregate.propose_claim k2s.Aggregate.bind_subject k2s.Host.to_str k2s.Value.has_field
    k2s.Value.is_dict k2s.Types.sensitivity_of k2s.Aggregate.ingest_evidence
    k2s.Aggregate.check_sources k2s.Value.iterate k2s.Prelude.put k2s.Aggregate.mark
    k2s.Aggregate.cites k2s.Value.put_field k2s.Errors.any_of k2s.Aggregate.refers_to
    k2s.Prelude.add admits
answered = refl

abbrev first_of : List Fields → Fields
first_of [] = end
first_of (c ∷ cs) = c

abbrev accepted_claim : Fields
accepted_claim = first_of answer

accepted_claims_iff_example :
    Memᴰ accepted_claim answer
    ↔ (IsReliable accepted accepted_claim × Passes ⦃host = test_host⦄ plain accepted_claim)
accepted_claims_iff_example =
    accepted_claims_iff ⦃host = test_host⦄ plain accepted accepted-IsWellFormed answer answered
      accepted_claim

abbrev valid : TwinState
valid = returned accepted (select_valid_at ⦃host = test_host⦄ (aware 5) accepted)

valid-selected : select_valid_at ⦃host = test_host⦄ (aware 5) accepted ≡ ok valid
unfolding select_valid_at k2s.Aggregate.select apply k2s.Aggregate.validate_event
    k2s.Aggregate.validate_envelope k2s.Aggregate.validate_payload k2s.Value.truthy k2s.Value.get
    k2s.Aggregate.transition k2s.Aggregate.accept_claim text_at k2s.Value.require k2s.Prelude.has
    k2s.Prelude.lookup k2s.Errors.traverse k2s.Value.to_list k2s.Value.as_dict k2s.Prelude.any
    k2s.Prelude.all k2s.Value.hashable k2s.Value.distinct k2s.Errors.for_each k2s.Prelude.is_subset
    k2s.Value.field_names k2s.Prelude.contains k2s.Value.in_unit k2s.Aggregate.propose_claim
    k2s.Aggregate.bind_subject k2s.Host.to_str k2s.Value.has_field k2s.Value.is_dict
    k2s.Types.sensitivity_of k2s.Aggregate.ingest_evidence k2s.Aggregate.check_sources
    k2s.Value.iterate k2s.Prelude.put k2s.Aggregate.is_valid_at k2s.Value.put_field
valid-selected = refl

select_valid_at-IsSelected_example : IsSelected ⦃host = test_host⦄ 5 accepted valid
select_valid_at-IsSelected_example =
    select_valid_at-IsSelected ⦃host = test_host⦄ 5 accepted valid valid-selected
