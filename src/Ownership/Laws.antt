-- ===== src/Ownership/Laws.antt =====
-- What `EventOwnershipPolicy` lets through.
use k2s.Prelude.{
  ◌≡◌, refl, ◌↔◌, true, false, ◌⊎◌, inl, inr, none, some, [], ◌∷◌, eq_iff, arith, any,
}
use k2s.Value.{get}
use k2s.Errors.{ok, err, invariant_violation}
use k2s.Host.{Host}
use k2s.Types.{
  ProducerRole, EventType, evidence_ingested, other, same_role-eq, same_role_refl, EventEnvelope,
  ActorContext,
}
use k2s.Ownership.Defs.{
  event_owners, sole_event_owner, holds_role, authorize_intent, scope_conflict, authorize_subject,
  optional_str, authorize,
}

-- The table names no role, or one.
owners_cases :
    (t : EventType)
    → ((event_owners t ≡ none) × (sole_event_owner t ≡ err invariant_violation))
      ⊎ ((o : ProducerRole) × (event_owners t ≡ some (o ∷ [])) × (sole_event_owner t ≡ ok o))
unfolding sole_event_owner
owners_cases evidence_ingested = inr (_, refl, refl)
owners_cases (other name) = inl (refl, refl)
owners_cases _ = inr (_, refl, refl)

owner_step :
    (t : EventType) (r : ProducerRole) (a : ActorContext)
    → (authorize_intent t r a ≡ ok tt)
      ↔ ((holds_role r a.roles ≡ true) × (sole_event_owner t ≡ ok r))
unfolding authorize_intent any
owner_step t r a = elim (owners_cases t) [
  | inl (n, s) ↦ ground (arith, n, s)
  | inr (o, e, s) ↦ ground (arith, e, s, same_role-eq r o, same_role_refl r)
]

module _ ⦃host : Host⦄ where
  -- An event is authorised exactly when its producer is the authenticated actor, the actor holds
  -- the event's producer role, that role is the sole owner of the event type, and the subject
  -- scope of the actor does not conflict with the payload's subject.
  pub authorize_iff :
      (event : EventEnvelope) (actor : ActorContext)
      → (authorize event actor ≡ ok tt) ↔ (
          (event.producer ≡ actor.identity_id)
          × (holds_role event.producer_role actor.roles ≡ true)
          × (sole_event_owner event.event_type ≡ ok event.producer_role)
          × (scope_conflict actor.subject_id (optional_str (get "subject_id" event.payload))
              ≡ false))
  unfolding authorize authorize_subject
  authorize_iff event actor = ground (
    arith,
    eq_iff event.producer actor.identity_id,
    owner_step event.event_type event.producer_role actor,
  )
