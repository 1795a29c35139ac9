-- ===== src/Service/Restamp.antt =====
-- Whether `apply` of argo_dt/aggregate.py accepts an event does not hang on the time or the hash
-- that the store gives it.
use k2s.Prelude.{ℕ, String, ◌≡◌, refl, Bool, true, false, arith, has, ◌==◌, if◌then◌else◌}
use k2s.Errors.{Result, ok, err, reject_if, invariant_violation, ◌>>=◌}
use k2s.Host.{Host}
use k2s.Types.{
  EventEnvelope, same_plane, simulation, EventType, entity_linked, claim_proposed,
  contradiction_detected, contradiction_adjudicated, correction_recorded,
}
use k2s.Aggregate.{
  TwinState, apply, transition, link_entity, propose_claim, detect_contradiction, adjudicate,
  record_correction, correct_evidence, correct_claim, text_at, bind_subject, ingest_evidence,
  delete_evidence, unlink_entity, accept_claim, contest_claim, retire_claim, supersede_claim,
  issue_projection, revoke_projection, declare_degradation, clear_degradation, validate_event,
  validate_envelope,
}

abbrev pub succeeds {ℓ} : {A : Type ℓ} → Result A → Bool
succeeds (ok a) = true
succeeds (err e) = false

abbrev pub restamp : EventEnvelope → ℕ → String → EventEnvelope
restamp e recorded_at event_hash = record e { recorded_at = recorded_at; event_hash = event_hash }

succeeds-bind {ℓ κ} :
    {A : Type ℓ} {B : Type κ} (m : Result A) (f g : A → Result B)
    → ((a : A) → succeeds (f a) ≡ succeeds (g a))
    → succeeds (m >>= f) ≡ succeeds (m >>= g)
succeeds-bind (ok a) f g h = h a
succeeds-bind (err e) f g h = refl

succeeds-if :
    (b : Bool) (l r m q : Result TwinState)
    → succeeds l ≡ succeeds m
    → succeeds r ≡ succeeds q
    → succeeds (if b then l else r) ≡ succeeds (if b then m else q)
succeeds-if true l r m q f g = f
succeeds-if false l r m q f g = g

module _ ⦃host : Host⦄ (e : EventEnvelope) (n : ℕ) (x : String) where
  correct_evidence-restamp :
      (c t r : String) (s : TwinState)
      → succeeds (correct_evidence c t r s (restamp e n x)) ≡ succeeds (correct_evidence c t r s e)
  unfolding correct_evidence
  correct_evidence-restamp c t r s = ground arith

  correct_claim-restamp :
      (c t r : String) (s : TwinState)
      → succeeds (correct_claim c t r s (restamp e n x)) ≡ succeeds (correct_claim c t r s e)
  unfolding correct_claim
  correct_claim-restamp c t r s = ground arith

  record_correction-restamp :
      (s : TwinState)
      → succeeds (record_correction s (restamp e n x)) ≡ succeeds (record_correction s e)
  unfolding record_correction
  record_correction-restamp s = succeeds-bind (text_at "subject_id" e.payload) _ _ (λ subject.
      succeeds-bind (bind_subject s subject) _ _ (λ bound.
        succeeds-bind (text_at "correction_id" e.payload) _ _ (λ c.
          succeeds-bind (reject_if (has c bound.corrections) invariant_violation) _ _ (λ _.
            succeeds-bind (text_at "target_kind" e.payload) _ _ (λ kind.
              succeeds-bind (text_at "target_id" e.payload) _ _ (λ t.
                succeeds-bind (text_at "replacement_id" e.payload) _ _ (λ r.
                  succeeds-if (kind == "evidence") _ _ _ _ (correct_evidence-restamp c t r bound)
                    (correct_claim-restamp c t r bound))))))))

  transition-restamp :
      (t : EventType) (s : TwinState)
      → succeeds (transition t s (restamp e n x)) ≡ succeeds (transition t s e)
  unfolding transition link_entity propose_claim detect_contradiction adjudicate ingest_evidence
      delete_evidence unlink_entity accept_claim contest_claim retire_claim supersede_claim
      issue_projection revoke_projection declare_degradation clear_degradation
  transition-restamp entity_linked s = ground arith
  transition-restamp claim_proposed s = ground arith
  transition-restamp contradiction_detected s = ground arith
  transition-restamp contradiction_adjudicated s = ground arith
  transition-restamp correction_recorded s = record_correction-restamp s
  transition-restamp t s = refl

  pub apply-restamp : (s : TwinState) → succeeds (apply s (restamp e n x)) ≡ succeeds (apply s e)
  unfolding apply validate_event validate_envelope
  apply-restamp s = succeeds-bind (validate_event e) _ _ (λ _.
      succeeds-bind (reject_if (same_plane e.plane simulation) invariant_violation) _ _
        (λ _. ground (arith, transition-restamp e.event_type s)))
