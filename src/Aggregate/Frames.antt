-- ===== src/Aggregate/Frames.antt =====
-- What binding a subject and adjudicating leave as they were.
use k2s.Prelude.{
  String, ◌≡◌, false, none, some, arith, eq_iff, lookup, has, add, put, ◌⊎◌, inl, inr, Bool-cases,
  Option-cases, ◌==◌,
}
use k2s.Errors.{ok, or_raise, invariant_violation, >>=-eq-ok, reject_if-eq-ok, or_raise-eq-ok}
use k2s.Host.{Host, to_str}
use k2s.Value.{Value, null, Fields}
use k2s.Types.{EventEnvelope}
use k2s.Aggregate.State.{TwinState}
use k2s.Aggregate.Handlers.{text_at, bind_subject, stamped}
use k2s.Aggregate.Reviews.{
  bind_optional, adjudicate, record_correction, correct_evidence, correct_claim,
}

pub bind_subject-eq :
    (state bound : TwinState) (s : String)
    → bind_subject state s ≡ ok bound
    → bound ≡ record state { subject_id = some s }
unfolding bind_subject
bind_subject-eq state bound s h = ground arith

module _ ⦃host : Host⦄ where
  pub bind_optional-eq :
      (state bound : TwinState) (v : Value)
      → bind_optional state v ≡ ok bound
      → bound ≡ record state { subject_id = bound.subject_id }
  unfolding bind_optional
  bind_optional-eq state bound null h = ground arith
  bind_optional-eq state bound v h = ground (arith, bind_subject-eq state bound (to_str v))

  pub adjudicate-eq :
      (state next : TwinState) (e : EventEnvelope)
      → adjudicate state e ≡ ok next
      → (id : String) × (c : Fields) × (lookup id state.contradictions ≡ some c)
        × (next ≡ record state {
          subject_id = next.subject_id;
          adjudications = put id (stamped e) state.adjudications;
          resolved_contradiction_ids = add id state.resolved_contradiction_ids;
        })
  unfolding adjudicate bind_subject
  adjudicate-eq state next e h =
      let (id, _, found) = >>=-eq-ok (text_at "contradiction_id" e.payload) _ h in
      let (c, at, rest) =
        >>=-eq-ok (or_raise (lookup id state.contradictions) invariant_violation) _ found in
      (id, c, or_raise-eq-ok _ _ at, ground arith)

  -- A correction binds the subject, and then corrects evidence or a claim.
  pub record_correction-eq :
      (state next : TwinState) (e : EventEnvelope)
      → record_correction state e ≡ ok next
      → (bound : TwinState) × (s c t r : String) × (bind_subject state s ≡ ok bound)
        × (bound ≡ record state { subject_id = some s })
        × (has c bound.corrections ≡ false)
        × ((correct_evidence c t r bound e ≡ ok next) ⊎ (correct_claim c t r bound e ≡ ok next))
  unfolding record_correction
  record_correction-eq state next e h =
      let (s, _, h1) = >>=-eq-ok (text_at "subject_id" e.payload) _ h in
      let (bound, binds, h2) = >>=-eq-ok (bind_subject state s) _ h1 in
      let (c, _, h3) = >>=-eq-ok (text_at "correction_id" e.payload) _ h2 in
      let (fresh, h4) = reject_if-eq-ok (has c bound.corrections) _ _ h3 in
      let (kind, _, h5) = >>=-eq-ok (text_at "target_kind" e.payload) _ h4 in
      let (t, _, h6) = >>=-eq-ok (text_at "target_id" e.payload) _ h5 in
      let (r, _, h7) = >>=-eq-ok (text_at "replacement_id" e.payload) _ h6 in
      (
        bound,
        s,
        c,
        t,
        r,
        binds,
        bind_subject-eq state bound s binds,
        fresh,
        elim (Bool-cases (kind == "evidence")) [
          | inl y ↦ inl (ground arith)
          | inr n ↦ inr (ground arith)
        ],
      )

-- A bound subject stays: a twin has one subject.
pub bind_subject-subject :
    (state bound : TwinState) (s : String)
    → bind_subject state s ≡ ok bound
    → (state.subject_id ≡ none) ⊎ (state.subject_id ≡ bound.subject_id)
unfolding bind_subject
bind_subject-subject state bound s h = elim (Option-cases state.subject_id) [
  | inl n ↦ inl n
  | inr (x, e) ↦ inr (ground (arith, e, eq_iff x s))
]

module _ ⦃host : Host⦄ where
  pub bind_optional-subject :
      (state bound : TwinState) (v : Value)
      → bind_optional state v ≡ ok bound
      → (state.subject_id ≡ none) ⊎ (state.subject_id ≡ bound.subject_id)
  unfolding bind_optional
  bind_optional-subject state bound null h = inr (ground arith)
  bind_optional-subject state bound v h = bind_subject-subject state bound (to_str v) h

  pub adjudicate-subject :
      (state next : TwinState) (e : EventEnvelope)
      → adjudicate state e ≡ ok next
      → (state.subject_id ≡ none) ⊎ (state.subject_id ≡ next.subject_id)
  unfolding adjudicate
  adjudicate-subject state next e h = grind (arith, bind_subject-subject)
