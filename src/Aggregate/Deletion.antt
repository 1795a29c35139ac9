-- ===== src/Aggregate/Deletion.antt =====
-- Deleting evidence: what goes, what is marked, what stays.
use mathlib.Core.Path.{subst}
use k2s.Prelude.{
  Bool, Dict, List, Memᴰ, inl, inr, ◌⊎◌, String, ◌≡◌, ◌≢◌, sym, true, false, some, eq_iff, arith,
  contains, has, lookup, lookup-remove, has-remove,
}
use k2s.Errors.{Result, ok, ensure-eq-ok, >>=-eq-ok}
use k2s.Host.{Host}
use k2s.Value.{Fields}
use k2s.Types.{EventEnvelope, evidence_deleted}
use k2s.Aggregate.State.{TwinState}
use k2s.Aggregate.Citations.{
  Cites, Cites-cites, Draws, Draws-sources_meet, Names, Rests, cites-Names, sources_meet-Rests,
}
use k2s.Aggregate.Handlers.{cites, mark, sources_meet, text_at, delete_evidence}
use k2s.Aggregate.Apply.{apply, transition}
use k2s.Aggregate.Marks.{mark_complete, mark_sound}
use k2s.Aggregate.Replay.{apply-eq}

-- `n` is `s` without the evidence `id`, with all that rests on it marked.
pub record Invalidates (s n : TwinState) (id : String) : Type 0 where
  pub was_there : has id s.evidence ≡ true
  pub is_gone : has id n.evidence ≡ false
  pub others_stay : (j : String) → j ≢ id → lookup j n.evidence ≡ lookup j s.evidence
  pub claims_kept : n.claims ≡ s.claims
  pub claims_stale :
      (k : String) (c : Fields)
      → lookup k s.claims ≡ some c
      → Cites id c
      → contains k n.stale_claim_ids ≡ true
  pub links_stale :
      (k : String) (l : Fields)
      → lookup k s.entity_links ≡ some l
      → Cites id l
      → contains k n.stale_entity_link_ids ≡ true
  pub projections_stale :
      (k : String) (p : Fields)
      → lookup k s.issued_projections ≡ some p
      → Draws n.stale_claim_ids p
      → contains k n.stale_projection_ids ≡ true
  pub claims_cited :
      (k : String)
      → contains k n.stale_claim_ids ≡ true
      → (contains k s.stale_claim_ids ≡ true) ⊎ ((c : Fields) × Memᴰ (k, c) s.claims × Names id c)
  pub links_cited :
      (k : String)
      → contains k n.stale_entity_link_ids ≡ true
      → (contains k s.stale_entity_link_ids ≡ true)
        ⊎ ((l : Fields) × Memᴰ (k, l) s.entity_links × Names id l)
  pub projections_drawn :
      (k : String)
      → contains k n.stale_projection_ids ≡ true
      → (contains k s.stale_projection_ids ≡ true)
        ⊎ ((p : Fields) × Memᴰ (k, p) s.issued_projections × Rests n.stale_claim_ids p)

-- What is marked then was marked before, or is a record that passes the test, and so is of a kind.
marked :
    (test : Fields → Result Bool) (P : Fields → Type 0)
    → ((r : Fields) → test r ≡ ok true → P r)
    → (d : Dict Fields) (ids out : List String) → mark test d ids ≡ ok out
    → (k : String) → contains k out ≡ true
    → (contains k ids ≡ true) ⊎ ((r : Fields) × Memᴰ (k, r) d × P r)
marked test P spec d ids out h k c = elim (mark_sound test d ids out k h c) [
  | inl was ↦ inl was
  | inr (r, m, t) ↦ inr (r, m, spec r t)
]

same : {s t : TwinState} → ok s ≡ ok t → s ≡ t
same h = cc

module _ ⦃host : Host⦄ where
  delete-Invalidates :
      (s n : TwinState) (e : EventEnvelope)
      → delete_evidence s e ≡ ok n
      → (id : String) × (text_at "evidence_id" e.payload ≡ ok id) × Invalidates s n id
  unfolding delete_evidence
  delete-Invalidates s n e h =
      let (id, named, h1) = >>=-eq-ok (text_at "evidence_id" e.payload) _ h in
      let (there, h2) = ensure-eq-ok (has id s.evidence) _ _ h1 in
      let (links, ml, h3) =
        >>=-eq-ok (mark (cites id) s.entity_links s.stale_entity_link_ids) _ h2 in
      let (claims, mc, h4) = >>=-eq-ok (mark (cites id) s.claims s.stale_claim_ids) _ h3 in
      let (projections, mp, h5) =
        >>=-eq-ok (mark (sources_meet claims) s.issued_projections s.stale_projection_ids) _ h4 in
      (
        id,
        named,
        record {
          was_there = there;
          is_gone = ground (arith, has-remove id id s.evidence, eq_iff id id);
          others_stay = λ j d. ground (arith, lookup-remove id j s.evidence, eq_iff id j);
          claims_kept = ground arith;
          claims_stale = λ k c at cited. ground (
            arith,
            mark_complete (cites id) s.claims s.stale_claim_ids claims k c mc at
                (Cites-cites id c cited),
          );
          links_stale = λ k l at cited. ground (
            arith,
            mark_complete (cites id) s.entity_links s.stale_entity_link_ids links k l ml at
                (Cites-cites id l cited),
          );
          projections_stale = λ k p at met. ground (
            arith,
            mark_complete (sources_meet claims) s.issued_projections s.stale_projection_ids
                projections k p mp at,
            Draws-sources_meet n.stale_claim_ids p met,
          );
          claims_cited =
              subst
                (λ r.
                  (k : String)
                  → contains k r.stale_claim_ids ≡ true
                  → (contains k s.stale_claim_ids ≡ true)
                    ⊎ ((c : Fields) × Memᴰ (k, c) s.claims × Names id c))
                (same h5)
                (marked (cites id) (Names id) (cites-Names id) s.claims s.stale_claim_ids claims
                  mc);
          links_cited =
              subst
                (λ r.
                  (k : String)
                  → contains k r.stale_entity_link_ids ≡ true
                  → (contains k s.stale_entity_link_ids ≡ true)
                    ⊎ ((l : Fields) × Memᴰ (k, l) s.entity_links × Names id l))
                (same h5)
                (marked (cites id) (Names id) (cites-Names id) s.entity_links
                  s.stale_entity_link_ids links ml);
          projections_drawn =
              subst
                (λ r.
                  (k : String)
                  → contains k r.stale_projection_ids ≡ true
                  → (contains k s.stale_projection_ids ≡ true)
                    ⊎ ((p : Fields) × Memᴰ (k, p) s.issued_projections × Rests r.stale_claim_ids p))
                (same h5)
                (marked (sources_meet claims) (Rests claims) (sources_meet-Rests claims)
                  s.issued_projections s.stale_projection_ids projections mp);
        },
      )

  -- An accepted `EvidenceDeleted` removes the evidence that it names and no other, keeps every
  -- claim, and marks every claim and link whose provenance, a sequence of objects, names it by a
  -- text, and every projection whose sources, a sequence of texts, name a claim that is stale then.
  -- It marks nothing else: a claim, link or projection that is stale then was so before, or names the
  -- evidence in an object of its provenance, or names a claim that is stale then among its sources.
  pub apply-Invalidates :
      (s n : TwinState) (e : EventEnvelope)
      → e.event_type ≡ evidence_deleted
      → apply s e ≡ ok n
      → (id : String) × (text_at "evidence_id" e.payload ≡ ok id) × Invalidates s n id
  unfolding transition
  apply-Invalidates s n e type h =
      let (mid, _, _, moved, eq) = apply-eq s n e h in
      let deleted : delete_evidence s e ≡ ok mid =
        subst (λ t. transition t s e ≡ ok mid) type moved in
      let (id, named, i) = delete-Invalidates s mid e deleted in
      (
        id,
        named,
        subst (λ r. Invalidates s r id) (sym eq)
            (record {
              was_there = i.was_there;
              is_gone = i.is_gone;
              others_stay = i.others_stay;
              claims_kept = i.claims_kept;
              claims_stale = i.claims_stale;
              links_stale = i.links_stale;
              projections_stale = i.projections_stale;
              claims_cited = i.claims_cited;
              links_cited = i.links_cited;
              projections_drawn = i.projections_drawn;
            }),
      )
