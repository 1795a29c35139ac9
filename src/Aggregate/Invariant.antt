-- ===== src/Aggregate/Invariant.antt =====
-- The invariant of `TwinState`: its sets of identities agree with its records and with one another.
pub mod Lineage
pub mod Records
pub mod Claims
use k2s.Prelude.{
  String, ◌≡◌, refl, Bool, true, false, Option, none, some, List, [], contains, Dict, has, lookup,
  arith, ◌||◌,
}
use k2s.Aggregate.State.{TwinState, empty_state}
use k2s.Aggregate.Reviews.{is_closed}

-- Claims: every identity in a set is that of a claim; an accepted claim is not contested; an
-- accepted or contested claim is neither retired nor superseded.
pub record ClaimsOk (s : TwinState) : Type 0 where
  pub accepted_known : (k : String) → contains k s.accepted_claim_ids ≡ true → has k s.claims ≡ true
  pub contested_known :
      (k : String) → contains k s.contested_claim_ids ≡ true → has k s.claims ≡ true
  pub retired_known : (k : String) → contains k s.retired_claim_ids ≡ true → has k s.claims ≡ true
  pub superseded_known :
      (k : String) → contains k s.superseded_claim_ids ≡ true → has k s.claims ≡ true
  pub stale_known : (k : String) → contains k s.stale_claim_ids ≡ true → has k s.claims ≡ true
  pub undisputed :
      (k : String)
      → contains k s.accepted_claim_ids ≡ true
      → contains k s.contested_claim_ids ≡ false
  pub accepted_open : (k : String) → contains k s.accepted_claim_ids ≡ true → is_closed k s ≡ false
  pub contested_open :
      (k : String) → contains k s.contested_claim_ids ≡ true → is_closed k s ≡ false

-- Entity links, contradictions and projections: every identity in a set is that of a record, and
-- exactly the adjudicated contradictions are resolved.
pub record RecordsOk (s : TwinState) : Type 0 where
  pub unlinked_known :
      (k : String) → contains k s.unlinked_entity_ids ≡ true → has k s.entity_links ≡ true
  pub stale_links_known :
      (k : String) → contains k s.stale_entity_link_ids ≡ true → has k s.entity_links ≡ true
  pub resolved_known :
      (k : String) → contains k s.resolved_contradiction_ids ≡ true → has k s.contradictions ≡ true
  pub adjudicated : (k : String) → has k s.adjudications ≡ contains k s.resolved_contradiction_ids
  pub revoked_known :
      (k : String) → contains k s.revoked_projection_ids ≡ true → has k s.issued_projections ≡ true
  pub stale_projections_known :
      (k : String) → contains k s.stale_projection_ids ≡ true → has k s.issued_projections ≡ true

pub empty-ClaimsOk : (twin_id : String) → ClaimsOk (empty_state twin_id)
unfolding contains
empty-ClaimsOk twin_id = grind arith

pub empty-RecordsOk : (twin_id : String) → RecordsOk (empty_state twin_id)
unfolding contains has lookup
empty-RecordsOk twin_id = grind arith
