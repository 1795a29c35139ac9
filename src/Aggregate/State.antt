-- ===== src/Aggregate/State.antt =====
-- `TwinState` of argo_dt/aggregate.py: the projection of one twin's events.
use k2s.Prelude.{ℕ, String, Option, none, List, [], Dict}
use k2s.Value.{Fields}

pub record TwinState : Type 0 where
  pub twin_id : String
  pub subject_id : Option String
  pub sequence : ℕ
  pub evidence : Dict Fields
  pub entity_links : Dict Fields
  pub unlinked_entity_ids : List String
  pub stale_entity_link_ids : List String
  pub claims : Dict Fields
  pub accepted_claim_ids : List String
  pub contested_claim_ids : List String
  pub retired_claim_ids : List String
  pub superseded_evidence_ids : List String
  pub superseded_claim_ids : List String
  pub contradictions : Dict Fields
  pub adjudications : Dict Fields
  pub resolved_contradiction_ids : List String
  pub corrections : Dict Fields
  pub issued_projections : Dict Fields
  pub revoked_projection_ids : List String
  pub stale_claim_ids : List String
  pub stale_projection_ids : List String
  pub degraded_reasons : List String
  pub last_event_hash : String

-- TwinState(twin_id=twin_id)
abbrev pub empty_state : String → TwinState
empty_state twin_id = record {
  twin_id = twin_id;
  subject_id = none;
  sequence = 0;
  evidence = [];
  entity_links = [];
  unlinked_entity_ids = [];
  stale_entity_link_ids = [];
  claims = [];
  accepted_claim_ids = [];
  contested_claim_ids = [];
  retired_claim_ids = [];
  superseded_evidence_ids = [];
  superseded_claim_ids = [];
  contradictions = [];
  adjudications = [];
  resolved_contradiction_ids = [];
  corrections = [];
  issued_projections = [];
  revoked_projection_ids = [];
  stale_claim_ids = [];
  stale_projection_ids = [];
  degraded_reasons = [];
  last_event_hash = "";
}
