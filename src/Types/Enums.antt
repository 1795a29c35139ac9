-- ===== src/Types/Enums.antt =====
-- The enumerations of argo_dt/types.py and the event types of argo_dt/ownership.py.
use k2s.Prelude.{
  ℕ, String, Bool, true, false, Option, none, some, ◌≡◌, refl, ◌==◌, eqb, eqb_iff, if◌then◌else◌,
}

pub data EventPlane : Type 0 where
  authoritative projection simulation : EventPlane

abbrev pub plane_value : EventPlane → String
plane_value authoritative = "authoritative"
plane_value projection = "projection"
plane_value simulation = "simulation"

-- `a is b`
abbrev pub same_plane : EventPlane → EventPlane → Bool
same_plane authoritative authoritative = true
same_plane projection projection = true
same_plane simulation simulation = true
same_plane _ _ = false

pub data ProducerRole : Type 0 where
  ingest_service identity_worker adjudication_worker human_review compiler : ProducerRole
  projection_service simulation_service downstream_agent operations_service : ProducerRole

abbrev pub role_value : ProducerRole → String
role_value ingest_service = "ingest_service"
role_value identity_worker = "identity_worker"
role_value adjudication_worker = "adjudication_worker"
role_value human_review = "human_review"
role_value compiler = "compiler"
role_value projection_service = "projection_service"
role_value simulation_service = "simulation_service"
role_value downstream_agent = "downstream_agent"
role_value operations_service = "operations_service"

role_index : ProducerRole → ℕ
role_index ingest_service = 0
role_index identity_worker = 1
role_index adjudication_worker = 2
role_index human_review = 3
role_index compiler = 4
role_index projection_service = 5
role_index simulation_service = 6
role_index downstream_agent = 7
role_index operations_service = 8

unfoldable pub same_role : ProducerRole → ProducerRole → Bool
unfolding role_index
same_role a b = eqb (role_index a) (role_index b)

role_at : ℕ → ProducerRole
role_at n =
    if eqb n 0
    then ingest_service
    else if eqb n 1
    then identity_worker
    else if eqb n 2
    then adjudication_worker
    else if eqb n 3
    then human_review
    else if eqb n 4
    then compiler
    else if eqb n 5
    then projection_service
    else if eqb n 6
    then simulation_service
    else if eqb n 7
    then downstream_agent
    else operations_service

role_at-role_index : (a : ProducerRole) → role_at (role_index a) ≡ a
unfolding role_at role_index
role_at-role_index ingest_service = refl
role_at-role_index _ = refl

pub same_role-eq : (a b : ProducerRole) → same_role a b ≡ true → a ≡ b
unfolding same_role
same_role-eq a b h = cc (role_at-role_index a, role_at-role_index b, (eqb_iff _ _).0 h)

pub same_role_refl : (a : ProducerRole) → same_role a a ≡ true
unfolding same_role
same_role_refl a = (eqb_iff (role_index a) (role_index a)).1 refl

pub data Sensitivity : Type 0 where
  public internal confidential restricted : Sensitivity

abbrev pub rank : Sensitivity → ℕ
rank public = 0
rank internal = 1
rank confidential = 2
rank restricted = 3

-- Sensitivity(text)
unfoldable pub sensitivity_of : String → Option Sensitivity
sensitivity_of s =
    if s == "public"
    then some public
    else if s == "internal"
    then some internal
    else if s == "confidential"
    then some confidential
    else if s == "restricted"
    then some restricted
    else none

-- The event types that the program names; `other` stands for any further text.
pub data EventType : Type 0 where
  evidence_ingested evidence_deleted acquisition_completed : EventType
  entity_linked entity_unlinked : EventType
  claim_proposed contradiction_detected contradiction_adjudicated referral_created : EventType
  claim_accepted claim_contested claim_retired claim_superseded correction_recorded : EventType
  kernel_compiled evaluation_completed readiness_changed : EventType
  projection_issued projection_revoked : EventType
  scenario_state_predicted agent_decision_observed outcome_submitted : EventType
  degradation_declared degradation_cleared : EventType
  other : String → EventType

unfoldable pub type_name : EventType → String
type_name evidence_ingested = "EvidenceIngested"
type_name evidence_deleted = "EvidenceDeleted"
type_name acquisition_completed = "AcquisitionCompleted"
type_name entity_linked = "EntityLinked"
type_name entity_unlinked = "EntityUnlinked"
type_name claim_proposed = "ClaimProposed"
type_name contradiction_detected = "ContradictionDetected"
type_name contradiction_adjudicated = "ContradictionAdjudicated"
type_name referral_created = "ReferralCreated"
type_name claim_accepted = "ClaimAccepted"
type_name claim_contested = "ClaimContested"
type_name claim_retired = "ClaimRetired"
type_name claim_superseded = "ClaimSuperseded"
type_name correction_recorded = "CorrectionRecorded"
type_name kernel_compiled = "KernelCompiled"
type_name evaluation_completed = "EvaluationCompleted"
type_name readiness_changed = "ReadinessChanged"
type_name projection_issued = "ProjectionIssued"
type_name projection_revoked = "ProjectionRevoked"
type_name scenario_state_predicted = "ScenarioStatePredicted"
type_name agent_decision_observed = "AgentDecisionObserved"
type_name outcome_submitted = "OutcomeSubmitted"
type_name degradation_declared = "DegradationDeclared"
type_name degradation_cleared = "DegradationCleared"
type_name (other s) = s
