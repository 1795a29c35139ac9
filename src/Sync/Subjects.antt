-- ===== src/Sync/Subjects.antt =====
-- `NatsSubjectTopology` of argo_dt/sync.py.
pub mod Routing
use k2s.Prelude.{ℕ, String, List, [], ◌∷◌, Option, none, some, ltb, length}
use k2s.Errors.{Result, ok, ensure, reject_if, protocol_violation, ◌>>=◌, ◌>>◌}
use k2s.Types.{EventEnvelope, plane_value, type_name}
use k2s.Sync.Text.{is_token, join_dots}
use k2s.Sync.Utf8.{utf8}

unfoldable pub token : String → Result String
token value = do ensure (is_token value) protocol_violation; ok value

-- Six tokens of at most 64 bytes can be too long together.
unfoldable pub bounded : String → Result String
bounded subject = do reject_if (ltb 255 (length (utf8 subject))) protocol_violation; ok subject

unfoldable pub event_subject : String → EventEnvelope → Result String
event_subject tenant e = do
  tenant_token ← token tenant
  twin_token ← token e.twin_id
  plane_token ← token (plane_value e.plane)
  type_token ← token (type_name e.event_type)
  bounded (join_dots ("argo" ∷ "dt" ∷ tenant_token ∷ twin_token ∷ plane_token ∷ type_token ∷ []))

unfoldable pub deadletter : String → String → String → Result String
deadletter tenant twin_id stage = do
  tenant_token ← token tenant
  twin_token ← token twin_id
  stage_token ← token stage
  bounded (join_dots ("argo" ∷ "dt" ∷ tenant_token ∷ twin_token ∷ "deadletter" ∷ stage_token ∷ []))

-- A part that is not given is the wildcard of one token.
unfoldable pub token_or_any : Option String → Result String
token_or_any none = ok "*"
token_or_any (some value) = token value

unfoldable pub consumer_filter :
    String → Option String → Option String → Option String → Result String
consumer_filter tenant twin_id plane event_type = do
  tenant_token ← token tenant
  twin_token ← token_or_any twin_id
  plane_token ← token_or_any plane
  type_token ← token_or_any event_type
  bounded (join_dots ("argo" ∷ "dt" ∷ tenant_token ∷ twin_token ∷ plane_token ∷ type_token ∷ []))
