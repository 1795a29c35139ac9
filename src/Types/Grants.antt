-- ===== src/Types/Grants.antt =====
-- The grants and requests of argo_dt/types.py, with the checks of their `__post_init__`.
use k2s.Prelude.{
  ℕ, String, Bool, true, false, ◌&&◌, Option, none, some, List, [], ◌∷◌, ◌==◌, leb, ltb,
}
use k2s.Errors.{Result, ok, err, reject_if, invariant_violation, type_error, ◌>>=◌, ◌>>◌}
use k2s.Host.{DateTime, aware, naive}
use k2s.Types.Enums.{ProducerRole, Sensitivity}

pub record ActorContext : Type 0 where
  pub identity_id : String
  pub roles : List ProducerRole
  pub subject_id : Option String

abbrev is_empty {ℓ} : {A : Type ℓ} → List A → Bool
is_empty [] = true
is_empty (x ∷ xs) = false

unfoldable pub new_actor : String → List ProducerRole → Option String → Result ActorContext
new_actor identity_id roles subject_id = do
  reject_if (identity_id == "") invariant_violation
  reject_if (is_empty roles) invariant_violation
  ok (record { identity_id = identity_id; roles = roles; subject_id = subject_id })

-- `a <= b` on two readings: of two kinds it raises `TypeError`.
at_most : DateTime → DateTime → Result Bool
at_most (aware a) (aware b) = ok (leb a b)
at_most (naive a) (naive b) = ok (leb a b)
at_most _ _ = err type_error

-- A reading with an offset, as an instant.
instant : DateTime → Result ℕ
instant (aware t) = ok t
instant (naive t) = err invariant_violation

optional_instant : Option DateTime → Result (Option ℕ)
optional_instant none = ok none
optional_instant (some (aware t)) = ok (some t)
optional_instant (some (naive t)) = err invariant_violation

-- `revoked_at` is tested for its presence only.
unfoldable pub active : ℕ → ℕ → Option ℕ → ℕ → Bool
active valid_from valid_until none now = leb valid_from now && ltb now valid_until
active valid_from valid_until (some t) now = false

pub record Window : Type 0 where
  pub valid_from : ℕ
  pub valid_until : ℕ
  pub revoked_at : Option ℕ

-- The order of the window, then its offsets.
unfoldable pub check_window : DateTime → DateTime → Option DateTime → Result Window
unfolding at_most instant optional_instant
check_window from until revoked = do
  backwards ← at_most until from
  reject_if backwards invariant_violation
  f ← instant from
  u ← instant until
  r ← optional_instant revoked
  ok (record { valid_from = f; valid_until = u; revoked_at = r })

unfoldable pub active_at : Window → ℕ → Bool
unfolding active
active_at w now = active w.valid_from w.valid_until w.revoked_at now

pub record ConsentGrant : Type 0 where
  pub consent_id : String
  pub subject_id : String
  pub recipient_id : String
  pub purposes : List String
  pub allowed_fields : List String
  pub max_sensitivity : Sensitivity
  pub window : Window
  pub policy_version : String

pub record ProjectionRequest : Type 0 where
  pub request_id : String
  pub twin_id : String
  pub subject_id : String
  pub recipient_id : String
  pub purpose : String
  pub requested_fields : List String
  pub maximum_sensitivity : Sensitivity
  pub as_of_valid_time : ℕ
  pub as_of_recorded_time : ℕ

pub record ActionEnvelope : Type 0 where
  pub action_id : String
  pub principal_id : String
  pub actor_identity_id : String
  pub purpose : String
  pub target : String
  pub requested_capabilities : List String
  pub impact : String
  pub reversible : Bool
  pub evidence_ids : List String
  pub constraint_version : String
  pub idempotency_key : String
  pub issued_at : ℕ
  pub expires_at : ℕ

pub record AuthorityGrant : Type 0 where
  pub grant_id : String
  pub principal_id : String
  pub actor_identity_id : String
  pub purposes : List String
  pub capabilities : List String
  pub maximum_impact : String
  pub require_reversible : Bool
  pub window : Window
