-- ===== src/Aggregate/View.antt =====
-- The queries of `TwinState`: what is valid at an instant, and the accepted claims.
use Prim.Native.String.{compare}
use text.Mathlib.Text.{is_le}
use k2s.Prelude.{
  ℕ, String, Bool, true, false, ◌&&◌, ◌||◌, Option, none, some, List, [], ◌∷◌, leb, ltb, contains,
  intersection, is_subset, Dict, lookup, keys, if◌then◌else◌,
}
use k2s.Value.{Value, str, Fields, truthy, get, get_default, require}
use k2s.Errors.{
  Result, ok, err, or_raise, invariant_violation, value_error, attribute_error, key_error, ◌>>=◌,
}
use k2s.Host.{Host, DateTime, aware, naive, to_str, parse_time}
use k2s.Types.{Sensitivity, sensitivity_of, rank}
use k2s.Aggregate.State.{TwinState}
use k2s.Aggregate.Handlers.{texts_at}

unfoldable pub insert_sorted : String → List String → List String
insert_sorted s [] = s ∷ []
insert_sorted s (t ∷ ts) =
    let rest = insert_sorted s ts in if is_le (compare s t) then s ∷ t ∷ ts else t ∷ rest

-- sorted(names), by code points
unfoldable pub sorted : List String → List String
unfolding insert_sorted
sorted [] = []
sorted (s ∷ ss) = insert_sorted s (sorted ss)

-- {key: value for key, value in records.items() if test(value)}
unfoldable pub select : (Fields → Result Bool) → Dict Fields → Result (Dict Fields)
select test [] = ok []
select test ((key, r) ∷ rest) = do
  hit ← test r
  others ← select test rest
  ok (if hit then (key, r) ∷ others else others)

abbrev pub before_end : ℕ → Option ℕ → Bool
before_end instant none = true
before_end instant (some end_time) = ltb instant end_time

abbrev pub not_after : Option ℕ → ℕ → Bool
not_after none instant = true
not_after (some recorded) instant = leb recorded instant

-- Sensitivity(value)
unfoldable pub sensitivity_value : Value → Result Sensitivity
sensitivity_value (str s) = or_raise (sensitivity_of s) value_error
sensitivity_value _ = err value_error

-- The tests of `accepted_claims`; `none` is a keyword left out.
pub record ClaimFilter : Type 0 where
  pub valid_at : Option ℕ
  pub known_at : Option ℕ
  pub max_sensitivity : Option Sensitivity

-- claim_id in stale, retired or superseded
abbrev pub is_hidden : String → TwinState → Bool
is_hidden id state =
    contains id state.stale_claim_ids
    || contains id state.retired_claim_ids
    || contains id state.superseded_claim_ids

module _ ⦃host : Host⦄ where
  -- parse_time(value) on a payload value
  unfoldable pub parse_value : Value → Result ℕ
  parse_value (str s) = parse_time s
  parse_value _ = err attribute_error

  -- parse_time(…) if value else None
  unfoldable pub parse_optional : Value → Result (Option ℕ)
  parse_optional v = elim (truthy v) [
    | true ↦ (parse_value v >>= λ t. ok (some t))
    | false ↦ ok none
  ]

  unfoldable pub parse_text_optional : Value → Result (Option ℕ)
  parse_text_optional v = elim (truthy v) [
    | true ↦ (parse_time (to_str v) >>= λ t. ok (some t))
    | false ↦ ok none
  ]

  -- TwinState._valid_at
  unfoldable pub is_valid_at : ℕ → Fields → Result Bool
  unfolding parse_text_optional
  is_valid_at instant r = elim (truthy (get "valid_from" r)) [
    | false ↦ ok true
    | true ↦ do
      start ← parse_time (to_str (get "valid_from" r))
      end_time ← parse_text_optional (get "valid_until" r)
      ok (leb start instant && before_end instant end_time)
  ]

  unfoldable pub select_valid_at : DateTime → TwinState → Result TwinState
  select_valid_at (naive t) state = err invariant_violation
  select_valid_at (aware instant) state = do
    evidence ← select (is_valid_at instant) state.evidence
    entity_links ← select (is_valid_at instant) state.entity_links
    let entity_link_ids = keys entity_links
    claims ← select (is_valid_at instant) state.claims
    let claim_ids = keys claims
    contradictions ←
        select (λ r. texts_at "claim_ids" r >>= λ ids. ok (is_subset ids claim_ids))
          state.contradictions
    let contradiction_ids = keys contradictions
    adjudications ←
        select
          (λ r.
            ok (contains (to_str (get_default "contradiction_id" (str "") r)) contradiction_ids))
          state.adjudications
    ok (record state {
      evidence = evidence;
      entity_links = entity_links;
      unlinked_entity_ids = intersection state.unlinked_entity_ids entity_link_ids;
      stale_entity_link_ids = intersection state.stale_entity_link_ids entity_link_ids;
      claims = claims;
      accepted_claim_ids = intersection state.accepted_claim_ids claim_ids;
      contested_claim_ids = intersection state.contested_claim_ids claim_ids;
      retired_claim_ids = intersection state.retired_claim_ids claim_ids;
      superseded_claim_ids = intersection state.superseded_claim_ids claim_ids;
      stale_claim_ids = intersection state.stale_claim_ids claim_ids;
      contradictions = contradictions;
      resolved_contradiction_ids = intersection state.resolved_contradiction_ids contradiction_ids;
      adjudications = adjudications;
    })

  unfoldable pub within_sensitivity : Option Sensitivity → Fields → Result Bool
  unfolding sensitivity_value
  within_sensitivity none claim = ok true
  within_sensitivity (some bound) claim = do
    sensitivity ← sensitivity_value (get_default "sensitivity" (str "internal") claim)
    ok (leb (rank sensitivity) (rank bound))

  unfoldable pub valid_then : Option ℕ → Fields → Result Bool
  valid_then none claim = ok true
  valid_then (some instant) claim = do
    raw ← require "valid_from" claim
    start ← parse_value raw
    end_time ← parse_optional (get "valid_until" claim)
    ok (leb start instant && before_end instant end_time)

  unfoldable pub known_then : Option ℕ → Fields → Result Bool
  known_then none claim = ok true
  known_then (some instant) claim = do
    recorded ← parse_optional (get "recorded_at" claim)
    ok (not_after recorded instant)

  -- One claim against the filter: a test that fails skips those behind it.
  unfoldable pub admits : ClaimFilter → Fields → Result Bool
  unfolding within_sensitivity valid_then known_then
  admits f claim = within_sensitivity f.max_sensitivity claim >>= elim [
    | false ↦ ok false
    | true ↦
        valid_then f.valid_at claim
        >>= elim [ false ↦ ok false | true ↦ known_then f.known_at claim ]
  ]

  unfoldable pub accepted_loop : ClaimFilter → TwinState → List String → Result (List Fields)
  accepted_loop f state [] = ok []
  accepted_loop f state (id ∷ ids) =
      let rest = accepted_loop f state ids in
      elim (is_hidden id state) [
        | true ↦ rest
        | false ↦ do
          claim ← or_raise (lookup id state.claims) key_error
          hit ← admits f claim
          others ← rest
          ok (if hit then claim ∷ others else others)
      ]

  unfoldable pub accepted_claims : ClaimFilter → TwinState → Result (List Fields)
  unfolding accepted_loop sorted
  accepted_claims f state = accepted_loop f state (sorted state.accepted_claim_ids)
