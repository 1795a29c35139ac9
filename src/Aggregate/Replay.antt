-- ===== src/Aggregate/Replay.antt =====
-- Applying and replaying events: the invariant, prefixes and snapshots.
use mathlib.Core.Path.{subst}
use k2s.Prelude.{
  ℕ, ◌+◌, String, ◌≡◌, refl, sym, ◌⊎◌, inl, inr, true, false, Option, none, List, [], ◌∷◌, ◌++◌,
  eqb, eqb_iff, arith, Bool-cases,
}
use k2s.Errors.{
  ok, ensure, >>=-eq-ok, Result-cases, skip-eq-ok, reject_if-eq-ok, ensure-eq-ok, integrity_error,
  ◌>>=◌, ◌>>◌,
}
use k2s.Host.{Host}
use k2s.Types.{EventEnvelope, simulation, same_plane, verify}
use k2s.Aggregate.State.{TwinState, empty_state}
use k2s.Aggregate.Validate.{validate_event}
use k2s.Aggregate.Apply.{apply, transition, replay, is_after}
use k2s.Aggregate.Invariant.{ClaimsOk, RecordsOk, empty-ClaimsOk, empty-RecordsOk}
use k2s.Aggregate.Invariant.Claims.{transition-ClaimsOk}
use k2s.Aggregate.Invariant.Records.{transition-RecordsOk}
use k2s.Aggregate.Invariant.Lineage.{LineageOk, transition-LineageOk, empty-LineageOk}

-- The whole invariant of a twin's state.
pub record IsWellFormed (s : TwinState) : Type 0 where
  pub claims : ClaimsOk s
  pub records : RecordsOk s
  pub lineage : LineageOk s

pub empty-IsWellFormed : (twin_id : String) → IsWellFormed (empty_state twin_id)
empty-IsWellFormed twin_id = record {
  claims = empty-ClaimsOk twin_id;
  records = empty-RecordsOk twin_id;
  lineage = empty-LineageOk twin_id;
}

module _ ⦃host : Host⦄ where
  -- A successful `apply` is a valid event, off the simulation plane, whose branch succeeded.
  pub apply-eq :
      (state next : TwinState) (e : EventEnvelope)
      → apply state e ≡ ok next
      → (mid : TwinState) × (validate_event e ≡ ok tt)
        × (same_plane e.plane simulation ≡ false)
        × (transition e.event_type state e ≡ ok mid)
        × (next ≡ record mid { sequence = e.sequence; last_event_hash = e.event_hash })
  unfolding apply
  apply-eq state next e h =
      let (valid, h1) = skip-eq-ok (validate_event e) _ h in
      let (off, h2) = reject_if-eq-ok (same_plane e.plane simulation) _ _ h1 in
      let (mid, moved, h3) = >>=-eq-ok (transition e.event_type state e) _ h2 in
      (mid, valid, off, moved, ground arith)

  -- Every event that `apply` accepts, of whatever type, keeps the invariant.
  pub apply-IsWellFormed :
      (state next : TwinState) (e : EventEnvelope)
      → IsWellFormed state
      → apply state e ≡ ok next
      → IsWellFormed next
  apply-IsWellFormed state next e w h =
      let (mid, _, _, moved, eq) = apply-eq state next e h in
      let c = transition-ClaimsOk state mid e w.claims e.event_type moved in
      let r = transition-RecordsOk state mid e w.records e.event_type moved in
      let l = transition-LineageOk state mid e w.lineage e.event_type moved in
      record { claims = grind arith; records = grind arith; lineage = grind arith }

  pub apply-last_event_hash :
      (state next : TwinState) (e : EventEnvelope)
      → apply state e ≡ ok next
      → next.last_event_hash ≡ e.event_hash
  apply-last_event_hash state next e h = ground (arith, apply-eq state next e h)

  pub replay-step :
      (limit : Option ℕ) (state : TwinState) (h : String) (e : EventEnvelope)
      (es : List EventEnvelope) (out : TwinState)
      → replay limit state h (e ∷ es) ≡ ok out
      → ((is_after limit e.recorded_at ≡ true) × (out ≡ state))
        ⊎ ((next : TwinState) × (is_after limit e.recorded_at ≡ false)
            × (e.sequence ≡ state.sequence + 1)
            × (verify e h ≡ ok tt)
            × (apply state e ≡ ok next)
            × (replay limit next e.event_hash es ≡ ok out))
  unfolding replay
  replay-step limit state h e es out eq = elim (Bool-cases (is_after limit e.recorded_at)) [
    | inl y ↦ inl (y, ground arith)
    | inr n ↦
        let chain : (ensure (eqb e.sequence (state.sequence + 1)) integrity_error
              >> (verify e h >> (apply state e >>= λ next. replay limit next e.event_hash es)))
            ≡ ok out =
          ground arith in
        let (numbered, h1) = ensure-eq-ok (eqb e.sequence (state.sequence + 1)) _ _ chain in
        let (verified, h2) = skip-eq-ok (verify e h) _ h1 in
        let (next, applied, h3) = >>=-eq-ok (apply state e) _ h2 in
        inr (next, n, (eqb_iff _ _).0 numbered, verified, applied, h3)
  ]

  -- Whatever events are replayed, and up to whatever time, the state keeps the invariant.
  pub replay-IsWellFormed :
      (limit : Option ℕ) (state : TwinState) (h : String) (es : List EventEnvelope)
      (out : TwinState)
      → IsWellFormed state
      → replay limit state h es ≡ ok out
      → IsWellFormed out
  replay-IsWellFormed limit state h [] out w eq = subst IsWellFormed (end_of eq) w
    where
      end_of : replay limit state h [] ≡ ok out → state ≡ out
      end_of eq = unfold replay in cc
  replay-IsWellFormed limit state h (e ∷ es) out w eq =
      elim (replay-step limit state h e es out eq) [
        | inl (_, same_state) ↦ subst IsWellFormed (sym same_state) w
        | inr (next, _, _, _, applied, rest) ↦
            replay-IsWellFormed limit next e.event_hash es out
              (apply-IsWellFormed state next e w applied) rest
      ]

  -- Replaying up to any point and going on from the state there is replaying it all.
  pub replay-append :
      (state : TwinState) (es fs : List EventEnvelope)
      → replay none state state.last_event_hash (es ++ fs) ≡ (
          replay none state state.last_event_hash es >>= λ mid.
          replay none mid mid.last_event_hash fs)
  unfolding replay
  replay-append state [] fs = refl
  replay-append state (e ∷ es) fs = elim (Result-cases (apply state e)) [
    | inr (x, failed) ↦ ground (arith, failed)
    | inl (next, applied) ↦
        let rest : replay none next e.event_hash (es ++ fs)
            ≡ (replay none next e.event_hash es >>= λ mid. replay none mid mid.last_event_hash fs) =
          subst
            (λ h.
              replay none next h (es ++ fs)
              ≡ (replay none next h es >>= λ mid. replay none mid mid.last_event_hash fs))
            (apply-last_event_hash state next e applied) (replay-append next es fs) in
        ground (arith, applied, rest)
  ]
