-- ===== src/Store/Load.antt =====
-- `load` and `verify_chain` of argo_dt/event_store.py.
use k2s.Prelude.{
  ℕ, zero, suc, ◌+◌, String, Bool, true, ◌&&◌, Option, none, some, List, [], ◌∷◌, ◌==◌, eqb, ltb,
  leb, any, keep, take,
}
use k2s.Errors.{Result, ok, ensure, traverse, integrity_error, ◌>>=◌, ◌>>◌}
use k2s.Host.{Host}
use k2s.Types.{EventEnvelope, EventPlane, same_plane, verify}
use k2s.Store.Defs.{Ledger, row_to_event, order_by_sequence}

-- The keyword arguments of `load`.
pub record Query : Type 0 where
  pub after_sequence : ℕ
  pub up_to_sequence : Option ℕ
  pub planes : List EventPlane
  pub limit : Option ℕ

abbrev pub whole_stream : Query
whole_stream = record { after_sequence = 0; up_to_sequence = none; planes = []; limit = none }

abbrev pub up_to : Option ℕ → ℕ → Bool
up_to none n = true
up_to (some m) n = leb n m

abbrev pub on_planes : List EventPlane → EventPlane → Bool
on_planes [] p = true
on_planes (q ∷ qs) p = any (same_plane p) (q ∷ qs)

-- The WHERE clause.
unfoldable pub matches : String → Query → EventEnvelope → Bool
matches twin_id q e =
    e.twin_id == twin_id
    && ltb q.after_sequence e.sequence
    && up_to q.up_to_sequence e.sequence
    && on_planes q.planes e.plane

unfoldable pub load : String → Query → Ledger → Result (List EventEnvelope)
load twin_id q db =
    let rows = order_by_sequence (keep (matches twin_id q) db.events) in
    elim q.limit [
      | none ↦ traverse row_to_event rows
      | some zero ↦ ok []
      | some (suc n) ↦ traverse row_to_event (take (suc n) rows)
    ]

module _ ⦃host : Host⦄ where
  -- The loop of `verify_chain`.
  unfoldable pub verify_from : ℕ → String → List EventEnvelope → Result Bool
  verify_from expected_sequence previous_hash [] = ok true
  verify_from expected_sequence previous_hash (e ∷ es) =
      ensure (eqb e.sequence expected_sequence) integrity_error
      >> verify e previous_hash
      >> verify_from (expected_sequence + 1) e.event_hash es

  unfoldable pub verify_chain : String → Ledger → Result Bool
  verify_chain twin_id db = load twin_id whole_stream db >>= verify_from 1 ""
