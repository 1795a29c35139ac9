-- ===== src/Sync/Durable/Opened.antt =====
-- What `open` of `DurableSubscription` of argo_dt/sync.py starts from.
use k2s.Prelude.{
  ℕ, ◌≤◌, String, ◌≡◌, refl, sym, ap, ◌∙◌, ◌⊎◌, inl, inr, true, List, [], ◌∷◌, eq_iff, ltb, arith,
  Bool-cases,
}
use mathlib.Core.Path.{subst}
use k2s.Errors.{Result, ok, err, >>=-eq-ok, reject_if-eq-ok, skip-eq-ok, ◌>>=◌}
use k2s.Types.{EventEnvelope, EventPlane}
use k2s.Store.{Ledger, load, head}
use k2s.Sync.Position.{StreamPosition}
use k2s.Sync.Limits.{SyncLimits}
use k2s.Sync.Durable.State.{Durable}
use k2s.Sync.Durable.Acks.{open_at, check_stored, check_start, event_query}
use k2s.Sync.Durable.Ends.{IsBuffered}
use k2s.Sync.Durable.Window.{IsWindowed}

check_start-eq-ok :
    (p : StreamPosition) (es : List EventEnvelope)
    → check_start p es ≡ ok tt
    → (e : EventEnvelope) × (rest : List EventEnvelope) × (es ≡ e ∷ rest)
      × (e.event_hash ≡ p.event_hash)
unfolding check_start
check_start-eq-ok p [] h = cc
check_start-eq-ok p (e ∷ es) h = (e, es, refl, (eq_iff e.event_hash p.event_hash).0 (ground arith))

-- A position of the ledger: the origin, or that of the first event that is read there.
abbrev pub IsStored : Ledger → StreamPosition → Type 0
IsStored db p =
    (p.sequence ≡ 0)
    ⊎ ((e : EventEnvelope) × (rest : List EventEnvelope) × (load p.twin_id (event_query p) db
          ≡ ok (e ∷ rest))
        × (e.event_hash ≡ p.event_hash))

check_stored-later :
    (db : Ledger) (p : StreamPosition)
    → ltb 0 p.sequence ≡ true
    → check_stored db p ≡ (load p.twin_id (event_query p) db >>= check_start p)
unfolding check_stored
check_stored-later db p h = rw (check_stored, h)

check_stored-IsStored :
    (db : Ledger) (p : StreamPosition) → check_stored db p ≡ ok tt → IsStored db p
check_stored-IsStored db p h = elim (Bool-cases (ltb 0 p.sequence)) [
  | inl later ↦
      let (es, loaded, h1) =
        >>=-eq-ok (load p.twin_id (event_query p) db) _ (sym (check_stored-later db p later) ∙ h) in
      let (first, rest, eq, hash) = check_start-eq-ok p es h1 in
      inr (first, rest, loaded ∙ ap ok eq, hash)
  | inr origin ↦ inl (ground arith)
]

-- A subscription that has been opened at a position of the ledger, up to its head.
pub record IsOpenedAt (db : Ledger) (p : StreamPosition) (d : Durable) : Type 0 where
  pub position : d.position ≡ p
  pub acknowledged : d.acknowledged ≡ p
  pub stored : IsStored db p
  pub replays : d.replay_head ≡ (head db p.twin_id).0
  pub within : p.sequence ≤ d.replay_head
  pub windowed : IsWindowed d
  pub buffered : IsBuffered d

abbrev value_or {ℓ} : {A : Type ℓ} → A → Result A → A
value_or other (ok a) = a
value_or other (err e) = other

pub open_at-IsOpenedAt :
    (db : Ledger) (capacity : ℕ) (p : StreamPosition) (l : SyncLimits) (types : List String)
    (planes : List EventPlane) (d : Durable)
    → open_at db capacity p l types planes ≡ ok d
    → IsOpenedAt db p d
unfolding open_at
open_at-IsOpenedAt db capacity p l types planes d h =
    let (within, h1) = reject_if-eq-ok (ltb (head db p.twin_id).0 p.sequence) _ _ h in
    let (stored, h2) = skip-eq-ok (check_stored db p) _ h1 in
    subst (IsOpenedAt db p) (ap (value_or d) h2) (record {
      position = refl;
      acknowledged = refl;
      stored = check_stored-IsStored db p stored;
      replays = refl;
      within = ground arith;
      windowed = record { ascending = omega arith; bounded = omega arith };
      buffered = tt;
    })
