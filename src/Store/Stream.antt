-- ===== src/Store/Stream.antt =====
-- What `load` returns of a chained ledger, and what `verify_chain` accepts.
use k2s.Prelude.{
  ℕ, zero, suc, ◌+◌, ◌≤◌, ◌<◌, String, ◌≡◌, refl, sym, ap, ◌∙◌, Bool, true, false, ◌&&◌, Option,
  none, some, List, [], ◌∷◌, eqb, ltb, keep, arith, All, ◌↔◌, if◌then◌else◌, take,
}
use mathlib.Core.Path.{subst}
use k2s.Errors.{ok, traverse, ensure-eq-ok, >>=-eq-ok, skip-eq-ok, integrity_error, ◌>>=◌}
use k2s.Host.{Host, aware}
use k2s.Types.{EventEnvelope, verify}
use k2s.Store.Defs.{Ledger, row_to_event, parsed, order_by_sequence, insert_by_sequence}
use k2s.Store.Append.{twin_events}
use k2s.Store.Load.{Query, whole_stream, matches, load, verify_from, verify_chain, up_to, on_planes}
use k2s.Store.Chain.{Chained, IsChained}

-- A row that `_row_to_event` reads.
abbrev pub IsAware : EventEnvelope → Type 0
IsAware e = (t : ℕ) × (e.occurred_at ≡ aware t)

-- Strictly ascending sequences, above a bound.
abbrev Ascending : ℕ → List EventEnvelope → Type 0
Ascending n [] = Unit
Ascending n (e ∷ es) = (n < e.sequence) × Ascending e.sequence es

order-Ascending : (n : ℕ) (es : List EventEnvelope) → Ascending n es → order_by_sequence es ≡ es
unfolding order_by_sequence insert_by_sequence
order-Ascending n [] a = refl
order-Ascending n (e ∷ []) a = refl
order-Ascending n (e ∷ d ∷ es) a =
    ap (insert_by_sequence e) (order-Ascending e.sequence (d ∷ es) a.1) ∙ ground arith

lower-Ascending : (m n : ℕ) (es : List EventEnvelope) → m ≤ n → Ascending n es → Ascending m es
lower-Ascending m n [] l a = tt
lower-Ascending m n (e ∷ es) l a = (omega arith, a.1)

keep-Ascending :
    (p : EventEnvelope → Bool) (n : ℕ) (es : List EventEnvelope)
    → Ascending n es
    → Ascending n (keep p es)
unfolding keep
keep-Ascending p n [] a = tt
keep-Ascending p n (e ∷ es) a = pick (p e) (keep-Ascending p e.sequence es a.1)
  where
    pick :
        (b : Bool)
        → Ascending e.sequence (keep p es)
        → Ascending n (if b then e ∷ keep p es else keep p es)
    pick true r = (a.0, r)
    pick false r = lower-Ascending n e.sequence (keep p es) (omega (arith, a.0)) r

-- The part of the WHERE clause that does not name the twin.
abbrev pub in_range : Query → EventEnvelope → Bool
in_range q e =
    ltb q.after_sequence e.sequence
    && up_to q.up_to_sequence e.sequence
    && on_planes q.planes e.plane

keep-matches :
    (t : String) (q : Query) (es : List EventEnvelope)
    → keep (matches t q) es ≡ keep (in_range q) (twin_events t es)
unfolding matches keep twin_events
keep-matches t q [] = refl
keep-matches t q (e ∷ es) = grind (arith, keep-matches t q es)

traverse-IsAware : (es : List EventEnvelope) → All IsAware es → traverse row_to_event es ≡ ok es
unfolding traverse row_to_event parsed
traverse-IsAware [] a = refl
traverse-IsAware (e ∷ es) a = ground (arith, traverse-IsAware es a.1, a.0.1)

keep-IsAware :
    (p : EventEnvelope → Bool) (es : List EventEnvelope) → All IsAware es → All IsAware (keep p es)
unfolding keep
keep-IsAware p [] a = tt
keep-IsAware p (e ∷ es) a = pick (p e) (keep-IsAware p es a.1)
  where
    pick :
        (b : Bool) → All IsAware (keep p es) → All IsAware (if b then e ∷ keep p es else keep p es)
    pick true r = (a.0, r)
    pick false r = r

-- LIMIT
unfoldable pub limited : Option ℕ → List EventEnvelope → List EventEnvelope
limited none es = es
limited (some n) es = take n es

module _ ⦃host : Host⦄ where
  Chained-Ascending :
      (n : ℕ) (h : String) (es : List EventEnvelope) → Chained n h es → Ascending n es
  Chained-Ascending n h [] c = tt
  Chained-Ascending n h (e ∷ es) c =
      (omega (arith, c.0), Chained-Ascending e.sequence e.event_hash es c.2)

  verify_from-Chained :
      (n : ℕ) (h : String) (es : List EventEnvelope)
      → Chained n h es
      → verify_from (n + 1) h es ≡ ok true
  unfolding verify_from
  verify_from-Chained n h [] c = refl
  verify_from-Chained n h (e ∷ es) c =
      let rest : verify_from (n + 1 + 1) e.event_hash es ≡ ok true =
        subst (λ m. verify_from (m + 1) e.event_hash es ≡ ok true) c.0
          (verify_from-Chained e.sequence e.event_hash es c.2) in
      ground (arith, c.0, c.1)

  Chained-verify_from :
      (n : ℕ) (h : String) (es : List EventEnvelope)
      → verify_from (n + 1) h es ≡ ok true
      → Chained n h es
  unfolding verify_from
  Chained-verify_from n h [] v = tt
  Chained-verify_from n h (e ∷ es) v =
      let (g, k) = skip-eq-ok _ (verify_from (n + 1 + 1) e.event_hash es) v in
      let (s, w) = ensure-eq-ok (eqb e.sequence (n + 1)) integrity_error (verify e h) g in
      let at : e.sequence ≡ n + 1 = ground arith in
      (
        at,
        w,
        Chained-verify_from e.sequence e.event_hash es
            (subst (λ m. verify_from (m + 1) e.event_hash es ≡ ok true) (sym at) k),
      )

  take-IsAware : (n : ℕ) (es : List EventEnvelope) → All IsAware es → All IsAware (take n es)
  take-IsAware zero es a = tt
  take-IsAware (suc n) [] a = tt
  take-IsAware (suc n) (e ∷ es) a = (a.0, take-IsAware n es a.1)

  -- On a ledger whose chains hold, if the `occurred_at` of every event of the twin is aware, `load`
  -- returns the events of the twin that the query admits, in the order in which they were appended,
  -- up to its limit.
  pub load-IsChained :
      (db : Ledger) (t : String) (q : Query)
      → IsChained db
      → All IsAware (twin_events t db.events)
      → load t q db ≡ ok (limited q.limit (keep (in_range q) (twin_events t db.events)))
  unfolding load limited
  load-IsChained db t q c a =
      let rows = keep (in_range q) (twin_events t db.events) in
      let sorted : order_by_sequence (keep (matches t q) db.events) ≡ rows =
        ap order_by_sequence (keep-matches t q db.events)
        ∙ order-Ascending 0 rows
            (keep-Ascending (in_range q) 0 _ (Chained-Ascending 0 "" _ (c.chained t))) in
      let aware_rows : All IsAware rows = keep-IsAware (in_range q) _ a in
      by_limit q.limit _ rows sorted aware_rows
    where
      by_limit :
          (m : Option ℕ) (es rows : List EventEnvelope)
          → es ≡ rows
          → All IsAware rows
          → (elim m [
            | none ↦ traverse row_to_event es
            | some zero ↦ ok []
            | some (suc n) ↦ traverse row_to_event (take (suc n) es)
          ])
            ≡ ok (limited m rows)
      by_limit none es rows s w = ap (traverse row_to_event) s ∙ traverse-IsAware rows w
      by_limit (some zero) es rows s w = refl
      by_limit (some (suc n)) es rows s w =
          ap (λ r. traverse row_to_event (take (suc n) r)) s
          ∙ traverse-IsAware (take (suc n) rows) (take-IsAware (suc n) rows w)

  whole-Ascending :
      (n : ℕ) (es : List EventEnvelope) → Ascending n es → keep (in_range whole_stream) es ≡ es
  unfolding keep
  whole-Ascending n [] a = refl
  whole-Ascending n (e ∷ es) a = ground (arith, a.0, whole-Ascending e.sequence es a.1)

  pub load-whole :
      (db : Ledger) (t : String)
      → IsChained db
      → All IsAware (twin_events t db.events)
      → load t whole_stream db ≡ ok (twin_events t db.events)
  unfolding limited
  load-whole db t c a =
      load-IsChained db t whole_stream c a
      ∙ ap ok (whole-Ascending 0 _ (Chained-Ascending 0 "" _ (c.chained t)))

  -- `verify_chain` accepts a stream exactly if it loads as a chain from the origin: sequences 1, 2,
  -- and so on, each event with its own hash and its predecessor's.
  pub verify_chain_iff :
      (db : Ledger) (t : String)
      → (verify_chain t db ≡ ok true)
        ↔ ((es : List EventEnvelope) × (load t whole_stream db ≡ ok es) × Chained 0 "" es)
  unfolding verify_chain
  verify_chain_iff db t = (
    (λ v.
        let (es, l, k) = >>=-eq-ok (load t whole_stream db) _ v in
        (es, l, Chained-verify_from 0 "" es k)),
    (λ w. ap (λ r. r >>= verify_from 1 "") w.1 ∙ verify_from-Chained 0 "" w.0 w.2),
  )

  -- `verify_chain` accepts every stream of a chained ledger.
  verify_chain-IsChained :
      (db : Ledger) (t : String)
      → IsChained db
      → All IsAware (twin_events t db.events)
      → verify_chain t db ≡ ok true
  verify_chain-IsChained db t c a =
      (verify_chain_iff db t).1 (twin_events t db.events, load-whole db t c a, c.chained t)
