-- ===== src/Sync/Durable/Pages.antt =====
-- What `load` of argo_dt/event_store.py returns for a page of the replay.
use k2s.Prelude.{
  ℕ, zero, suc, String, ◌≡◌, refl, sym, ap, ◌∙◌, Bool, true, false, List, [], ◌∷◌, Option, none,
  some, keep, take, arith, All, if◌then◌else◌,
}
use mathlib.Core.Path.{subst}
use k2s.Errors.{ok, traverse, >>=-eq-ok}
use k2s.Host.{DateTime, aware, naive}
use k2s.Types.{EventEnvelope}
use k2s.Store.{
  Ledger, Query, load, matches, order_by_sequence, insert_by_sequence, row_to_event, parsed,
}

module _ (P : EventEnvelope → Type 0) where
  insert-All :
      (e : EventEnvelope) (es : List EventEnvelope)
      → P e
      → All P es
      → All P (insert_by_sequence e es)
  unfolding insert_by_sequence
  insert-All e [] p a = (p, tt)
  insert-All e (f ∷ fs) p a = ground (arith, insert-All e fs p a.1, p, a)

  order-All : (es : List EventEnvelope) → All P es → All P (order_by_sequence es)
  unfolding order_by_sequence
  order-All [] a = tt
  order-All (e ∷ es) a = insert-All e (order_by_sequence es) a.0 (order-All es a.1)

  take-All : (n : ℕ) (es : List EventEnvelope) → All P es → All P (take n es)
  take-All zero es a = tt
  take-All (suc n) [] a = tt
  take-All (suc n) (e ∷ es) a = (a.0, take-All n es a.1)

keep-All : (p : EventEnvelope → Bool) (es : List EventEnvelope) → All (λ e. p e ≡ true) (keep p es)
unfolding keep
keep-All p [] = tt
keep-All p (e ∷ es) = by_test (p e) refl (keep-All p es)
  where
    by_test :
        (b : Bool)
        → p e ≡ b
        → All (λ f. p f ≡ true) (keep p es)
        → All (λ f. p f ≡ true) (if b then e ∷ keep p es else keep p es)
    by_test true h a = (h, a)
    by_test false h a = a

row_to_event-same : (r e : EventEnvelope) → row_to_event r ≡ ok e → e ≡ r
unfolding row_to_event
row_to_event-same r e h = by_time r.occurred_at h
  where
    by_time : (t : DateTime) → parsed t r ≡ ok e → e ≡ r
    by_time (aware t) h = cc
    by_time (naive t) h = cc

traverse-same : (rows es : List EventEnvelope) → traverse row_to_event rows ≡ ok es → es ≡ rows
unfolding traverse
traverse-same [] es h = cc
traverse-same (r ∷ rs) es h =
    let (e, read, h1) = >>=-eq-ok (row_to_event r) _ h in
    let (rest, reads, h2) = >>=-eq-ok (traverse row_to_event rs) _ h1 in
    let a = row_to_event-same r e read in
    let b = traverse-same rs rest reads in
    let c : es ≡ e ∷ rest = cc in c ∙ ap (λ x. x ∷ rest) a ∙ ap (◌∷◌ r) b

page-All :
    (t : String) (q : Query) (rows es : List EventEnvelope)
    → All (λ e. matches t q e ≡ true) rows
    → traverse row_to_event rows ≡ ok es
    → All (λ e. matches t q e ≡ true) es
page-All t q rows es a h = subst (All (λ e. matches t q e ≡ true)) (sym (traverse-same rows es h)) a

-- Every row of a load satisfies its WHERE clause.
pub load-All :
    (t : String) (q : Query) (db : Ledger) (es : List EventEnvelope)
    → load t q db ≡ ok es
    → All (λ e. matches t q e ≡ true) es
unfolding load
load-All t q db es h = by_limit q.limit h
  where
    rows : List EventEnvelope
    rows = order_by_sequence (keep (matches t q) db.events)

    found : All (λ e. matches t q e ≡ true) rows
    found =
        order-All (λ e. matches t q e ≡ true) (keep (matches t q) db.events)
          (keep-All (matches t q) db.events)

    by_limit :
        (limit : Option ℕ)
        → (elim limit [
          | none ↦ traverse row_to_event rows
          | some zero ↦ ok []
          | some (suc n) ↦ traverse row_to_event (take (suc n) rows)
        ])
          ≡ ok es
        → All (λ e. matches t q e ≡ true) es
    by_limit none h = page-All t q rows es found h
    by_limit (some zero) h =
        let nothing : [] ≡ es = cc in subst (All (λ e. matches t q e ≡ true)) nothing tt
    by_limit (some (suc n)) h =
        page-All t q (take (suc n) rows) es
          (take-All (λ e. matches t q e ≡ true) (suc n) rows found) h
