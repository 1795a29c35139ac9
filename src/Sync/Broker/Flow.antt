-- ===== src/Sync/Broker/Flow.antt =====
-- What a reader gets of the events that a broker of argo_dt/sync.py publishes meanwhile.
use k2s.Prelude.{
  ℕ, suc, leb, ◌<◌, String, ◌≡◌, refl, sym, ap, ◌∙◌, true, false, List, [], ◌∷◌, ◌++◌, some, ◌==◌,
  map, keep, arith, length, ◌≤◌,
}
use mathlib.Core.Path.{subst}
use k2s.Types.{EventEnvelope}
use k2s.Sync.Broker.{
  published, Subscription, is_full, close, Taken, got, ended, overrun, waiting, how_closed,
  take_item, take_live, leave, slow_reason, concerns, offer,
}

abbrev pub answer_of : Taken → List EventEnvelope
answer_of (got e) = e ∷ []
answer_of ended = []
answer_of overrun = []
answer_of waiting = []

-- A subscription to which events are published, in the order of the first list, while its reader
-- takes those of the second.
pub data Flows
    : Subscription → List EventEnvelope → List EventEnvelope → Subscription → Type 0 where
  rests : {s : Subscription} → Flows s [] [] s
  hears :
      {s u : Subscription} {heard taken : List EventEnvelope} (e : EventEnvelope)
      → Flows (offer e s) heard taken u
      → Flows s (e ∷ heard) taken u
  reads :
      {s u : Subscription} {heard taken : List EventEnvelope}
      → Flows (take_live s).1 heard taken u
      → Flows s heard (answer_of (take_live s).0 ++ taken) u

-- A member that waits for the events that its queue holds, up to its capacity.
pub record IsOpen (twin_id : String) (capacity : ℕ) (queued : List EventEnvelope) (s : Subscription)
    : Type 0 where
  pub limit : s.maxsize ≡ capacity
  pub fits : length queued ≤ capacity
  pub twin : s.twin_id ≡ twin_id
  pub queue : s.queue ≡ map published queued
  pub opened : s.closed ≡ false
  pub belongs : s.member ≡ true

-- A subscription that was dropped for being slow.
pub record IsCut (s : Subscription) : Type 0 where
  pub shut : s.closed ≡ true
  pub reason : s.close_reason ≡ some slow_reason
  pub dropped : s.member ≡ false

abbrev pub Rises : ℕ → List EventEnvelope → Type 0
Rises n [] = Unit
Rises n (e ∷ es) = (n < e.sequence) × Rises e.sequence es

abbrev pub of_twin : String → List EventEnvelope → List EventEnvelope
of_twin twin_id es = keep (λ e. twin_id == e.twin_id) es

pub Rises-later :
    (n : ℕ) (qs : List EventEnvelope) (e : EventEnvelope) (es : List EventEnvelope)
    → Rises n (qs ++ e ∷ es)
    → n < e.sequence
Rises-later n [] e es h = h.0
Rises-later n (q ∷ qs) e es h = omega (arith, h.0, Rises-later q.sequence qs e es h.1)

pub map-append :
    (qs : List EventEnvelope) (e : EventEnvelope)
    → map published qs ++ published e ∷ [] ≡ map published (qs ++ e ∷ [])
map-append [] e = refl
map-append (q ∷ qs) e = ap (λ rest. published q ∷ rest) (map-append qs e)

pub length-published : (qs : List EventEnvelope) → length (map published qs) ≡ length qs
length-published [] = refl
length-published (q ∷ qs) = ap suc (length-published qs)

IsCut-offer : (e : EventEnvelope) (s : Subscription) → IsCut s → offer e s ≡ s
unfolding offer concerns
IsCut-offer e s c = rw c.dropped

pub IsCut-take_live : (s : Subscription) → IsCut s → take_live s ≡ (overrun, s)
unfolding take_live how_closed
IsCut-take_live s c = rw (c.shut, c.reason)

-- Nothing reaches the reader of a dropped subscription.
pub IsCut-Flows :
    (s u : Subscription) (heard taken : List EventEnvelope)
    → Flows s heard taken u
    → IsCut s
    → (taken ≡ []) × IsCut u
IsCut-Flows s u heard taken rests c = (refl, c)
IsCut-Flows s u heard taken (hears e f) c =
    IsCut-Flows (offer e s) u _ taken f (subst IsCut (sym (IsCut-offer e s c)) c)
IsCut-Flows s u heard taken (reads {taken = more} f) c =
    let (none_left, d) =
      IsCut-Flows (take_live s).1 u heard more f
        (subst (λ r. IsCut r.1) (sym (IsCut-take_live s c)) c) in
    (ap (λ r. answer_of r.0 ++ more) (IsCut-take_live s c) ∙ none_left, d)

pub append_nil : (qs : List EventEnvelope) → qs ≡ qs ++ []
append_nil [] = refl
append_nil (q ∷ qs) = ap (λ rest. q ∷ rest) (append_nil qs)

pub offer-full :
    (e : EventEnvelope) (s : Subscription)
    → concerns e s ≡ true
    → is_full s ≡ true
    → offer e s ≡ leave (some slow_reason) s
unfolding offer
offer-full e s h full = rw (h, full)

pub offer-room :
    (e : EventEnvelope) (s : Subscription)
    → concerns e s ≡ true
    → is_full s ≡ false
    → offer e s ≡ record s { queue = s.queue ++ published e ∷ [] }
unfolding offer
offer-room e s h room = rw (h, room)

pub leave-IsCut : (s : Subscription) → s.closed ≡ false → IsCut (leave (some slow_reason) s)
unfolding close
leave-IsCut s h = rw h (record { shut = refl; reason = refl; dropped = refl })

module _ (t : String) (k : ℕ) where
  pub offer-other :
      (e : EventEnvelope) (qs : List EventEnvelope) (s : Subscription)
      → IsOpen t k qs s
      → (t == e.twin_id) ≡ false
      → offer e s ≡ s
  unfolding offer concerns
  offer-other e qs s o h = rw (o.belongs, o.twin, h)

  pub offer-concerns :
      (e : EventEnvelope) (qs : List EventEnvelope) (s : Subscription)
      → IsOpen t k qs s
      → (t == e.twin_id) ≡ true
      → s.after_sequence < e.sequence
      → concerns e s ≡ true
  unfolding concerns
  offer-concerns e qs s o h later = rw (o.belongs, o.twin, h) (ground (arith, later))

  pub take-none : (s : Subscription) → IsOpen t k [] s → take_live s ≡ (waiting, s)
  unfolding take_live take_item
  take-none s o = rw (o.opened, o.queue)

  pub take-next :
      (q : EventEnvelope) (qs : List EventEnvelope) (s : Subscription)
      → IsOpen t k (q ∷ qs) s
      → take_live s ≡ (got q, record s { queue = map published qs; after_sequence = q.sequence })
  unfolding take_live take_item
  take-next q qs s o = rw (o.opened, o.queue)

  -- A queue is full exactly if as many events wait as it can hold.
  pub full_iff :
      (qs : List EventEnvelope) (s : Subscription) → IsOpen t k qs s → is_full s ≡ leb k (length qs)
  full_iff qs s o = rw (o.limit, o.queue, length-published qs)
