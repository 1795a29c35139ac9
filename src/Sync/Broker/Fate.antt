-- ===== src/Sync/Broker/Fate.antt =====
-- The order in which a reader of a broker of argo_dt/sync.py has got events, what has become of its
-- queue, and what a publication and a read do to both.
use k2s.Prelude.{
  String, ◌≡◌, refl, sym, ap, ◌∙◌, ◌⊎◌, inl, inr, true, false, List, [], ◌∷◌, ◌++◌, ◌==◌, map, keep,
  ℕ, leb, length, arith, append_assoc, suc,
}
use mathlib.Core.Path.{subst}
use k2s.Types.{EventEnvelope}
use k2s.Sync.Broker.{published, Subscription, Taken, got, ended, overrun, waiting, take_live}
use k2s.Sync.Broker.Flow.{
  answer_of, IsOpen, IsCut, of_twin, append_nil, map-append, IsCut-take_live,
}

length-append :
    (qs : List EventEnvelope) (e : EventEnvelope) → length (qs ++ e ∷ []) ≡ suc (length qs)
length-append [] e = refl
length-append (q ∷ qs) e = ap suc (length-append qs e)

answered :
    (a : Taken) (more rest : List EventEnvelope)
    → (answer_of a ++ more) ++ rest ≡ answer_of a ++ (more ++ rest)
answered (got e) more rest = refl
answered ended more rest = refl
answered overrun more rest = refl
answered waiting more rest = refl

module _ (t : String) (k : ℕ) where
  -- What a reader has taken is a beginning of what was queued and what was published; the rest follows.
  abbrev pub InOrder :
      List EventEnvelope → List EventEnvelope → List EventEnvelope → List EventEnvelope → Type 0
  InOrder queued heard taken rest = taken ++ rest ≡ queued ++ of_twin t heard

  -- An event of the twin was published when the events that the reader had left filled the queue.
  pub record Overflows (queued heard taken : List EventEnvelope) : Type 0 where
    pub before : List EventEnvelope
    pub event : EventEnvelope
    pub after : List EventEnvelope
    pub split : heard ≡ before ++ event ∷ after
    pub own : (t == event.twin_id) ≡ true
    pub left : List EventEnvelope
    pub in_order : InOrder queued before taken left
    pub full : length left ≡ k

  -- The rest waits in the queue, which it fits; or the queue overflowed and the subscription was
  -- dropped, which the next read reports.
  pub record Delivers (queued heard taken : List EventEnvelope) (u : Subscription) : Type 0 where
    pub rest : List EventEnvelope
    pub in_order : InOrder queued heard taken rest
    pub fate :
        IsOpen t k rest u ⊎ (IsCut u × (take_live u ≡ (overrun, u)) × Overflows queued heard taken)

  pub of_twin-other :
      (e : EventEnvelope) (es : List EventEnvelope)
      → (t == e.twin_id) ≡ false
      → of_twin t (e ∷ es) ≡ of_twin t es
  unfolding keep
  of_twin-other e es h = rw h

  pub of_twin-own :
      (e : EventEnvelope) (es : List EventEnvelope)
      → (t == e.twin_id) ≡ true
      → of_twin t (e ∷ es) ≡ e ∷ of_twin t es
  unfolding keep
  of_twin-own e es h = rw h

  -- What one step does to an order.
  pub other-InOrder :
      (e : EventEnvelope) (qs es taken rest : List EventEnvelope)
      → (t == e.twin_id) ≡ false
      → InOrder qs es taken rest
      → InOrder qs (e ∷ es) taken rest
  other-InOrder e qs es taken rest other h =
      h ∙ ap (λ fs. qs ++ fs) (sym (of_twin-other e es other))

  pub own-InOrder :
      (e : EventEnvelope) (qs es taken rest : List EventEnvelope)
      → (t == e.twin_id) ≡ true
      → InOrder (qs ++ e ∷ []) es taken rest
      → InOrder qs (e ∷ es) taken rest
  own-InOrder e qs es taken rest own h =
      h ∙ append_assoc qs e (of_twin t es) ∙ ap (λ fs. qs ++ fs) (sym (of_twin-own e es own))

  answer-InOrder :
      (a : Taken) (qs es more rest : List EventEnvelope)
      → InOrder qs es more rest
      → InOrder (answer_of a ++ qs) es (answer_of a ++ more) rest
  answer-InOrder a qs es more rest h =
      answered a more rest ∙ ap (λ fs. answer_of a ++ fs) h ∙ sym (answered a qs (of_twin t es))

  -- What one step does to what is delivered, by what it does to an order.
  pub hears-Delivers :
      (e : EventEnvelope) (qs ps es taken : List EventEnvelope) (u : Subscription)
      → ((fs rest : List EventEnvelope) → InOrder ps fs taken rest → InOrder qs (e ∷ fs) taken rest)
      → Delivers ps es taken u
      → Delivers qs (e ∷ es) taken u
  hears-Delivers e qs ps es taken u step d = record {
    rest = d.rest;
    in_order = step es d.rest d.in_order;
    fate = by_fate d.fate;
  }
    where
      by_fate :
          IsOpen t k d.rest u ⊎ (IsCut u × (take_live u ≡ (overrun, u)) × Overflows ps es taken)
          → IsOpen t k d.rest u
            ⊎ (IsCut u × (take_live u ≡ (overrun, u)) × Overflows qs (e ∷ es) taken)
      by_fate (inl o) = inl o
      by_fate (inr (c, next, v)) = inr (
        c,
        next,
        record {
          before = e ∷ v.before;
          event = v.event;
          after = v.after;
          split = ap (λ fs. e ∷ fs) v.split;
          own = v.own;
          left = v.left;
          in_order = step v.before v.left v.in_order;
          full = v.full;
        },
      )

  pub reads-Delivers :
      (r : Taken × Subscription) (a : Taken) (next : Subscription)
      (qs heard more : List EventEnvelope) (u : Subscription)
      → r ≡ (a, next)
      → Delivers qs heard more u
      → Delivers (answer_of a ++ qs) heard (answer_of r.0 ++ more) u
  reads-Delivers r a next qs heard more u h d =
      subst (λ q. Delivers (answer_of a ++ qs) heard (answer_of q.0 ++ more) u) (sym h)
        (record {
          rest = d.rest;
          in_order = answer-InOrder a qs heard more d.rest d.in_order;
          fate = by_fate d.fate;
        })
    where
      by_fate :
          IsOpen t k d.rest u ⊎ (IsCut u × (take_live u ≡ (overrun, u)) × Overflows qs heard more)
          → IsOpen t k d.rest u
            ⊎ (IsCut u
                × (take_live u ≡ (overrun, u))
                × Overflows (answer_of a ++ qs) heard (answer_of a ++ more))
      by_fate (inl o) = inl o
      by_fate (inr (c, after_cut, v)) = inr (
        c,
        after_cut,
        record {
          before = v.before;
          event = v.event;
          after = v.after;
          split = v.split;
          own = v.own;
          left = v.left;
          in_order = answer-InOrder a qs v.before more v.left v.in_order;
          full = v.full;
        },
      )

  pub IsCut-Delivers :
      (e : EventEnvelope) (qs es taken : List EventEnvelope) (u : Subscription)
      → taken ≡ []
      → (t == e.twin_id) ≡ true
      → length qs ≡ k
      → IsCut u
      → Delivers qs (e ∷ es) taken u
  unfolding keep
  IsCut-Delivers e qs es taken u h own full c = record {
    rest = qs ++ of_twin t (e ∷ es);
    in_order = ap (λ fs. fs ++ (qs ++ of_twin t (e ∷ es))) h;
    fate = inr (
      c,
      IsCut-take_live u c,
      record {
        before = [];
        event = e;
        after = es;
        split = refl;
        own = own;
        left = qs;
        in_order = ap (λ fs. fs ++ qs) h ∙ append_nil qs;
        full = full;
      },
    );
  }

  pub room-IsOpen :
      (e : EventEnvelope) (qs : List EventEnvelope) (s : Subscription)
      → IsOpen t k qs s
      → leb k (length qs) ≡ false
      → IsOpen t k (qs ++ e ∷ []) (record s { queue = s.queue ++ published e ∷ [] })
  room-IsOpen e qs s o room = record {
    limit = o.limit;
    fits = ground (arith, room, length-append qs e);
    twin = o.twin;
    queue = ap (λ is. is ++ published e ∷ []) o.queue ∙ map-append qs e;
    opened = o.opened;
    belongs = o.belongs;
  }

  pub next-IsOpen :
      (q : EventEnvelope) (qs : List EventEnvelope) (s : Subscription)
      → IsOpen t k (q ∷ qs) s
      → IsOpen t k qs (record s { queue = map published qs; after_sequence = q.sequence })
  next-IsOpen q qs s o = record {
    limit = o.limit;
    fits = omega (arith, o.fits);
    twin = o.twin;
    queue = refl;
    opened = o.opened;
    belongs = o.belongs;
  }
