-- ===== src/Sync/Broker/Delivery.antt =====
-- The order in which a reader of a broker of argo_dt/sync.py gets events.
use k2s.Prelude.{
  String, sym, ◌∙◌, inl, inr, List, [], ◌∷◌, ◌++◌, ◌==◌, keep, Bool-cases, ℕ, leb, length, arith,
  append_assoc,
}
use mathlib.Core.Path.{subst}
use k2s.Types.{EventEnvelope}
use k2s.Sync.Broker.{Subscription, got, waiting, take_live, offer}
use k2s.Sync.Broker.Flow.{
  Flows, rests, hears, reads, IsOpen, IsCut, Rises, of_twin, Rises-later, append_nil, full_iff,
  IsCut-Flows, offer-full, offer-room, leave-IsCut, offer-other, offer-concerns, take-none,
  take-next,
}
use k2s.Sync.Broker.Fate.{
  Delivers, other-InOrder, own-InOrder, hears-Delivers, reads-Delivers, IsCut-Delivers, room-IsOpen,
  next-IsOpen, of_twin-other, of_twin-own,
}

module _ (t : String) (k : ℕ) where
  -- While a broker publishes events to an open subscription, those of its twin each later than those
  -- before it, and a reader takes some, the reader gets them in the order in which they were
  -- published, none left out and none twice. Either what is left waits in the queue, which it fits;
  -- or an event of the twin was published when what was left filled the queue: then the subscription
  -- was dropped, and the next read raises BackpressureExceeded.
  pub Flows-Delivers :
      (qs heard taken : List EventEnvelope) (s u : Subscription)
      → Flows s heard taken u
      → IsOpen t k qs s
      → Rises s.after_sequence (qs ++ of_twin t heard)
      → Delivers t k qs heard taken u
  unfolding keep
  Flows-Delivers qs heard taken s u rests o up = record {
    rest = qs;
    in_order = append_nil qs;
    fate = inl o;
  }
  Flows-Delivers qs heard taken s u (hears {heard = es} e f) o up =
      elim (Bool-cases (t == e.twin_id)) [
        | inr other ↦
            let stays = offer-other t k e qs s o other in
            hears-Delivers t k e qs qs es taken u
              (λ fs rest. other-InOrder t k e qs fs taken rest other)
              (Flows-Delivers qs es taken (offer e s) u f (subst (IsOpen t k qs) (sym stays) o) (
                subst (λ r. Rises r.after_sequence (qs ++ of_twin t es)) (sym stays)
                  (subst (λ fs. Rises s.after_sequence (qs ++ fs)) (of_twin-other t k e es other)
                    up)))
        | inl own ↦
            let up' : Rises s.after_sequence (qs ++ e ∷ of_twin t es) =
              subst (λ fs. Rises s.after_sequence (qs ++ fs)) (of_twin-own t k e es own) up in
            let wanted =
              offer-concerns t k e qs s o own (Rises-later s.after_sequence qs e _ up') in
            elim (Bool-cases (leb k (length qs))) [
              | inl full ↦
                  let left = offer-full e s wanted (full_iff t k qs s o ∙ full) in
                  let (nothing, c) =
                    IsCut-Flows (offer e s) u es taken f
                      (subst IsCut (sym left) (leave-IsCut s o.opened)) in
                  IsCut-Delivers t k e qs es taken u nothing own (ground (arith, full, o.fits)) c
              | inr room ↦
                  let put = offer-room e s wanted (full_iff t k qs s o ∙ room) in
                  hears-Delivers t k e qs (qs ++ e ∷ []) es taken u
                    (λ fs rest. own-InOrder t k e qs fs taken rest own)
                    (Flows-Delivers (qs ++ e ∷ []) es taken (offer e s) u f
                      (subst (IsOpen t k (qs ++ e ∷ [])) (sym put) (room-IsOpen t k e qs s o room))
                      (subst (λ r. Rises r.after_sequence ((qs ++ e ∷ []) ++ of_twin t es))
                        (sym put)
                        (subst (Rises s.after_sequence) (sym (append_assoc qs e (of_twin t es)))
                          up')))
            ]
      ]
  Flows-Delivers [] heard taken s u (reads {taken = more} f) o up =
      let idle = take-none t k s o in
      reads-Delivers t k (take_live s) waiting s [] heard more u idle (
        Flows-Delivers [] heard more (take_live s).1 u f
          (subst (λ r. IsOpen t k [] r.1) (sym idle) o)
          (subst (λ r. Rises r.1.after_sequence (of_twin t heard)) (sym idle) up))
  Flows-Delivers (q ∷ qs) heard taken s u (reads {taken = more} f) o up =
      let next = take-next t k q qs s o in
      reads-Delivers t k (take_live s) (got q) _ qs heard more u next (
        Flows-Delivers qs heard more (take_live s).1 u f
          (subst (λ r. IsOpen t k qs r.1) (sym next) (next-IsOpen t k q qs s o))
          (subst (λ r. Rises r.1.after_sequence (qs ++ of_twin t heard)) (sym next) up.1))
