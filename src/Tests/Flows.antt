-- ===== src/Tests/Flows.antt =====
-- A reader that is too slow for a queue of one.
use k2s.Prelude.{ℕ, String, ◌≡◌, refl, Option, none, some, true, false, List, [], ◌∷◌, ◌++◌, arith}
use k2s.Types.{EventEnvelope}
use k2s.Sync.Broker.{Subscription, new_subscription, take_live, offer, close, concerns, slow_reason}
use k2s.Sync.Broker.Flow.{Flows, rests, hears, reads, IsOpen, Rises, of_twin}
use k2s.Sync.Broker.Fate.{Delivers}
use k2s.Sync.Broker.Delivery.{Flows-Delivers}
use k2s.Tests.Data.{evidence_event}

abbrev numbered : ℕ → EventEnvelope
numbered n = record evidence_event { sequence = n }

abbrev fresh : Subscription
fresh = new_subscription "t1" 0 1

abbrev dropped : Subscription
dropped = offer (numbered 3) (offer (numbered 2) (take_live (offer (numbered 1) fresh)).1)

dropped-slow : dropped.close_reason ≡ some slow_reason
unfolding offer concerns take_live new_subscription k2s.Sync.Broker.take_item close
dropped-slow = refl

slow_reader : Flows fresh (numbered 1 ∷ numbered 2 ∷ numbered 3 ∷ []) (numbered 1 ∷ []) dropped
unfolding offer take_live concerns new_subscription k2s.Sync.Broker.take_item
slow_reader = hears (numbered 1) (reads (hears (numbered 2) (hears (numbered 3) rests)))

fresh-IsOpen : IsOpen "t1" 1 [] fresh
unfolding new_subscription
fresh-IsOpen = record {
  limit = refl;
  fits = omega arith;
  twin = refl;
  queue = refl;
  opened = refl;
  belongs = refl;
}

heard-Rises : Rises fresh.after_sequence (of_twin "t1" (numbered 1 ∷ numbered 2 ∷ numbered 3 ∷ []))
unfolding new_subscription k2s.Prelude.keep
heard-Rises = (omega arith, (omega arith, (omega arith, tt)))

Flows-Delivers_example :
    Delivers "t1" 1 [] (numbered 1 ∷ numbered 2 ∷ numbered 3 ∷ []) (numbered 1 ∷ []) dropped
Flows-Delivers_example =
    Flows-Delivers "t1" 1 [] (numbered 1 ∷ numbered 2 ∷ numbered 3 ∷ []) (numbered 1 ∷ []) fresh
      dropped slow_reader fresh-IsOpen heard-Rises
