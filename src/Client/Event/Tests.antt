-- ===== src/Client/Event/Tests.antt =====
-- client/event/bus.go with two subscribers, of which the first wants to leave.
use friend_net.Prelude.{◌≡◌, refl, [], ◌∷◌, codes}
use friend_net.Client.Event.{Bus, new_bus, subscribe}

abbrev two : Bus
two = record {
  subscriptions = record { id = codes "a"; fn = 1 } ∷ record { id = codes "b"; fn = 2 } ∷ [];
}

two_subscribers : subscribe (codes "b") 2 (subscribe (codes "a") 1 new_bus) ≡ two
unfolding subscribe
two_subscribers = refl
