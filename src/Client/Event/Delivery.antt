-- ===== src/Client/Event/Delivery.antt =====
-- Who hears of an event on the Bus of client/event/bus.go.
use friend_net.Prelude.{
  ℕ, ◌≡◌, refl, ap, not, List, [], ◌∷◌, ◌++◌, map, Bytes, bytes_eq, Bool-cases, inl, inr,
  if◌then◌else◌,
}
use friend_net.Client.Event.{call, Subscription, Bus, subscribe, delete_func, unsubscribe, publish}

-- The functions of the subscriptions with an id.
abbrev pub subscribed_as : Bytes → List Subscription → List ℕ
subscribed_as id [] = []
subscribed_as id (sub ∷ subs) =
    let rest = subscribed_as id subs in if bytes_eq sub.id id then sub.fn ∷ rest else rest

abbrev pub hears : ℕ → ℕ → ℕ × ℕ
hears event fn = (fn, event)

kept :
    (id : Bytes) (event : ℕ) (subs : List Subscription)
    → map (call event) (delete_func (λ sub. not (bytes_eq sub.id id)) subs)
      ≡ map (hears event) (subscribed_as id subs)
unfolding delete_func
kept id event [] = refl
kept id event (sub ∷ subs) = elim (Bool-cases (bytes_eq sub.id id)) [
  | inl e ↦ rw (e, delete_func) (ap (λ calls. call event sub ∷ calls) (kept id event subs))
  | inr e ↦ rw (e, delete_func) (kept id event subs)
]

-- After Unsubscribe of an id, an event reaches exactly the subscriptions of that id, and no other.
pub publish-unsubscribe :
    (id : Bytes) (event : ℕ) (b : Bus)
    → publish event (unsubscribe id b) ≡ map (hears event) (subscribed_as id b.subscriptions)
unfolding publish unsubscribe
publish-unsubscribe id event b = kept id event b.subscriptions

map-append :
    (event : ℕ) (subs more : List Subscription)
    → map (call event) (subs ++ more) ≡ map (call event) subs ++ map (call event) more
map-append event [] more = refl
map-append event (sub ∷ subs) more =
    ap (λ calls. call event sub ∷ calls) (map-append event subs more)

-- After Subscribe, an event reaches whom it reached before, and then the new function.
pub publish-subscribe :
    (id : Bytes) (fn event : ℕ) (b : Bus)
    → publish event (subscribe id fn b) ≡ publish event b ++ ((fn, event) ∷ [])
unfolding publish subscribe
publish-subscribe id fn event b =
    map-append event b.subscriptions (record { id = id; fn = fn } ∷ [])
