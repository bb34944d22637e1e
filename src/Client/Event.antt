-- ===== src/Client/Event.antt =====
-- client/event/bus.go: the subscriptions of an event bus. A subscriber is the number of its
-- function, an event is its number, and the id of a subscription is what common.RandomB64UrlStr gave.
pub mod Delivery
mod Tests
use friend_net.Prelude.{ℕ, ◌≡◌, Bool, not, List, [], ◌∷◌, ◌++◌, map, Bytes, bytes_eq, if◌then◌else◌}

pub record Subscription : Type 0 where
  pub id : Bytes
  pub fn : ℕ

pub record Bus : Type 0 where
  pub subscriptions : List Subscription

abbrev pub new_bus : Bus
new_bus = record { subscriptions = [] }

-- `Subscribe`, with the id that it returns.
pub subscribe : Bytes → ℕ → Bus → Bus
subscribe id fn b = record { subscriptions = b.subscriptions ++ (record { id = id; fn = fn } ∷ []) }

-- slices.DeleteFunc
pub delete_func : (Subscription → Bool) → List Subscription → List Subscription
delete_func del [] = []
delete_func del (sub ∷ subs) =
    let rest = delete_func del subs in if del sub then rest else sub ∷ rest

pub unsubscribe : Bytes → Bus → Bus
unfolding delete_func
unsubscribe id b = record {
  subscriptions = delete_func (λ sub. not (bytes_eq sub.id id)) b.subscriptions;
}

-- `go sub.fn(event, p.eventCtx)`
abbrev pub call : ℕ → Subscription → ℕ × ℕ
call event sub = (sub.fn, event)

-- `Publish`: the calls that it starts, each in a goroutine of its own.
pub publish : ℕ → Bus → List (ℕ × ℕ)
publish event b = map (call event) b.subscriptions
