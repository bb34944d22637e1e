-- ===== src/Server/Proxy.antt =====
-- server/room/proxy.go and OnOpenOutboundProxy of logic.go: a client that talks to another through the
-- server. The copying of the streams is io.Copy; how it ends is an argument.
pub mod Once
mod Tests
use friend_net.Prelude.{
  ℕ, ◌≡◌, Bool, true, false, ◌||◌, Option, none, some, List, [], ◌∷◌, Bytes, if◌then◌else◌,
}
use friend_net.Common.Names.{normalize_username}
use friend_net.Server.Room.{Client, Room, get_client_by_username}

pub data Bidi : Type 0 where
  origin_bidi : Bidi
  target_bidi : Bidi

-- `closed` lists the streams that were closed, the latest first.
pub record ClientProxy : Type 0 where
  pub is_closed : Bool
  pub closed : List Bidi

abbrev pub new_proxy : ClientProxy
new_proxy = record { is_closed = false; closed = [] }

-- `NewClientProxy`: `opens` is whether the stream to the target's client can be opened.
pub data Opened : Type 0 where
  opened : ClientProxy → Opened
  err_target_not_online : Opened
  err_open : Opened

unfoldable pub new_client_proxy : (Client → Bool) → Room → Bytes → Opened
new_client_proxy opens room target = elim (get_client_by_username room target) [
  | none ↦ err_target_not_online
  | some client ↦ if opens client then opened new_proxy else err_open
]

-- `Close`, with whether closing each of the streams fails; the result is whether it returns an error.
pub proxy_close : Bool → Bool → ClientProxy → ClientProxy × Bool
proxy_close target_fails origin_fails p = if p.is_closed then (p, false) else (
  record { is_closed = true; closed = origin_bidi ∷ target_bidi ∷ p.closed },
  target_fails || origin_fails,
)

-- How the first of the two copies ends, or that the proxy was closed before.
pub data Ending : Type 0 where
  copied : Ending
  context_canceled : Ending
  copy_closed : Ending
  copy_eof : Ending
  stream_error : Ending
  other_error : Ending
  context_done : Ending

pub data RunErr : Type 0 where
  err_proxy_closed : RunErr
  err_copy : RunErr

-- `Run` up to the start of its goroutines; `none` goes on.
pub begin_run : ClientProxy → Option RunErr
begin_run p = if p.is_closed then some err_proxy_closed else none

-- The select of `Run`.
pub run_result : Ending → Option RunErr
run_result other_error = some err_copy
run_result ending = none

-- The end of `Run`, with its deferred `Close`.
pub end_run : Ending → Bool → Bool → ClientProxy → ClientProxy × Option RunErr
unfolding proxy_close run_result
end_run ending target_fails origin_fails p =
    ((proxy_close target_fails origin_fails p).0, run_result ending)

-- What the goroutines around a proxy do, in the order in which they take its lock.
pub data Call : Type 0 where
  closes : Bool → Bool → Call
  begins : Call
  ends : Ending → Bool → Bool → Call

pub after_calls : List Call → ClientProxy → ClientProxy
unfolding proxy_close end_run
after_calls [] p = p
after_calls (closes a b ∷ calls) p = after_calls calls (proxy_close a b p).0
after_calls (begins ∷ calls) p = after_calls calls p
after_calls (ends ending a b ∷ calls) p = after_calls calls (end_run ending a b p).0

-- What `OnOpenOutboundProxy` does with the stream of the request.
pub data Outcome : Type 0 where
  canceled_read : Outcome
  client_not_online : Bytes → Outcome
  open_failed : Outcome
  runs : ClientProxy → Outcome

module _ (unicode_lower : ℕ → ℕ) where
  unfoldable pub on_open_outbound_proxy : (Client → Bool) → Room → Bytes → Outcome
  unfolding new_client_proxy
  on_open_outbound_proxy opens room asked = elim (normalize_username unicode_lower asked) [
    | none ↦ canceled_read
    | some target ↦ elim (new_client_proxy opens room target) [
      | opened p ↦ runs p
      | err_target_not_online ↦ client_not_online target
      | err_open ↦ open_failed
    ]
  ]
