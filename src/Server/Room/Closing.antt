-- ===== src/Server/Room/Closing.antt =====
-- What a closed Room of server/room/room.go answers while other goroutines still run.
use friend_net.Prelude.{
  ◌≡◌, ◌∙◌, true, none, some, [], Bytes, ap, Option-cases, Bool-cases, inl, inr, arith,
}
use friend_net.Prelude.Dict.{put, text_eq}
use friend_net.Server.Room.{
  Client, Room, err_room_closed, handle_connect, check_onboard, kick_client_by_username,
  kick_refused, begin_close, close_clients, end_close, client_count, get_all_clients,
  get_client_by_username,
}
use friend_net.Server.Room.Steps.{
  Thread, Section, refuse, admit, connect, write, write_fails, fail, leave, close_all, end,
}
use friend_net.Server.Room.Onboarding.{handle_disconnect_open}
use friend_net.Server.Room.Presence.{kick_cases}

pub handle_connect_open :
    (c : Client) (r s : Room)
    → handle_connect c r ≡ some s
    → (s.is_closed ≡ r.is_closed) × ((m : _) × (s.clients ≡ some m))
unfolding handle_connect
handle_connect_open c r s e = elim (Option-cases r.clients) [
  | inl n ↦ ground (arith, n)
  | inr (m, o) ↦ (ground (arith, o), (put m c.username c, ground (arith, o)))
]

pub kick_open : (v : Bytes) (r : Room) → (kick_client_by_username v r).0.is_closed ≡ r.is_closed
kick_open v r = elim (kick_cases v r) [
  | inl e ↦ ap (λ s. s.is_closed) e
  | inr (c, g, e) ↦ ap (λ s. s.is_closed) e ∙ handle_disconnect_open c r
]

pub Section-closed :
    (r s : Room) (t x : Thread) → Section r t s x → r.is_closed ≡ true → s.is_closed ≡ true
unfolding close_clients end_close
Section-closed r s t x (refuse c err e f g h) a = ap (λ w. w.is_closed) g ∙ a
Section-closed r s t x (admit c e f g h) a = ap (λ w. w.is_closed) g ∙ a
Section-closed r s t x (connect c e g h) a = (handle_connect_open c r s g).0 ∙ a
Section-closed r s t x (write c e g h) a = ap (λ w. w.is_closed) g ∙ a
Section-closed r s t x (write_fails c e g h) a = ap (λ w. w.is_closed) g ∙ a
Section-closed r s t x (fail c e g h) a = ap (λ w. w.is_closed) g ∙ (handle_disconnect_open c r ∙ a)
Section-closed r s t x (leave c e g h) a =
    ap (λ w. w.is_closed) g ∙ (handle_disconnect_open c r ∙ a)
Section-closed r s t x (close_all cs e g h) a = ap (λ w. w.is_closed) g ∙ a
Section-closed r s t x (end e g h) a = ap (λ w. w.is_closed) g ∙ a

pub begin_close_closed : (r : Room) → (begin_close r).0.is_closed ≡ true
unfolding begin_close
begin_close_closed r = elim (Bool-cases r.is_closed) [
  | inl e ↦ simp (e, begin_close)
  | inr e ↦ simp (e, begin_close)
]

pub reads_nothing :
    (r : Room) (u : Bytes)
    → r.is_closed ≡ true
    → (check_onboard r u ≡ some err_room_closed)
      × (kick_client_by_username u r ≡ (r, kick_refused))
      × (begin_close r ≡ (r, none))
      × (client_count r ≡ 0)
      × (get_all_clients r ≡ [])
      × (get_client_by_username r u ≡ none)
unfolding check_onboard kick_client_by_username begin_close client_count get_all_clients
    get_client_by_username
reads_nothing r u e = (
  simp (e, check_onboard),
  simp (e, kick_client_by_username),
  simp (e, begin_close),
  simp (e, client_count),
  simp (e, get_all_clients),
  simp (e, get_client_by_username),
)
