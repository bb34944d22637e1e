-- ===== src/Server/Room/Tests.antt =====
-- server/room/room.go at work: two clients, a kick, a Close, and the two races of Onboard.
use mathlib.Core.List.{Mem}
use friend_net.Prelude.{
  All, ◌≡◌, refl, true, false, Option, none, some, [], ◌∷◌, Bytes, codes, bytes_eq, if◌then◌else◌,
}
use friend_net.Prelude.Dict.{get, put, text_eq}
use friend_net.Server.Room.{
  Client, Room, new_room, client_online, client_offline, close_with_reason, disconnected, kicked,
  room_closed, bye, auth_accepted, RoomErr, err_room_closed, err_username_already_connected,
  err_write, lookup, handle_connect, onboard, check_onboard, kick_client_by_username, kick_refused,
  begin_close, close, close_clients, end_close, client_count, get_all_clients,
  get_client_by_username,
}
use friend_net.Server.Room.Steps.{
  Thread, checking, connecting, writing, closing, ending, returned, admit, connect, close_all, end,
  World, new_world, arrive, close_now, move, Reaches, here, after,
}
use friend_net.Server.Room.Onboarding.{onboard_lem}
use friend_net.Server.Room.Presence.{announced, Reaches-Present}
use friend_net.Server.Room.Latecomers.{broadcasts, held, Reaches-closed}

abbrev alice : Client
alice = record { address = 1; username = codes "alice" }

abbrev other_alice : Client
other_alice = record { address = 2; username = codes "alice" }

abbrev bob : Client
bob = record { address = 3; username = codes "bob" }

abbrev alice_online : Room
alice_online = record {
  is_closed = false;
  clients = some ((codes "alice", alice) ∷ []);
  log = auth_accepted 1 ∷ client_online (codes "alice") ∷ [];
}

alice_comes : onboard true alice new_room ≡ some (alice_online, none)
unfolding onboard handle_connect check_onboard get put
alice_comes = refl

name_taken :
    onboard true other_alice alice_online ≡ some (alice_online, some err_username_already_connected)
unfolding onboard check_onboard lookup get
name_taken = refl

alice_is_kicked :
    (kick_client_by_username (codes "alice") alice_online).0.log
    ≡ close_with_reason 1 kicked
      ∷ client_offline (codes "alice")
      ∷ close_with_reason 1 disconnected
      ∷ auth_accepted 1
      ∷ client_online (codes "alice")
      ∷ []
unfolding kick_client_by_username get
alice_is_kicked = refl

alice_is_told_of_the_end :
    (close alice_online).log ≡ close_with_reason 1 room_closed ∷ bye 1 ∷ alice_online.log
unfolding close
alice_is_told_of_the_end = refl

onboard_lem_example :
    (s : Room) × (err : Option RoomErr) × (onboard false bob alice_online ≡ some (s, err))
    × (err ≡ some err_write)
    × ((u : Bytes)
        → get_client_by_username s u ≡ (elim err [
          | none ↦
              if bytes_eq bob.username u then some bob else get_client_by_username alice_online u
          | some x ↦ get_client_by_username alice_online u
        ]))
unfolding lookup get
onboard_lem_example = onboard_lem false bob alice_online ((codes "alice", alice) ∷ []) refl refl

-- Two goroutines with one username pass the check before either is in the map.
abbrev world : Room → Thread → Thread → World
world r a b = record { room = r; threads = a ∷ b ∷ [] }

abbrev both : Room
both = record {
  is_closed = false;
  clients = some ((codes "alice", alice) ∷ []);
  log = client_online (codes "alice") ∷ client_online (codes "alice") ∷ [];
}

abbrev first : Room
first = record {
  is_closed = false;
  clients = some ((codes "alice", other_alice) ∷ []);
  log = client_online (codes "alice") ∷ [];
}

race : Reaches new_world (world both (writing other_alice) (writing alice))
unfolding check_onboard handle_connect lookup get put
race =
    let w1 : World = record { room = new_room; threads = checking alice ∷ [] } in
    let w2 = world new_room (checking other_alice) (checking alice) in
    let w3 = world new_room (connecting other_alice) (checking alice) in
    let w4 = world new_room (connecting other_alice) (connecting alice) in
    let w5 = world first (writing other_alice) (connecting alice) in
    let r1 : Reaches new_world w1 = after new_world w1 (here new_world refl) (arrive alice refl) in
    let r2 : Reaches new_world w2 = after w1 w2 r1 (arrive other_alice refl) in
    let r3 : Reaches new_world w3 = after w2 w3 r2 (
      move [] (checking alice ∷ []) (checking other_alice) (connecting other_alice) refl refl
        (admit other_alice refl refl refl refl)) in
    let r4 : Reaches new_world w4 = after w3 w4 r3 (
      move (connecting other_alice ∷ []) [] (checking alice) (connecting alice) refl refl
        (admit alice refl refl refl refl)) in
    let r5 : Reaches new_world w5 = after w4 w5 r4 (
      move [] (connecting alice ∷ []) (connecting other_alice) (writing other_alice) refl refl
        (connect other_alice refl refl refl)) in
    after w5 (world both (writing other_alice) (writing alice)) r5 (
      move (writing other_alice ∷ []) [] (connecting alice) (writing alice) refl refl
        (connect alice refl refl refl))

Reaches-Present_example :
    (announced both.log (codes "alice") ≡ true)
    × ((c : Client)
        → get ((codes "alice", alice) ∷ []) (codes "alice") ≡ some c
        → c.username ≡ codes "alice")
unfolding get
Reaches-Present_example =
    Reaches-Present (world both (writing other_alice) (writing alice)) ((codes "alice", alice) ∷ [])
      (codes "alice") race refl refl

-- `Close` with a goroutine behind the check: its write is the one to a nil map.
abbrev closed_room : Room
closed_room = record { is_closed = true; clients = none; log = [] }

late : Reaches new_world (record { room = closed_room; threads = returned ∷ [] })
unfolding begin_close end_close close_clients
late =
    let w1 : World = record { room = (begin_close new_room).0; threads = closing [] ∷ [] } in
    let w2 : World = record { room = (begin_close new_room).0; threads = ending ∷ [] } in
    let w3 : World = record { room = closed_room; threads = returned ∷ [] } in
    let r1 : Reaches new_world w1 =
      after new_world w1 (here new_world refl) (close_now [] refl refl) in
    let r2 : Reaches new_world w2 =
      after w1 w2 r1 (move [] [] (closing []) ending refl refl (close_all [] refl refl refl)) in
    after w2 w3 r2 (move [] [] ending returned refl refl (end refl refl refl))

-- A client that was let in before Close comes into the map of the closed room, and nobody is told.
abbrev shut_world : World
shut_world = record {
  room = record { is_closed = true; clients = some []; log = [] };
  threads = connecting alice ∷ closing [] ∷ [];
}

abbrev late_world : World
late_world = record {
  room = record { is_closed = true; clients = some ((codes "alice", alice) ∷ []); log = [] };
  threads = writing alice ∷ closing [] ∷ [];
}

late_joins : Reaches shut_world late_world
unfolding handle_connect put
late_joins = after shut_world late_world (here shut_world refl) (
    move [] (closing [] ∷ []) (connecting alice) (writing alice) refl refl
      (connect alice refl refl refl))

Reaches-closed_example :
    (broadcasts [] ≡ broadcasts [])
    × All (λ c. Mem c (held shut_world)) (held late_world)
    × (check_onboard late_world.room (codes "bob") ≡ some err_room_closed)
    × (kick_client_by_username (codes "bob") late_world.room ≡ (late_world.room, kick_refused))
    × (begin_close late_world.room ≡ (late_world.room, none))
    × (client_count late_world.room ≡ 0)
    × (get_all_clients late_world.room ≡ [])
    × (get_client_by_username late_world.room (codes "bob") ≡ none)
Reaches-closed_example = Reaches-closed shut_world late_world (codes "bob") late_joins refl
