-- ===== src/Server/Room/Steps.antt =====
-- server/room/room.go: how the sections of Onboard, the loops of its clients, KickClientByUsername
-- and Close run into each other. Each goroutine holds the lock for one section, and any of them may
-- have the next one.
use friend_net.Prelude.{◌≡◌, none, some, List, [], ◌∷◌, ◌++◌, Bytes}
use friend_net.Server.Room.{
  Client, RoomErr, err_write, Room, new_room, send, auth_accepted, handle_connect,
  handle_disconnect, check_onboard, kick_client_by_username, begin_close, close_clients, end_close,
}

-- Where a goroutine is: before the check of `Onboard`, before `handleConnect`, before the message
-- to the client, before the `handleDisconnect` of a failed message; in the loops of a client, which
-- may end, or answer a BYE, at any time; or in `Close` with its clients.
pub data Thread : Type 0 where
  checking : Client → Thread
  connecting : Client → Thread
  writing : Client → Thread
  failing : Client → Thread
  serving : Client → Thread
  closing : List Client → Thread
  ending : Thread
  returned : Thread
  failed : RoomErr → Thread

-- A section of one goroutine, from the room `r` to the room `s`.
pub data Section (r : Room) (t : Thread) (s : Room) (u : Thread) : Type 0 where
  refuse :
      (c : Client) (err : RoomErr)
      → t ≡ checking c
      → check_onboard r c.username ≡ some err
      → s ≡ r
      → u ≡ failed err
      → Section r t s u
  admit :
      (c : Client)
      → t ≡ checking c
      → check_onboard r c.username ≡ none
      → s ≡ r
      → u ≡ connecting c
      → Section r t s u
  connect :
      (c : Client)
      → t ≡ connecting c
      → handle_connect c r ≡ some s
      → u ≡ writing c
      → Section r t s u
  write :
      (c : Client)
      → t ≡ writing c
      → s ≡ send (auth_accepted c.address) r
      → u ≡ serving c
      → Section r t s u
  write_fails : (c : Client) → t ≡ writing c → s ≡ r → u ≡ failing c → Section r t s u
  fail :
      (c : Client)
      → t ≡ failing c
      → s ≡ handle_disconnect c r
      → u ≡ failed err_write
      → Section r t s u
  leave : (c : Client) → t ≡ serving c → s ≡ handle_disconnect c r → u ≡ serving c → Section r t s u
  close_all :
      (cs : List Client) → t ≡ closing cs → s ≡ close_clients cs r → u ≡ ending → Section r t s u
  end : t ≡ ending → s ≡ end_close r → u ≡ returned → Section r t s u

pub record World : Type 0 where
  pub room : Room
  pub threads : List Thread

abbrev pub new_world : World
new_world = record { room = new_room; threads = [] }

-- One step of the server: a new goroutine, or a section of one that runs.
pub data Step (w v : World) : Type 0 where
  arrive : (c : Client) → v ≡ record w { threads = checking c ∷ w.threads } → Step w v
  kick :
      (username : Bytes)
      → v ≡ record w { room = (kick_client_by_username username w.room).0 }
      → Step w v
  close_now :
      (cs : List Client)
      → (begin_close w.room).1 ≡ some cs
      → v ≡ record { room = (begin_close w.room).0; threads = closing cs ∷ w.threads }
      → Step w v
  move :
      (before after : List Thread) (t u : Thread)
      → w.threads ≡ before ++ (t ∷ after)
      → v.threads ≡ before ++ (u ∷ after)
      → Section w.room t v.room u
      → Step w v

-- The worlds that `w` can become.
pub data Reaches (w : World) : World → Type 0 where
  here : (v : World) → v ≡ w → Reaches w v
  after : (u v : World) → Reaches w u → Step u v → Reaches w v

-- A predicate on rooms that every section keeps holds in every later world.
pub Reaches-keeps :
    (P : Room → Type 0)
    → ((r s : Room) (t u : Thread) → Section r t s u → P r → P s)
    → ((r : Room) (username : Bytes) → P r → P (kick_client_by_username username r).0)
    → ((r : Room) → P r → P (begin_close r).0)
    → (w v : World) → Reaches w v
    → P w.room
    → P v.room
Reaches-keeps P section kicks closes w v (here _ e) p = rw e p
Reaches-keeps P section kicks closes w v (after u _ reaches (arrive c e)) p =
    rw e (Reaches-keeps P section kicks closes w u reaches p)
Reaches-keeps P section kicks closes w v (after u _ reaches (kick username e)) p =
    rw e (kicks u.room username (Reaches-keeps P section kicks closes w u reaches p))
Reaches-keeps P section kicks closes w v (after u _ reaches (close_now cs b e)) p =
    rw e (closes u.room (Reaches-keeps P section kicks closes w u reaches p))
Reaches-keeps P section kicks closes w v (after u _ reaches (move before behind t x a b s)) p =
    section u.room v.room t x s (Reaches-keeps P section kicks closes w u reaches p)
