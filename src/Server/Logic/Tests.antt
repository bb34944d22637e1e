-- ===== src/Server/Logic/Tests.antt =====
-- Messages of server/room/logic.go and client.go: methods, pages, a handshake and a new password.
use friend_net.Prelude.{
  ℕ, ◌*◌, ◌≡◌, refl, Bool, true, false, Option, some, [], ◌∷◌, Bytes, codes, bytes_eq, bytes_eq_iff,
  All, index_byte, arith,
}
use friend_net.Prelude.Dict.{get, put, delete, text_eq, pair_eq, nat_eq}
use friend_net.Common.Names.{normalize_username}
use friend_net.Server.Storage.{Storage}
use friend_net.Server.Accounts.{Hashing, AccountsOf}
use friend_net.Server.Token.{Sealing, TokenManager, Clock, second, is_after, expiry}
use friend_net.Server.Logic.{
  ConnMethod, ip, timed_out, public_ip, handshake_token, redeem_result, Advertised, Probe,
  type_remove_conn_method, answers_unimplemented, msg_handler, on_advertise_conn_method,
  on_remove_conn_method, is_valid_address, on_get_public_ip, send_online_users,
  on_get_direct_conn_handshake_token, on_redeem_conn_handshake_token,
}
use friend_net.Server.Logic.Methods.{advertises, removes, handle_all, IsRight, handle_all-IsRight}
use friend_net.Server.Logic.Pages.{concat, FitsPage, send_online_users_lem}
use friend_net.Server.Logic.Handshake.{redeem_after_request}

-- The handler of the message exists, and nothing calls it.
no_removal : msg_handler type_remove_conn_method ≡ answers_unimplemented
unfolding msg_handler
no_removal = refl

-- An IPv6 address is cut at its first colon, bracket and all.
cut_ip : on_get_public_ip (codes "[fe80::1]:20038") ≡ public_ip (codes "[fe80")
unfolding on_get_public_ip index_byte
cut_ip = refl

abbrev parse : Bytes → Option Bool
parse address = some false

abbrev probe : Probe
probe = record { is_supported = λ type. true; create_direct_connection = λ type address. timed_out }

abbrev ad : Advertised
ad = record { id = codes "m"; type = ip; address = codes "1.2.3.4:5"; priority = 1 }

abbrev method : ConnMethod
method = record {
  id = codes "m";
  type = ip;
  address = codes "1.2.3.4:5";
  priority = 1;
  is_server_verified = false;
}

handle_all-IsRight_example : IsRight parse probe (codes "m") method
unfolding handle_all on_advertise_conn_method on_remove_conn_method is_valid_address get put delete
handle_all-IsRight_example =
    handle_all-IsRight parse probe
      (advertises ad ∷ removes (codes "m") ∷ advertises ad ∷ advertises ad ∷ []) (codes "m") method
      refl

send_online_users_lem_example :
    (concat (send_online_users (λ page. true) (codes "alice" ∷ codes "bob" ∷ [])).0
      ≡ codes "alice" ∷ codes "bob" ∷ [])
    × All FitsPage (send_online_users (λ page. true) (codes "alice" ∷ codes "bob" ∷ [])).0
    × ((send_online_users (λ page. true) (codes "alice" ∷ codes "bob" ∷ [])).1 ≡ true)
send_online_users_lem_example = send_online_users_lem (codes "alice" ∷ codes "bob" ∷ [])

abbrev sealing : Sealing
sealing = record {
  nonce_size = 1;
  seal = λ nonce buf. buf;
  open_sealed = λ nonce bytes. some bytes;
  encode = λ bytes. bytes;
  decode = λ bytes. some bytes;
  open_of_seal = λ nonce buf. refl;
  decode_of_encode = λ bytes. refl;
}

abbrev manager : TokenManager
manager = record { valid_duration = 60 * second; expired_tokens = [] }

abbrev clock : Clock
clock = record { checked = 10 * second; marked = 10 * second; marked_again = 10 * second }

abbrev ascii : ℕ → ℕ
ascii c = c

abbrev id : Bytes
id = 1 ∷ 2 ∷ 3 ∷ 4 ∷ 5 ∷ 6 ∷ 7 ∷ 8 ∷ []

redeem_after_request_example :
    (token : Bytes) × (on_get_direct_conn_handshake_token ascii sealing manager
        (9 * second)
        id
        (0 ∷ [])
        (codes "lounge")
        (codes "alice")
        (codes "BOB")
      ≡ handshake_token token)
    × ((on_redeem_conn_handshake_token sealing manager clock (codes "bob") token).1
        ≡ redeem_result (
            some (record {
              is_valid = true;
              is_server = false;
              username = codes "alice";
              room = codes "lounge";
            })))
unfolding normalize_username get is_after expiry
redeem_after_request_example =
    redeem_after_request ascii sealing manager manager (9 * second) clock id (0 ∷ [])
      (codes "lounge") (codes "alice") (codes "BOB") (codes "bob") refl refl
      (record { runes = refl; at_least = omega arith; at_most = omega arith })
      (record { runes = refl; at_least = omega arith; at_most = omega arith }) refl refl refl

abbrev plain_verify : Bytes → Bytes → Option (Bool × Bool)
plain_verify password hash = some (bytes_eq password hash, false)

plain_verify_of_hash :
    (password hash : Bytes)
    → some password ≡ some hash
    → plain_verify password hash ≡ some (true, false)
plain_verify_of_hash password hash e = ground (arith, bytes_eq_iff password hash)

abbrev plain : Hashing
plain = record {
  hash_password = λ password. some password;
  verify_password = plain_verify;
  verify_of_hash = plain_verify_of_hash;
}

abbrev lounge : AccountsOf
lounge = record { is_closed = false; name = codes "lounge"; pass_reqs = [] }

abbrev alice_with : Bytes → Storage
alice_with hash = record {
  rooms = codes "lounge" ∷ [];
  accounts = ((codes "lounge", codes "alice"), hash) ∷ [];
}
