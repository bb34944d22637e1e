-- ===== src/Protocol/Mappings.antt =====
-- protocol/mappings.go: the structs that messages are decoded into, by the number of their type.
use friend_net.Prelude.{
  ℕ, ◌<◌, ◌≤◌, Option-cases, ◌≡◌, refl, sym, ◌↔◌, Option, none, some, [], ◌∷◌, All, arith,
  Bool-cases, inl, inr, ◌==◌,
}
use friend_net.Prelude.Dict.{Dict, get, nat_eq}

-- The structs pb.MsgPing, pb.MsgPong and so on, in the order of the source.
pub data Struct : Type 0 where
  msg_ping msg_pong msg_acknowledged msg_error : Struct
  msg_version msg_version_accepted msg_version_rejected msg_authenticate : Struct
  msg_auth_accepted msg_auth_rejected msg_open_outbound_proxy msg_inbound_proxy : Struct
  msg_get_dir_files msg_dir_files msg_get_file_meta msg_file_meta : Struct
  msg_get_file msg_get_online_users msg_online_users msg_bye : Struct
  msg_advertise_conn_method msg_advertise_conn_method_result msg_remove_conn_method
        msg_connect_to_me :
      Struct
  msg_direct_conn_result msg_get_public_ip msg_public_ip msg_get_client_conn_methods : Struct
  msg_client_conn_methods msg_get_direct_conn_handshake_token msg_direct_conn_handshake_token
        msg_redeem_conn_handshake_token :
      Struct
  msg_redeem_conn_handshake_token_result msg_direct_conn_handshake msg_direct_conn_handshake_result
        msg_change_account_password :
      Struct
  msg_client_online msg_client_offline msg_search msg_search_result : Struct
  msg_search_room_result : Struct

-- The cases of the switch.
abbrev mappings : Dict ℕ Struct
mappings =
    (1, msg_ping)
    ∷ (2, msg_pong)
    ∷ (3, msg_acknowledged)
    ∷ (4, msg_error)
    ∷ (5, msg_version)
    ∷ (6, msg_version_accepted)
    ∷ (7, msg_version_rejected)
    ∷ (8, msg_authenticate)
    ∷ (9, msg_auth_accepted)
    ∷ (10, msg_auth_rejected)
    ∷ (11, msg_open_outbound_proxy)
    ∷ (12, msg_inbound_proxy)
    ∷ (13, msg_get_dir_files)
    ∷ (14, msg_dir_files)
    ∷ (15, msg_get_file_meta)
    ∷ (16, msg_file_meta)
    ∷ (17, msg_get_file)
    ∷ (18, msg_get_online_users)
    ∷ (19, msg_online_users)
    ∷ (20, msg_bye)
    ∷ (21, msg_advertise_conn_method)
    ∷ (22, msg_advertise_conn_method_result)
    ∷ (23, msg_remove_conn_method)
    ∷ (24, msg_connect_to_me)
    ∷ (25, msg_direct_conn_result)
    ∷ (26, msg_get_public_ip)
    ∷ (27, msg_public_ip)
    ∷ (28, msg_get_client_conn_methods)
    ∷ (29, msg_client_conn_methods)
    ∷ (30, msg_get_direct_conn_handshake_token)
    ∷ (31, msg_direct_conn_handshake_token)
    ∷ (32, msg_redeem_conn_handshake_token)
    ∷ (33, msg_redeem_conn_handshake_token_result)
    ∷ (34, msg_direct_conn_handshake)
    ∷ (35, msg_direct_conn_handshake_result)
    ∷ (36, msg_change_account_password)
    ∷ (37, msg_client_online)
    ∷ (38, msg_client_offline)
    ∷ (39, msg_search)
    ∷ (40, msg_search_result)
    ∷ (41, msg_search_room_result)
    ∷ []

unfoldable pub msg_type_to_empty_msg : ℕ → Option Struct
msg_type_to_empty_msg typ = get mappings typ

-- The number of the type that a struct belongs to.
unfoldable pub type_of : Struct → ℕ
type_of msg_ping = 1
type_of msg_pong = 2
type_of msg_acknowledged = 3
type_of msg_error = 4
type_of msg_version = 5
type_of msg_version_accepted = 6
type_of msg_version_rejected = 7
type_of msg_authenticate = 8
type_of msg_auth_accepted = 9
type_of msg_auth_rejected = 10
type_of msg_open_outbound_proxy = 11
type_of msg_inbound_proxy = 12
type_of msg_get_dir_files = 13
type_of msg_dir_files = 14
type_of msg_get_file_meta = 15
type_of msg_file_meta = 16
type_of msg_get_file = 17
type_of msg_get_online_users = 18
type_of msg_online_users = 19
type_of msg_bye = 20
type_of msg_advertise_conn_method = 21
type_of msg_advertise_conn_method_result = 22
type_of msg_remove_conn_method = 23
type_of msg_connect_to_me = 24
type_of msg_direct_conn_result = 25
type_of msg_get_public_ip = 26
type_of msg_public_ip = 27
type_of msg_get_client_conn_methods = 28
type_of msg_client_conn_methods = 29
type_of msg_get_direct_conn_handshake_token = 30
type_of msg_direct_conn_handshake_token = 31
type_of msg_redeem_conn_handshake_token = 32
type_of msg_redeem_conn_handshake_token_result = 33
type_of msg_direct_conn_handshake = 34
type_of msg_direct_conn_handshake_result = 35
type_of msg_change_account_password = 36
type_of msg_client_online = 37
type_of msg_client_offline = 38
type_of msg_search = 39
type_of msg_search_result = 40
type_of msg_search_room_result = 41

table_type_of :
    (table : Dict ℕ Struct)
    → All (λ row. type_of row.1 ≡ row.0) table
    → (typ : ℕ) (s : Struct) → get table typ ≡ some s
    → type_of s ≡ typ
unfolding get
table_type_of [] right typ s e = cc
table_type_of ((n, t) ∷ table) right typ s e = elim (Bool-cases (n == typ)) [
  | inl here ↦ ground (arith, e, here, right.0)
  | inr there ↦ table_type_of table right.1 typ s (ground (arith, e, there))
]

mapped : (s : Struct) → msg_type_to_empty_msg (type_of s) ≡ some s
unfolding msg_type_to_empty_msg get type_of
mapped msg_ping = refl
mapped msg_pong = refl
mapped msg_acknowledged = refl
mapped msg_error = refl
mapped msg_version = refl
mapped msg_version_accepted = refl
mapped msg_version_rejected = refl
mapped msg_authenticate = refl
mapped msg_auth_accepted = refl
mapped msg_auth_rejected = refl
mapped msg_open_outbound_proxy = refl
mapped msg_inbound_proxy = refl
mapped msg_get_dir_files = refl
mapped msg_dir_files = refl
mapped msg_get_file_meta = refl
mapped msg_file_meta = refl
mapped msg_get_file = refl
mapped msg_get_online_users = refl
mapped msg_online_users = refl
mapped msg_bye = refl
mapped msg_advertise_conn_method = refl
mapped msg_advertise_conn_method_result = refl
mapped msg_remove_conn_method = refl
mapped msg_connect_to_me = refl
mapped msg_direct_conn_result = refl
mapped msg_get_public_ip = refl
mapped msg_public_ip = refl
mapped msg_get_client_conn_methods = refl
mapped msg_client_conn_methods = refl
mapped msg_get_direct_conn_handshake_token = refl
mapped msg_direct_conn_handshake_token = refl
mapped msg_redeem_conn_handshake_token = refl
mapped msg_redeem_conn_handshake_token_result = refl
mapped msg_direct_conn_handshake = refl
mapped msg_direct_conn_handshake_result = refl
mapped msg_change_account_password = refl
mapped msg_client_online = refl
mapped msg_client_offline = refl
mapped msg_search = refl
mapped msg_search_result = refl
mapped msg_search_room_result = refl

mappings_right : All (λ row. type_of row.1 ≡ row.0) mappings
unfolding type_of
mappings_right = omega arith

-- MsgTypeToEmptyMsg gives each message type that it knows a struct of its own: two types never share
-- one.
pub msg_type_to_empty_msg_lem :
    (typ : ℕ) (s : Struct) → (msg_type_to_empty_msg typ ≡ some s) ↔ (typ ≡ type_of s)
unfolding msg_type_to_empty_msg
msg_type_to_empty_msg_lem typ s =
    (λ e. sym (table_type_of mappings mappings_right typ s e), λ e. rw e (mapped s))

pub type_of_bounds : (s : Struct) → type_of s ≤ 41
unfolding type_of
type_of_bounds msg_ping = omega arith
type_of_bounds s = omega arith

pub msg_type_to_empty_msg_above : (typ : ℕ) → 41 < typ → msg_type_to_empty_msg typ ≡ none
msg_type_to_empty_msg_above typ large = elim (Option-cases (msg_type_to_empty_msg typ)) [
  | inl unknown ↦ unknown
  | inr (s, known) ↦
      absurd (omega (arith, type_of_bounds s, (msg_type_to_empty_msg_lem typ s).0 known))
]
