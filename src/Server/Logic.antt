-- ===== src/Server/Logic.antt =====
-- server/room/client.go and server/room/logic.go: the messages of a client. What a handler writes to
-- its stream is its result; protocol.IsErrorConnCloseOrCancel and the errors of writing are left out.
pub mod Methods
pub mod Pages
pub mod Handshake
mod Tests
use friend_net.Prelude.{
  ℕ, zero, suc, ◌≡◌, Bool, true, false, Option, none, some, List, [], ◌∷◌, map, Bytes, index_byte,
  length, take, drop, ltb, ◌==◌, bytes_eq, if◌then◌else◌,
}
use friend_net.Prelude.Dict.{Dict, get, put, delete, text_eq}
use friend_net.Common.Names.{normalize_username}
use friend_net.Server.Room.{Room, get_client_by_username}
use friend_net.Server.Storage.{Storage}
use friend_net.Server.Accounts.{
  Hashing, Faults, AccountErr, err_hash, AccountsOf, Verified, verified, not_verified,
  room_verify_account_password, room_update_account_password,
}
use friend_net.Common.Password.{HashErr, err_requirements, err_hashing}
use friend_net.Server.Token.{Sealing, TokenManager, Clock, Redeemed, new_client_token, redeem}

-- pb.ConnMethodType: the two known types, and any other.
pub data ConnMethodType : Type 0 where
  ip : ConnMethodType
  yggdrasil : ConnMethodType
  other_type : ℕ → ConnMethodType

pub data ConnResult : Type 0 where
  result_ok : ConnResult
  method_not_supported : ConnResult
  timed_out : ConnResult
  handshake_failed : ConnResult
  conn_refused : ConnResult
  result_internal_error : ConnResult

pub record ConnMethod : Type 0 where
  pub id : Bytes
  pub type : ConnMethodType
  pub address : Bytes
  pub priority : ℕ
  pub is_server_verified : Bool

-- What a handler writes, or the error that it returns.
pub data Reply : Type 0 where
  ack : Reply
  invalid_fields : Reply
  permission_denied : Reply
  client_not_online : Bytes → Reply
  unimplemented : Reply
  internal_error : Reply
  advertise_result : Bool → Option ConnResult → Reply
  public_ip : Bytes → Reply
  handshake_token : Bytes → Reply
  redeem_result : Option Redeemed → Reply
  client_conn_methods : List ConnMethod → Reply
  pong : ℕ → Reply

-- pb.MsgType, of the messages that a client may send first on a stream.
pub data MsgType : Type 0 where
  type_bye : MsgType
  type_ping : MsgType
  type_open_outbound_proxy : MsgType
  type_get_online_users : MsgType
  type_advertise_conn_method : MsgType
  type_remove_conn_method : MsgType
  type_get_public_ip : MsgType
  type_get_client_conn_methods : MsgType
  type_get_direct_conn_handshake_token : MsgType
  type_redeem_conn_handshake_token : MsgType
  type_change_account_password : MsgType
  type_search : MsgType
  type_other : ℕ → MsgType

-- The methods of Logic, and what `msgHandler` does itself.
pub data Handler : Type 0 where
  disconnects : Handler
  on_ping : Handler
  on_open_outbound_proxy : Handler
  on_get_online_users : Handler
  on_advertise : Handler
  on_public_ip : Handler
  on_client_conn_methods : Handler
  on_handshake_token : Handler
  on_redeem : Handler
  on_change_password : Handler
  on_search : Handler
  answers_unimplemented : Handler

-- The switch of `msgHandler`, which has no case for the removal of a method.
pub msg_handler : MsgType → Handler
msg_handler type_bye = disconnects
msg_handler type_ping = on_ping
msg_handler type_open_outbound_proxy = on_open_outbound_proxy
msg_handler type_get_online_users = on_get_online_users
msg_handler type_advertise_conn_method = on_advertise
msg_handler type_remove_conn_method = answers_unimplemented
msg_handler type_get_public_ip = on_public_ip
msg_handler type_get_client_conn_methods = on_client_conn_methods
msg_handler type_get_direct_conn_handshake_token = on_handshake_token
msg_handler type_redeem_conn_handshake_token = on_redeem
msg_handler type_change_account_password = on_change_password
msg_handler type_search = on_search
msg_handler (type_other n) = answers_unimplemented

-- pb.MsgAdvertiseConnMethod
pub record Advertised : Type 0 where
  pub id : Bytes
  pub type : ConnMethodType
  pub address : Bytes
  pub priority : ℕ

-- protocol.ValidateMethodAddress: `parse` is netip.ParseAddrPort, with whether the address is IPv6.
pub is_valid_address : (Bytes → Option Bool) → ConnMethodType → Bytes → Bool
is_valid_address parse ip address = elim (parse address) [ none ↦ false | some is6 ↦ true ]
is_valid_address parse yggdrasil address = elim (parse address) [ none ↦ false | some is6 ↦ is6 ]
is_valid_address parse (other_type n) address = true

-- connMethodSupport.IsSupported, and the result of protocol.CreateDirectConnection.
pub record Probe : Type 0 where
  pub is_supported : ConnMethodType → Bool
  pub create_direct_connection : ConnMethodType → Bytes → ConnResult

abbrev pub is_ok : ConnResult → Bool
is_ok result_ok = true
is_ok r = false

abbrev pub conn_res : Probe → Advertised → ConnResult
conn_res probe ad =
    if probe.is_supported ad.type
    then probe.create_direct_connection ad.type ad.address
    else method_not_supported

-- `OnAdvertiseConnMethod` over the methods of the client.
pub on_advertise_conn_method :
    (Bytes → Option Bool)
    → Probe
    → Advertised
    → Dict Bytes ConnMethod
    → Dict Bytes ConnMethod × Reply
unfolding is_valid_address
on_advertise_conn_method parse probe ad methods =
    if is_valid_address parse ad.type ad.address
    then (elim (get methods ad.id) [
      | some _ ↦ (methods, advertise_result true none)
      | none ↦ (
        put methods ad.id (record {
          id = ad.id;
          type = ad.type;
          address = ad.address;
          priority = ad.priority;
          is_server_verified = is_ok (conn_res probe ad);
        }),
        advertise_result false (some (conn_res probe ad)),
      )
    ])
    else (methods, invalid_fields)

-- `OnRemoveConnMethod`
pub on_remove_conn_method : Bytes → Dict Bytes ConnMethod → Dict Bytes ConnMethod × Reply
on_remove_conn_method id methods = elim (get methods id) [
  | none ↦ (methods, invalid_fields)
  | some _ ↦ (delete methods id, ack)
]

-- `GetConnMethods`, in any order.
pub get_conn_methods : Dict Bytes ConnMethod → List ConnMethod
get_conn_methods = map (λ entry. entry.1)

-- `OnPing`, with time.Now().Unix().
pub on_ping_reply : ℕ → Reply
on_ping_reply now = pong now

-- `OnGetPublicIp`: remote[:strings.IndexRune(remote, ':')], or all of it.
pub on_get_public_ip : Bytes → Reply
on_get_public_ip remote = elim (index_byte remote b':') [
  | none ↦ public_ip remote
  | some colon_idx ↦ public_ip (take colon_idx remote)
]

abbrev pub page_size : ℕ
page_size = 50

-- The loop of `OnGetOnlineUsers` over the statuses from `sent` on: the pages, which come to an end
-- with the first that cannot be written. Each page takes one status at least, so fuel above the
-- number of statuses is never used up.
pub send_pages {ℓ} : {A : Type ℓ} → (List A → Bool) → ℕ → List A → List (List A) × Bool
send_pages write zero statuses = ([], true)
send_pages write (suc fuel) [] = ([], true)
send_pages write (suc fuel) (s ∷ statuses) =
    let page = take page_size (s ∷ statuses) in
    let (pages, sent) = send_pages write fuel (drop page_size (s ∷ statuses)) in
    if write page then (page ∷ pages, sent) else ([], false)

pub send_online_users : (List Bytes → Bool) → List Bytes → List (List Bytes) × Bool
unfolding send_pages
send_online_users write statuses = send_pages write (suc (length statuses)) statuses

abbrev pub change_error : AccountErr → Reply
change_error (err_hash (err_requirements errs)) = invalid_fields
change_error err = internal_error

abbrev pub change_result : Storage × Option AccountErr → Storage × Reply
change_result (s, none) = (s, ack)
change_result (s, some err) = (s, change_error err)

-- `OnChangeAccountPassword`, with the faults of its two calls.
pub on_change_account_password :
    Hashing → Faults → Faults → AccountsOf → Bytes → Bytes → Bytes → Storage → Storage × Reply
unfolding room_verify_account_password room_update_account_password
on_change_account_password hashing first second room username current new s =
    let (t, matches) = room_verify_account_password hashing first room username current s in
    elim matches [
      | not_verified err ↦ (t, internal_error)
      | verified true ↦
          change_result (room_update_account_password hashing second room username new t)
      | verified false ↦ (t, permission_denied)
    ]

module _ (unicode_lower : ℕ → ℕ) where
  -- `OnGetDirectConnHandshakeToken`: the clock, the random id and the nonce are arguments.
  pub on_get_direct_conn_handshake_token :
      Sealing → TokenManager → ℕ → Bytes → Bytes → Bytes → Bytes → Bytes → Reply
  unfolding new_client_token
  on_get_direct_conn_handshake_token c m now id nonce room username target =
      elim (normalize_username unicode_lower target) [
        | none ↦ invalid_fields
        | some name ↦ handshake_token (new_client_token c m now id nonce room username name)
      ]

  -- `OnGetClientConnMethods`: the methods of a client are those at its address.
  pub on_get_client_conn_methods : (ℕ → Dict Bytes ConnMethod) → Room → Bytes → Reply
  unfolding get_conn_methods
  on_get_client_conn_methods methods_at room asked = elim (normalize_username unicode_lower asked) [
    | none ↦ invalid_fields
    | some username ↦ elim (get_client_by_username room username) [
      | none ↦ client_not_online username
      | some client ↦ client_conn_methods (get_conn_methods (methods_at client.address))
    ]
  ]

-- `OnRedeemConnHandshakeToken`
pub on_redeem_conn_handshake_token :
    Sealing → TokenManager → Clock → Bytes → Bytes → TokenManager × Reply
unfolding redeem
on_redeem_conn_handshake_token c m t username token =
    let (after, result) = redeem c m t username token in (after, redeem_result result)
