-- ===== src/Server/Logic/Handshake.antt =====
-- Handlers of server/room/logic.go put together: handshakes from the request of a token to its
-- redemption, and the change of a password.
use friend_net.Prelude.{
  ℕ, ◌≡◌, ◌≢◌, ◌⊎◌, refl, ap, sym, ◌∙◌, Bool, true, false, Option, none, some, ◌∷◌, Bytes, length,
  arith, if◌then◌else◌, inl, inr,
}
use friend_net.Prelude.Dict.{get, beq_refl, text_eq, nat_eq}
use friend_net.Common.Names.{normalize_username, IsName, normalize_username-IsName}
use friend_net.Common.Password.{err_requirements, err_hashing}
use friend_net.Server.Storage.{Storage}
use friend_net.Server.Accounts.{
  Hashing, Faults, AccountErr, err_room_closed, err_account_exists, err_no_such_account, err_hash,
  err_verify, err_read, err_storage, AccountsOf, Verified, verified, not_verified,
  room_verify_account_password, room_update_account_password,
}
use friend_net.Server.Accounts.Passwords.{
  no_faults, room_update_account_password_lem, verify_mismatch,
}
use friend_net.Server.Token.{
  Sealing, TokenManager, Clock, read_le, is_after, expiry, new_client_token,
}
use friend_net.Server.Token.Redeem.{redeem-new_client_token}
use friend_net.Server.Logic.{
  internal_error, change_error, change_result, ack, permission_denied, handshake_token,
  redeem_result, on_get_direct_conn_handshake_token, on_redeem_conn_handshake_token,
  on_change_account_password,
}

Verified-cases :
    (x : Storage × Verified)
    → ((t : Storage) × (b : Bool) × (x ≡ (t, verified b)))
      ⊎ ((t : Storage) × (err : AccountErr) × (x ≡ (t, not_verified err)))
Verified-cases (t, verified b) = inl (t, b, refl)
Verified-cases (t, not_verified err) = inr (t, err, refl)

Update-cases :
    (x : Storage × Option AccountErr)
    → ((t : Storage) × (x ≡ (t, none))) ⊎ ((t : Storage) × (err : AccountErr) × (x ≡ (t, some err)))
Update-cases (t, none) = inl (t, refl)
Update-cases (t, some err) = inr (t, err, refl)

module _ (unicode_lower : ℕ → ℕ) where
  -- A client of a room asks for a token for another user, and that user redeems it before it expires and
  -- for the first time: the room tells the user the name of the client and of the room.
  pub redeem_after_request :
      (c : Sealing) (m n : TokenManager) (now : ℕ) (t : Clock)
      (id nonce room origin asked target : Bytes)
      → length nonce ≡ c.nonce_size
      → length id ≡ 8
      → IsName room
      → IsName origin
      → normalize_username unicode_lower asked ≡ some target
      → is_after t.checked (expiry m now) ≡ false
      → get n.expired_tokens (read_le id) ≡ none
      → (token : Bytes) × (on_get_direct_conn_handshake_token unicode_lower c m now id nonce room
            origin asked
          ≡ handshake_token token)
        × ((on_redeem_conn_handshake_token c n t target token).1
            ≡ redeem_result (
                some
                  (record { is_valid = true; is_server = false; username = origin; room = room })))
  unfolding on_get_direct_conn_handshake_token on_redeem_conn_handshake_token
  redeem_after_request c m n now t id nonce room origin asked target e hid hr ho ht fresh unused =
      let token = new_client_token c m now id nonce room origin target in
      let named : IsName target = (normalize_username-IsName unicode_lower asked target).0 ht in
      let spec =
        redeem-new_client_token c m n now t id nonce room origin target target e hid
          (omega (arith, hr.at_most)) (omega (arith, ho.at_most)) (omega (arith, named.at_most)) in
      (
        token,
        rw (ht, on_get_direct_conn_handshake_token) refl,
        rw (spec, fresh, unused, beq_refl target) refl,
      )

change_error_lem :
    (err : AccountErr) → (change_error err ≢ ack) × (change_error err ≢ permission_denied)
change_error_lem err_room_closed = (λ e. cc, λ e. cc)
change_error_lem err_account_exists = (λ e. cc, λ e. cc)
change_error_lem err_no_such_account = (λ e. cc, λ e. cc)
change_error_lem (err_hash (err_requirements errs)) = (λ e. cc, λ e. cc)
change_error_lem (err_hash err_hashing) = (λ e. cc, λ e. cc)
change_error_lem err_verify = (λ e. cc, λ e. cc)
change_error_lem err_read = (λ e. cc, λ e. cc)
change_error_lem (err_storage err) = (λ e. cc, λ e. cc)

-- What the handler does after the check of the current password.
change_verified :
    (hashing : Hashing) (first second : Faults) (room : AccountsOf) (username current new : Bytes)
    (s u : Storage) (b : Bool)
    → room_verify_account_password hashing first room username current s ≡ (u, verified b)
    → on_change_account_password hashing first second room username current new s ≡ (
        if b
        then change_result (room_update_account_password hashing second room username new u)
        else (u, permission_denied))
unfolding on_change_account_password
change_verified hashing first second room username current new s u true v = ground (arith, v)
change_verified hashing first second room username current new s u false v = ground (arith, v)

change_unverified :
    (hashing : Hashing) (first second : Faults) (room : AccountsOf) (username current new : Bytes)
    (s u : Storage) (err : AccountErr)
    → room_verify_account_password hashing first room username current s ≡ (u, not_verified err)
    → on_change_account_password hashing first second room username current new s
      ≡ (u, internal_error)
unfolding on_change_account_password
change_unverified hashing first second room username current new s u err v = ground (arith, v)

-- The change of a password that is acknowledged has verified the current password, and the new one
-- verifies afterwards.
pub change_acknowledged :
    (hashing : Hashing) (first second : Faults) (room : AccountsOf) (username current new : Bytes)
    (s t : Storage)
    → on_change_account_password hashing first second room username current new s ≡ (t, ack)
    → ((room_verify_account_password hashing first room username current s).1 ≡ verified true)
      × (room_verify_account_password hashing no_faults room username new t ≡ (t, verified true))
change_acknowledged hashing first second room username current new s t e =
    elim (Verified-cases (room_verify_account_password hashing first room username current s)) [
      | inr (u, err, v) ↦
          cc (change_unverified hashing first second room username current new s u err v, e)
      | inl (u, false, v) ↦
          cc (change_verified hashing first second room username current new s u false v, e)
      | inl (u, true, v) ↦
          let done = change_verified hashing first second room username current new s u true v in
          elim (Update-cases (room_update_account_password hashing second room username new u)) [
            | inr (w, err, x) ↦
                absurd
                  ((change_error_lem err).0 (ap (λ p. p.1) (sym (done ∙ ap change_result x) ∙ e)))
            | inl (w, x) ↦
                let same : w ≡ t = ap (λ p. p.0) (sym (done ∙ ap change_result x) ∙ e) in
                let (there, meets, verifies, others) =
                  room_update_account_password_lem hashing second room username new (0 ∷ username) u
                    t (x ∙ ap (λ y. (y, none)) same) (λ longer. omega (arith, ap length longer)) in
                (ap (λ p. p.1) v, verifies)
          ]
    ]

-- The change of a password that is refused for the current one changes nothing, where the hashing library
-- asks to renew a hash only for a match.
pub change_refused :
    (hashing : Hashing) (first second : Faults) (room : AccountsOf) (username current new : Bytes)
    (s t : Storage)
    → ((q hash : Bytes) → hashing.verify_password q hash ≢ some (false, true))
    → on_change_account_password hashing first second room username current new s
      ≡ (t, permission_denied)
    → t ≡ s
change_refused hashing first second room username current new s t renews e =
    elim (Verified-cases (room_verify_account_password hashing first room username current s)) [
      | inr (u, err, v) ↦
          cc (change_unverified hashing first second room username current new s u err v, e)
      | inl (u, true, v) ↦
          let done = change_verified hashing first second room username current new s u true v in
          elim (Update-cases (room_update_account_password hashing second room username new u)) [
            | inr (w, err, x) ↦
                absurd
                  ((change_error_lem err).1 (ap (λ p. p.1) (sym (done ∙ ap change_result x) ∙ e)))
            | inl (w, x) ↦ cc (sym (done ∙ ap change_result x) ∙ e)
          ]
      | inl (u, false, v) ↦
          let done = change_verified hashing first second room username current new s u false v in
          ap (λ p. p.0) (sym e ∙ done)
          ∙ verify_mismatch hashing first room username current s u renews v
    ]
