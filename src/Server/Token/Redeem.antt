-- ===== src/Server/Token/Redeem.antt =====
-- What `Redeem` of server/room/token.go makes of the tokens that `NewServerToken` and
-- `NewClientToken` have made.
use friend_net.Prelude.{
  ℕ, ◌^◌, ◌≤◌, ◌<◌, ◌≡◌, refl, true, false, none, some, [], ◌∷◌, ◌++◌, append_assoc, Bytes,
  bytes_eq, length, take, drop, take-append, drop-append, length-append, if◌then◌else◌, arith,
}
use friend_net.Prelude.Dict.{get, nat_eq}
use friend_net.Server.Token.{
  Sealing, TokenManager, Clock, refused, token_magic_num, ser_min_buf_size, put_le, read_le,
  put_string, read_body, outcome, mark, is_after, redeem, header, expiry, client_buf, seal_token,
  open_token, new_server_token, new_client_token,
}
use friend_net.Server.Token.Codec.{length-put_le, redeem_buf_header, read_body_client}

-- What was sealed passes the checks in front of the format, if it has the size of a header.
open_token-seal_token :
    (c : Sealing) (nonce buf : Bytes)
    → length nonce ≡ c.nonce_size
    → ser_min_buf_size ≤ length buf
    → open_token c (seal_token c nonce buf) ≡ some buf
unfolding open_token seal_token
open_token-seal_token c nonce buf e h =
    let sealed = c.seal nonce buf in
    let cut : take c.nonce_size (nonce ++ sealed) ≡ nonce = rw (← e) (take-append nonce sealed) in
    let rest : drop c.nonce_size (nonce ++ sealed) ≡ sealed = rw (← e) (drop-append nonce sealed) in
    ground (
      arith,
      c.decode_of_encode (nonce ++ sealed),
      c.open_of_seal nonce buf,
      cut,
      rest,
      length-append nonce sealed,
    )

expiry_lt : (m : TokenManager) (now : ℕ) → expiry m now < 2 ^ 64
unfolding expiry
expiry_lt m now = omega arith

-- A buffer with a header and a body passes the length check.
header_size :
    (m : TokenManager) (now : ℕ) (id : Bytes) (b : ℕ) (s : Bytes)
    → length id ≡ 8
    → ser_min_buf_size ≤ length (token_magic_num ∷ (put_le 8 (expiry m now) ++ (id ++ (b ∷ s))))
header_size m now id b s e =
    let exp = expiry m now in
    omega (
      arith,
      length-append (put_le 8 exp) (id ++ (b ∷ s)),
      length-append id (b ∷ s),
      length-put_le 8 exp,
    )

-- A sealed buffer is redeemed by its expiry, its id and its body.
pub redeem-seal_token :
    (c : Sealing) (m n : TokenManager) (now : ℕ) (t : Clock) (id nonce : Bytes) (b : ℕ)
    (s buf redeemer : Bytes)
    → length nonce ≡ c.nonce_size
    → length id ≡ 8
    → buf ≡ token_magic_num ∷ (put_le 8 (expiry m now) ++ (id ++ (b ∷ s)))
    → redeem c n t redeemer (seal_token c nonce buf) ≡ (
        if is_after t.checked (expiry m now)
        then (n, some refused)
        else elim (get n.expired_tokens (read_le id)) [
          | some _ ↦ (n, some refused)
          | none ↦
              outcome
                (mark n (read_le id) t.marked)
                (read_le id)
                t.marked_again
                (read_body redeemer (b ∷ s))
        ])
unfolding redeem
redeem-seal_token c m n now t id nonce b s buf redeemer e hid shape =
    let size = header_size m now id b s hid in
    rw (shape, open_token-seal_token c nonce _ e size, redeem)
      (redeem_buf_header n t redeemer (expiry m now) id (b ∷ s) (expiry_lt m now) hid)

-- A client token that is not expired, and whose id was not redeemed, is valid for its target and shows the origin and the
-- room; anyone else is refused. Either way its id is marked. An expired token and one whose id is
-- marked are refused, and the manager stays as it is.
pub redeem-new_client_token :
    (c : Sealing) (m n : TokenManager) (now : ℕ) (t : Clock)
    (id nonce room origin target redeemer : Bytes)
    → length nonce ≡ c.nonce_size
    → length id ≡ 8
    → length room < 256
    → length origin < 256
    → length target < 256
    → redeem c n t redeemer (new_client_token c m now id nonce room origin target) ≡ (
        if is_after t.checked (expiry m now)
        then (n, some refused)
        else elim (get n.expired_tokens (read_le id)) [
          | some _ ↦ (n, some refused)
          | none ↦
              if bytes_eq target redeemer
              then (
                mark (mark n (read_le id) t.marked) (read_le id) t.marked_again,
                some
                    (record { is_valid = true; is_server = false; username = origin; room = room }),
              )
              else (mark n (read_le id) t.marked, some refused)
        ])
unfolding new_client_token client_buf header
redeem-new_client_token c m n now t id nonce room origin target redeemer e hid hr ho ht =
    let body = read_body_client redeemer room origin target hr ho ht in
    let names = put_string target ++ (put_string origin ++ put_string room) in
    rw
      (redeem-seal_token c m n now t id nonce 0 names (client_buf m now id room origin target)
        redeemer e hid (simp append_assoc))
      (ground (arith, body))

-- A server token that is not expired, and whose id was not redeemed, is valid for anyone, and shows
-- no name. Its id is marked. An expired token and one whose id is marked are refused, and the manager
-- stays as it is.
pub redeem-new_server_token :
    (c : Sealing) (m n : TokenManager) (now : ℕ) (t : Clock) (id nonce redeemer : Bytes)
    → length nonce ≡ c.nonce_size
    → length id ≡ 8
    → redeem c n t redeemer (new_server_token c m now id nonce) ≡ (
        if is_after t.checked (expiry m now)
        then (n, some refused)
        else elim (get n.expired_tokens (read_le id)) [
          | some _ ↦ (n, some refused)
          | none ↦ (
            mark (mark n (read_le id) t.marked) (read_le id) t.marked_again,
            some (record { is_valid = true; is_server = true; username = []; room = [] }),
          )
        ])
unfolding new_server_token header read_body
redeem-new_server_token c m n now t id nonce redeemer e hid =
    redeem-seal_token c m n now t id nonce 1 [] (header m now id true) redeemer e hid refl
