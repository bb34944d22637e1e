-- ===== src/Server/Token.antt =====
-- server/room/token.go: handshake tokens of the TokenManager. Times are nanoseconds since the UNIX
-- epoch, and a read of the clock is an argument. Bytes at an offset are the bytes that are left.
pub mod Codec
pub mod Redeem
pub mod SingleUse
mod Tests
use friend_net.Prelude.{
  ℕ, zero, suc, ◌+◌, ◌-◌, ◌*◌, ◌/◌, ◌%◌, ◌^◌, ◌≤◌, ◌≡◌, Bool, true, false, not, Option, none, some,
  List, [], ◌∷◌, ◌++◌, Bytes, bytes_eq, length, take, drop, ltb, leb, ◌==◌, if◌then◌else◌,
}
use friend_net.Prelude.Dict.{get, put, nat_eq}

-- The AEAD cipher under the manager's key, and the raw URL base64 of the token text: packages
-- crypto/cipher and encoding/base64. What was sealed opens, and what was encoded is decoded.
pub record Sealing : Type 0 where
  pub nonce_size : ℕ
  pub seal : Bytes → Bytes → Bytes
  pub open_sealed : Bytes → Bytes → Option Bytes
  pub encode : Bytes → Bytes
  pub decode : Bytes → Option Bytes
  pub open_of_seal : (nonce buf : Bytes) → open_sealed nonce (seal nonce buf) ≡ some buf
  pub decode_of_encode : (bytes : Bytes) → decode (encode bytes) ≡ some bytes

-- `expired_tokens` maps a redeemed id to the time until which it is kept.
pub record TokenManager : Type 0 where
  pub valid_duration : ℕ
  pub expired_tokens : List (ℕ × ℕ)

abbrev pub token_magic_num : ℕ
token_magic_num = 0x90

abbrev pub second : ℕ
second = 10 ^ 9

-- serMinBufSize
abbrev pub ser_min_buf_size : ℕ
ser_min_buf_size = 18

-- binary.LittleEndian.PutUint64 and Uint64
pub put_le : ℕ → ℕ → Bytes
put_le zero n = []
put_le (suc k) n = (n % 256) ∷ put_le k (n / 256)

pub read_le : Bytes → ℕ
read_le [] = 0
read_le (b ∷ s) = b + 256 * read_le s

-- uint64(time.Now().Add(m.validDuration).Unix())
unfoldable pub expiry : TokenManager → ℕ → ℕ
expiry m now = (now + m.valid_duration) / second % 2 ^ 64

-- `fillBufWithHeader`, with the bytes that rand.Read wrote as the id.
pub header : TokenManager → ℕ → Bytes → Bool → Bytes
unfolding put_le expiry
header m now id is_server =
    token_magic_num ∷ (put_le 8 (expiry m now) ++ (id ++ ((if is_server then 1 else 0) ∷ [])))

-- A string behind its length in one byte.
pub put_string : Bytes → Bytes
put_string s = (length s % 256) ∷ s

pub client_buf : TokenManager → ℕ → Bytes → Bytes → Bytes → Bytes → Bytes
unfolding header put_string
client_buf m now id room origin target =
    header m now id false ++ (put_string target ++ (put_string origin ++ put_string room))

-- m.gcm.Seal(nonce, nonce, buf, nil) appends to the nonce.
pub seal_token : Sealing → Bytes → Bytes → Bytes
seal_token c nonce buf = c.encode (nonce ++ c.seal nonce buf)

unfoldable pub new_server_token : Sealing → TokenManager → ℕ → Bytes → Bytes → Bytes
unfolding header seal_token
new_server_token c m now id nonce = seal_token c nonce (header m now id true)

unfoldable pub new_client_token :
    Sealing → TokenManager → ℕ → Bytes → Bytes → Bytes → Bytes → Bytes → Bytes
unfolding client_buf seal_token
new_client_token c m now id nonce room origin target =
    seal_token c nonce (client_buf m now id room origin target)

-- pb.MsgRedeemConnHandshakeTokenResult
pub record Redeemed : Type 0 where
  pub is_valid : Bool
  pub is_server : Bool
  pub username : Bytes
  pub room : Bytes

abbrev pub refused : Redeemed
refused = record { is_valid = false; is_server = false; username = []; room = [] }

-- time.Now().After(time.Unix(int64(expTs), 0)): from 2^63 on int64 makes it a time before the epoch.
unfoldable pub is_after : ℕ → ℕ → Bool
is_after now exp = if ltb exp (2 ^ 63) then ltb (exp * second) now else true

-- int(buf[offset]) and buf[offset+1 : offset+1+n], with what is left; `none` is the panic out of range.
pub read_string : Bytes → Option (Bytes × Bytes)
read_string [] = none
read_string (n ∷ s) = if leb n (length s) then some (take n s, drop n s) else none

-- What a buffer says behind its header, for the user who redeems it.
pub read_client : Bytes → Bytes → Option Redeemed
unfolding read_string
read_client redeemer s = elim (read_string s) [
  | none ↦ none
  | some (target, rest) ↦
      if bytes_eq target redeemer
      then (elim (read_string rest) [
        | none ↦ none
        | some (origin, last) ↦ elim (read_string last) [
          | none ↦ none
          | some (room, _) ↦
              some (record { is_valid = true; is_server = false; username = origin; room = room })
        ]
      ])
      else some refused
]

-- buf[offset] == 1 for a server token, else the client token; the buffer is never empty here.
pub read_body : Bytes → Bytes → Option Redeemed
unfolding read_client
read_body redeemer [] = none
read_body redeemer (b ∷ s) =
    if b == 1
    then some (record { is_valid = true; is_server = true; username = []; room = [] })
    else read_client redeemer s

-- The base64, nonce, cipher and length checks of `Redeem`; `none` returns the empty result.
pub open_token : Sealing → Bytes → Option Bytes
open_token c token = elim (c.decode token) [
  | none ↦ none
  | some bytes ↦
      if ltb (length bytes) c.nonce_size
      then none
      else elim (c.open_sealed (take c.nonce_size bytes) (drop c.nonce_size bytes)) [
        | none ↦ none
        | some buf ↦ if ltb (length buf) ser_min_buf_size then none else some buf
      ]
]

-- The three reads of the clock in `Redeem`: for the expiry, for the id, and for the id once more.
pub record Clock : Type 0 where
  pub checked : ℕ
  pub marked : ℕ
  pub marked_again : ℕ

abbrev pub mark : TokenManager → ℕ → ℕ → TokenManager
mark m id now = record m { expired_tokens = put m.expired_tokens id (now + m.valid_duration) }

-- Where the token is valid the id is written once more.
abbrev pub mark_again : TokenManager → ℕ → ℕ → Redeemed → TokenManager
mark_again m id now res = if res.is_valid then mark m id now else m

abbrev pub outcome : TokenManager → ℕ → ℕ → Option Redeemed → TokenManager × Option Redeemed
outcome m id now none = (m, none)
outcome m id now (some res) = (mark_again m id now res, some res)

-- `Redeem` behind the length check. The result `none` is a panic; the id is marked before it.
pub redeem_buf : TokenManager → Clock → Bytes → Bytes → TokenManager × Option Redeemed
unfolding read_body read_le is_after
redeem_buf m t redeemer [] = (m, none)
redeem_buf m t redeemer (magic ∷ s) =
    let exp = read_le (take 8 s) in
    let id = read_le (take 8 (drop 8 s)) in
    if not (magic == token_magic_num)
    then (m, some refused)
    else if is_after t.checked exp
    then (m, some refused)
    else elim (get m.expired_tokens id) [
      | some _ ↦ (m, some refused)
      | none ↦ outcome (mark m id t.marked) id t.marked_again (read_body redeemer (drop 16 s))
    ]

unfoldable pub redeem :
    Sealing → TokenManager → Clock → Bytes → Bytes → TokenManager × Option Redeemed
unfolding redeem_buf open_token
redeem c m t redeemer token = elim (open_token c token) [
  | none ↦ (m, some refused)
  | some buf ↦ redeem_buf m t redeemer buf
]

-- One pass of `expGc`, which reads the clock at each entry.
pub sweep : (ℕ → ℕ) → List (ℕ × ℕ) → List (ℕ × ℕ)
sweep clock [] = []
sweep clock ((id, until) ∷ entries) =
    let rest = sweep clock entries in if ltb until (clock id) then rest else (id, until) ∷ rest

pub exp_gc : (ℕ → ℕ) → TokenManager → TokenManager
unfolding sweep
exp_gc clock m = record m { expired_tokens = sweep clock m.expired_tokens }
