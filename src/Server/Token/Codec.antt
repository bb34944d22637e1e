-- ===== src/Server/Token/Codec.antt =====
-- The token format of server/room/token.go, as it is written and as it is read.
use native.Mathlib.Nat.{pow-suc}
use friend_net.Prelude.{
  ℕ, zero, suc, ◌+◌, ◌/◌, ◌%◌, ◌^◌, ◌<◌, ◌≡◌, refl, ap, ◌∙◌, true, false, none, some, [], ◌∷◌, ◌++◌,
  append-nil, Bytes, bytes_eq, length, take, drop, take-append, drop-append, length-append,
  if◌then◌else◌, arith,
}
use friend_net.Prelude.Dict.{get, nat_eq}
use friend_net.Server.Token.{
  TokenManager, Clock, refused, token_magic_num, put_le, read_le, put_string, read_string,
  read_client, read_body, outcome, mark, is_after, redeem_buf,
}

pub length-put_le : (k n : ℕ) → length (put_le k n) ≡ k
unfolding put_le
length-put_le zero n = refl
length-put_le (suc k) n = ap suc (length-put_le k (n / 256))

-- Little-endian bytes are read back, if the number fits.
pub read_le-put_le : (k n : ℕ) → n < 256 ^ k → read_le (put_le k n) ≡ n
unfolding read_le put_le
read_le-put_le zero n h = omega arith
read_le-put_le (suc k) n h =
    let fits : n / 256 < 256 ^ k = omega (arith, pow-suc 256 k) in
    omega (arith, read_le-put_le k (n / 256) fits)

-- A prefix of a known length is cut off again.
take_of_length : {n : ℕ} (xs ys : Bytes) → length xs ≡ n → take n (xs ++ ys) ≡ xs
take_of_length xs ys e = rw (← e) (take-append xs ys)

drop_of_length : {n : ℕ} (xs ys : Bytes) → length xs ≡ n → drop n (xs ++ ys) ≡ ys
drop_of_length xs ys e = rw (← e) (drop-append xs ys)

pub read_string-put_string :
    (s rest : Bytes) → length s < 256 → read_string (put_string s ++ rest) ≡ some (s, rest)
unfolding read_string put_string
read_string-put_string s rest h =
    let n : length s % 256 ≡ length s = omega arith in
    rw n (ground (arith, length-append s rest, take-append s rest, drop-append s rest))

drop-drop : (n k j : ℕ) (s : Bytes) → n + k ≡ j → drop j s ≡ drop k (drop n s)
drop-drop zero k j s e = let same : j ≡ k = omega arith in rw same
drop-drop (suc n) k zero s e = absurd (omega arith)
drop-drop (suc n) zero (suc j) [] e = refl
drop-drop (suc n) (suc k) (suc j) [] e = refl
drop-drop (suc n) k (suc j) (c ∷ s) e = drop-drop n k j s (omega arith)

-- `Redeem` finds the expiry, the id and the body of a buffer with a header.
pub redeem_buf_header :
    (m : TokenManager) (t : Clock) (redeemer : Bytes) (e : ℕ) (id body : Bytes)
    → e < 2 ^ 64
    → length id ≡ 8
    → redeem_buf m t redeemer (token_magic_num ∷ (put_le 8 e ++ (id ++ body))) ≡ (
        if is_after t.checked e
        then (m, some refused)
        else elim (get m.expired_tokens (read_le id)) [
          | some _ ↦ (m, some refused)
          | none ↦
              outcome
                (mark m (read_le id) t.marked)
                (read_le id)
                t.marked_again
                (read_body redeemer body)
        ])
unfolding redeem_buf
redeem_buf_header m t redeemer e id body he hid =
    let rest = id ++ body in
    let whole = drop-drop 8 8 16 (put_le 8 e ++ rest) refl in
    let first = take_of_length (put_le 8 e) rest (length-put_le 8 e) in
    let behind = drop_of_length (put_le 8 e) rest (length-put_le 8 e) in
    let as_body : drop 16 (put_le 8 e ++ rest) ≡ body =
      whole ∙ ap (drop 8) behind ∙ drop_of_length id body hid in
    let as_id : take 8 (drop 8 (put_le 8 e ++ rest)) ≡ id =
      ap (take 8) behind ∙ take_of_length id body hid in
    let as_exp : read_le (take 8 (put_le 8 e ++ rest)) ≡ e =
      ap read_le first ∙ read_le-put_le 8 e (omega arith) in
    ground (arith, as_body, as_id, as_exp)

-- A client body is read back: by its target as a valid token with the origin and the room, by anyone
-- else as an invalid one.
pub read_body_client :
    (redeemer room origin target : Bytes)
    → length room < 256
    → length origin < 256
    → length target < 256
    → read_body redeemer (0 ∷ (put_string target ++ (put_string origin ++ put_string room)))
      ≡ some (
          if bytes_eq target redeemer
          then record { is_valid = true; is_server = false; username = origin; room = room }
          else refused)
unfolding read_body read_client
read_body_client redeemer room origin target hr ho ht =
    let last = rw append-nil at (read_string-put_string room [] hr) in
    rw
      (
        read_string-put_string target (put_string origin ++ put_string room) ht,
        read_body,
        read_client,
      )
      (ground (arith, read_string-put_string origin (put_string room) ho, last))
