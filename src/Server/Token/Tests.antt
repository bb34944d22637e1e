-- ===== src/Server/Token/Tests.antt =====
-- server/room/token_test.go, with a cipher that hides nothing.
use friend_net.Prelude.{
  ℕ, ◌*◌, ◌≡◌, refl, true, false, none, some, [], ◌∷◌, Bytes, codes, bytes_eq, if◌then◌else◌, arith,
}
use friend_net.Prelude.Dict.{get, put, nat_eq}
use friend_net.Server.Token.{
  Sealing, TokenManager, Clock, refused, second, read_le, mark, is_after, expiry, redeem,
  new_client_token,
}
use friend_net.Server.Token.Redeem.{redeem-new_client_token}
use friend_net.Server.Token.SingleUse.{sweeps, run, redeem_once}

abbrev plain : Sealing
plain = record {
  nonce_size = 2;
  seal = λ nonce buf. buf;
  open_sealed = λ nonce bytes. some bytes;
  encode = λ bytes. bytes;
  decode = λ bytes. some bytes;
  open_of_seal = λ nonce buf. refl;
  decode_of_encode = λ bytes. refl;
}

abbrev manager : TokenManager
manager = record { valid_duration = 60 * second; expired_tokens = [] }

abbrev at_second : ℕ → Clock
at_second s = record { checked = s * second; marked = s * second; marked_again = s * second }

abbrev id : Bytes
id = 1 ∷ 2 ∷ 3 ∷ 4 ∷ 5 ∷ 6 ∷ 7 ∷ 8 ∷ []

abbrev nonce : Bytes
nonce = 9 ∷ 9 ∷ []

abbrev token : Bytes
token =
    new_client_token plain manager (1000 * second) id nonce (codes "lounge") (codes "alice")
      (codes "bob")

valid_for_bob :
    (redeem plain manager (at_second 1010) (codes "bob") token).1
    ≡ some (record {
      is_valid = true;
      is_server = false;
      username = codes "alice";
      room = codes "lounge";
    })
unfolding redeem new_client_token get put
valid_for_bob = refl

redeem-new_client_token_example : redeem plain manager (at_second 1010) (codes "bob") token ≡ (
    if is_after (1010 * second) (expiry manager (1000 * second))
    then (manager, some refused)
    else elim (get manager.expired_tokens (read_le id)) [
      | some _ ↦ (manager, some refused)
      | none ↦
          if bytes_eq (codes "bob") (codes "bob")
          then (
            mark (mark manager (read_le id) (1010 * second)) (read_le id) (1010 * second),
            some (record {
              is_valid = true;
              is_server = false;
              username = codes "alice";
              room = codes "lounge";
            }),
          )
          else (mark manager (read_le id) (1010 * second), some refused)
    ])
redeem-new_client_token_example =
    redeem-new_client_token plain manager manager (1000 * second) (at_second 1010) id nonce
      (codes "lounge") (codes "alice") (codes "bob") (codes "bob") refl refl (omega arith)
      (omega arith) (omega arith)

-- The wrong user presents the token, the collector runs, and the right user comes too late.
abbrev burnt : TokenManager
burnt =
    run plain (redeem plain manager (at_second 1010) (codes "eve") token).0
      (sweeps (λ _. 1020 * second) (1020 * second) ∷ [])

redeem_once_example :
    redeem plain burnt (at_second 1030) (codes "bob") token ≡ (burnt, some refused)
redeem_once_example =
    redeem_once plain manager manager burnt (1000 * second) (at_second 1010) (at_second 1030)
      (sweeps (λ _. 1020 * second) (1020 * second) ∷ []) id nonce (codes "lounge") (codes "alice")
      (codes "bob") (codes "eve") (codes "bob") token refl refl refl refl (omega arith)
      (unfold get in refl) refl ((omega arith, λ _. (omega arith, omega arith)), omega arith)
