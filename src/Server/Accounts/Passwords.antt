-- ===== src/Server/Accounts/Passwords.antt =====
-- Passwords of the accounts of server/room/room.go, from their setting to their verification.
use friend_net.Prelude.{
  ◌≡◌, ◌≢◌, ◌⊎◌, refl, ap, ◌∙◌, Bool, true, false, ◌||◌, Option, none, some, List, Bytes,
  bytes_eq_iff, Option-cases, inl, inr, arith,
}
use friend_net.Prelude.Dict.{get, put, get-put, pair_beq_iff, text_eq, pair_eq}
use friend_net.Common.Password.{
  Checker, check, HashErr, Hashed, hashed, not_hashed, hash_with_requirements,
}
use friend_net.Server.Storage.{
  Storage, create_account, get_account_by_room_and_username, update_account_password_hash,
}
use friend_net.Server.Accounts.{
  Hashing, AccountsOf, Faults, room_create_account, room_update_account_password, verified, rehash,
  room_verify_account_password,
}

abbrev pub no_faults : Faults
no_faults = record { read = false; write = false }

-- A hash is one of a password that meets the requirements.
hash_with_requirements_lem :
    (hash_password : Bytes → Option Bytes) (username password hash : Bytes) (reqs : List Checker)
    → hash_with_requirements hash_password username password reqs ≡ hashed hash
    → (check reqs username password ≡ none) × (hash_password password ≡ some hash)
unfolding hash_with_requirements
hash_with_requirements_lem f username password hash reqs e = ground arith

Hashed-cases :
    (h : Hashed) → ((err : HashErr) × (h ≡ not_hashed err)) ⊎ ((hash : Bytes) × (h ≡ hashed hash))
Hashed-cases (hashed hash) = inr (hash, refl)
Hashed-cases (not_hashed err) = inl (err, refl)

-- An account whose hash was made of the password verifies, and stays as it is.
verify_made :
    (hashing : Hashing) (r : AccountsOf) (username password hash : Bytes) (s : Storage)
    → r.is_closed ≡ false
    → get s.accounts (r.name, username) ≡ some hash
    → hashing.hash_password password ≡ some hash
    → room_verify_account_password hashing no_faults r username password s ≡ (s, verified true)
unfolding room_verify_account_password rehash get_account_by_room_and_username
verify_made hashing r username password hash s o g h =
    ground (arith, o, g, hashing.verify_of_hash password hash h)

-- What a successful CreateAccount has done.
created :
    (hashing : Hashing) (faults : Faults) (r : AccountsOf) (username password : Bytes)
    (s t : Storage)
    → room_create_account hashing faults r username password s ≡ (t, none)
    → (r.is_closed ≡ false)
      × (get s.accounts (r.name, username) ≡ none)
      × ((hash : Bytes) × (hash_with_requirements hashing.hash_password username password
              r.pass_reqs
            ≡ hashed hash)
          × (t.accounts ≡ put s.accounts (r.name, username) hash))
unfolding room_create_account get_account_by_room_and_username create_account
created hashing faults r username password s t e =
    elim (Hashed-cases
      (hash_with_requirements hashing.hash_password username password r.pass_reqs)) [
        | inl (err, h) ↦ ground (arith, h)
        | inr (hash, h) ↦ (ground (arith, h), ground (arith, h), (hash, h, ground (arith, h)))
      ]

-- What a stored hash of the password means for it and for the other accounts.
stored :
    (hashing : Hashing) (r : AccountsOf) (username password hash other : Bytes) (s t : Storage)
    → r.is_closed ≡ false
    → hash_with_requirements hashing.hash_password username password r.pass_reqs ≡ hashed hash
    → t.accounts ≡ put s.accounts (r.name, username) hash
    → other ≢ username
    → (check r.pass_reqs username password ≡ none)
      × (room_verify_account_password hashing no_faults r username password t ≡ (t, verified true))
      × (get t.accounts (r.name, other) ≡ get s.accounts (r.name, other))
stored hashing r username password hash other s t opened made now n =
    let (meets, hashes) =
      hash_with_requirements_lem hashing.hash_password username password hash r.pass_reqs made in
    let key : Bytes × Bytes = (r.name, username) in
    let read : (u : Bytes)
        → get t.accounts (r.name, u) ≡ get (put s.accounts key hash) (r.name, u) =
      λ u. ap (λ m. get m (r.name, u)) now in
    let mine : get t.accounts key ≡ some hash =
      read username ∙ (get-put s.accounts key key hash ∙ ground (arith, pair_beq_iff key key)) in
    (
      meets,
      verify_made hashing r username password hash t opened mine hashes,
      read other
          ∙ (get-put s.accounts key (r.name, other) hash
              ∙ ground (arith, pair_beq_iff key (r.name, other), bytes_eq_iff username other)),
    )

-- An account that CreateAccount has made was not there, its password meets the requirements of the
-- room, and it verifies; every other account is as it was.
pub room_create_account_lem :
    (hashing : Hashing) (faults : Faults) (r : AccountsOf) (username password other : Bytes)
    (s t : Storage)
    → room_create_account hashing faults r username password s ≡ (t, none)
    → other ≢ username
    → (get s.accounts (r.name, username) ≡ none)
      × (check r.pass_reqs username password ≡ none)
      × (room_verify_account_password hashing no_faults r username password t ≡ (t, verified true))
      × (get t.accounts (r.name, other) ≡ get s.accounts (r.name, other))
room_create_account_lem hashing faults r username password other s t e n =
    let (opened, free, (hash, made, now)) = created hashing faults r username password s t e in
    let (meets, verifies, others) =
      stored hashing r username password hash other s t opened made now n in
    (free, meets, verifies, others)

updated :
    (hashing : Hashing) (faults : Faults) (r : AccountsOf) (username password : Bytes)
    (s t : Storage)
    → room_update_account_password hashing faults r username password s ≡ (t, none)
    → (r.is_closed ≡ false)
      × ((old : Bytes) × (get s.accounts (r.name, username) ≡ some old))
      × ((hash : Bytes) × (hash_with_requirements hashing.hash_password username password
              r.pass_reqs
            ≡ hashed hash)
          × (t.accounts ≡ put s.accounts (r.name, username) hash))
unfolding room_update_account_password get_account_by_room_and_username update_account_password_hash
updated hashing faults r username password s t e =
    elim (Hashed-cases
      (hash_with_requirements hashing.hash_password username password r.pass_reqs)) [
        | inl (err, h) ↦ ground (arith, h)
        | inr (hash, h) ↦ elim (Option-cases (get s.accounts (r.name, username))) [
          | inl n ↦ ground (arith, h, n)
          | inr (old, g) ↦ (ground (arith, h, g), (old, g), (hash, h, ground (arith, h, g)))
        ]
      ]

-- A password that UpdateAccountPassword has set meets the requirements of the room and verifies; the
-- account was there, and every other account is as it was.
pub room_update_account_password_lem :
    (hashing : Hashing) (faults : Faults) (r : AccountsOf) (username password other : Bytes)
    (s t : Storage)
    → room_update_account_password hashing faults r username password s ≡ (t, none)
    → other ≢ username
    → (get s.accounts (r.name, username) ≢ none)
      × (check r.pass_reqs username password ≡ none)
      × (room_verify_account_password hashing no_faults r username password t ≡ (t, verified true))
      × (get t.accounts (r.name, other) ≡ get s.accounts (r.name, other))
room_update_account_password_lem hashing faults r username password other s t e n =
    let (opened, there, (hash, made, now)) = updated hashing faults r username password s t e in
    let (meets, verifies, others) =
      stored hashing r username password hash other s t opened made now n in
    (λ gone. ground (arith, there.1, gone), meets, verifies, others)

pub verify_mismatch :
    (hashing : Hashing) (faults : Faults) (r : AccountsOf) (username password : Bytes)
    (s t : Storage)
    → ((q hash : Bytes) → hashing.verify_password q hash ≢ some (false, true))
    → room_verify_account_password hashing faults r username password s ≡ (t, verified false)
    → t ≡ s
unfolding room_verify_account_password rehash update_account_password_hash
    get_account_by_room_and_username
verify_mismatch hashing faults r username password s t renews e =
    elim (Option-cases (get s.accounts (r.name, username))) [
      | inl n ↦ ground (arith, n)
      | inr (old, g) ↦ ground (arith, g, renews password old)
    ]

-- The storage after the hash was renewed, which puts a hash of the password in the place of the old one
-- and leaves everything else, or was not.
abbrev pub Renewed : Hashing → AccountsOf → Bytes → Bytes → Storage → Storage → Bool → Type 0
Renewed hashing r username password s t false = t ≡ s
Renewed hashing r username password s t true =
    (new : Bytes) × (hashing.hash_password password ≡ some new)
    × (t ≡ record s { accounts = put s.accounts (r.name, username) new })

-- What a call that returned a bool has read, asked of the library, and written.
verify_result_lem :
    (hashing : Hashing) (faults : Faults) (r : AccountsOf) (username password : Bytes) (b : Bool)
    (s t : Storage)
    → room_verify_account_password hashing faults r username password s ≡ (t, verified b)
    → (r.is_closed ≡ false)
      × ((hash : Bytes) × (renews : Bool) × (get s.accounts (r.name, username) ≡ some hash)
          × (hashing.verify_password password hash ≡ some (b, renews))
          × Renewed hashing r username password s t renews)
unfolding room_verify_account_password rehash update_account_password_hash
    get_account_by_room_and_username
verify_result_lem hashing faults r username password b s t e =
    elim (Option-cases (get s.accounts (r.name, username))) [
      | inl n ↦ ground (arith, n)
      | inr (old, g) ↦ elim (Option-cases (hashing.verify_password password old)) [
        | inl n ↦ ground (arith, g, n)
        | inr ((matches, false), v) ↦
            (ground (arith, g, v), (old, false, g, ground (arith, g, v), ground (arith, g, v)))
        | inr ((matches, true), v) ↦ elim (Option-cases (hashing.hash_password password)) [
          | inl n ↦ ground (arith, g, v, n)
          | inr (new, h) ↦ (
            ground (arith, g, v, h),
            (old, true, g, ground (arith, g, v, h), (new, h, ground (arith, g, v, h))),
          )
        ]
      ]
    ]

verify_unrenewed :
    (hashing : Hashing) (r : AccountsOf) (username password hash : Bytes) (b : Bool) (s : Storage)
    → r.is_closed ≡ false
    → get s.accounts (r.name, username) ≡ some hash
    → hashing.verify_password password hash ≡ some (b, false)
    → room_verify_account_password hashing no_faults r username password s ≡ (s, verified b)
unfolding room_verify_account_password rehash get_account_by_room_and_username
verify_unrenewed hashing r username password hash b s o g v = ground (arith, o, g, v)

-- VerifyAccountPassword that returns a bool has read the hash of the account in an open room, and returns
-- what the library says of the password and that hash. It writes exactly where the library asks for a new
-- hash: one of the given password in the place of the old one, whether the password has matched or not.
-- The same password verifies afterwards exactly where it has matched or the hash was renewed.
pub room_verify_account_password_lem :
    (hashing : Hashing) (faults : Faults) (r : AccountsOf) (username password : Bytes) (b : Bool)
    (s t : Storage)
    → room_verify_account_password hashing faults r username password s ≡ (t, verified b)
    → (r.is_closed ≡ false)
      × ((hash : Bytes) × (renews : Bool) × (get s.accounts (r.name, username) ≡ some hash)
          × (hashing.verify_password password hash ≡ some (b, renews))
          × Renewed hashing r username password s t renews
          × (room_verify_account_password hashing no_faults r username password t
              ≡ (t, verified (b || renews))))
room_verify_account_password_lem hashing faults r username password b s t e =
    let (opened, (hash, renews, g, v, done)) =
      verify_result_lem hashing faults r username password b s t e in
    (opened, (hash, renews, g, v, done, again opened hash renews g v done))
  where
    again :
        r.is_closed ≡ false
        → (hash : Bytes) (renews : Bool) → get s.accounts (r.name, username) ≡ some hash
        → hashing.verify_password password hash ≡ some (b, renews)
        → Renewed hashing r username password s t renews
        → room_verify_account_password hashing no_faults r username password t
          ≡ (t, verified (b || renews))
    again opened hash false g v same =
        let either : (b || false) ≡ b = ground arith in
        rw (either, same) (verify_unrenewed hashing r username password hash b s opened g v)
    again opened hash true g v (new, h, now) =
        let either : (b || true) ≡ true = ground arith in
        let key : Bytes × Bytes = (r.name, username) in
        let mine : get t.accounts key ≡ some new =
          ap (λ u. get u.accounts key) now
          ∙ (get-put s.accounts key key new ∙ ground (arith, pair_beq_iff key key)) in
        rw either (verify_made hashing r username password new t opened mine h)
