-- ===== src/Server/Token/SingleUse.antt =====
-- Redemptions of one token of server/room/token.go among other redemptions and passes of `expGc`.
-- Each `Redeem` and each pass is one step here: a `Redeem` that has read the clock and then waits for
-- the lock over a whole pass of `expGc` is not covered.
use friend_net.Prelude.{
  ℕ, ◌+◌, ◌*◌, ◌≤◌, ◌<◌, ◌≡◌, ◌⊎◌, inl, inr, true, Option, none, some, List, [], ◌∷◌, ◌++◌,
  append_assoc, Bytes, length, take, drop, tests, ltb, ==_iff, arith, Bool-cases, Option-cases,
}
use friend_net.Prelude.Dict.{get, put, get-put, nat_eq}
use friend_net.Server.Token.{
  Sealing, TokenManager, Clock, Redeemed, refused, second, put_le, read_le, read_body, outcome,
  mark, is_after, redeem_buf, redeem, expiry, seal_token, open_token, put_string, header,
  client_buf, new_client_token, sweep, exp_gc, token_magic_num,
}
use friend_net.Server.Token.Redeem.{redeem-seal_token}

-- What happens to a manager: a redemption, or a pass of the collector that ends at `finished`.
pub data Event : Type 0 where
  redeems : Clock → Bytes → Bytes → Event
  sweeps : (ℕ → ℕ) → ℕ → Event

pub after : Sealing → TokenManager → Event → TokenManager
after c m (redeems t redeemer token) = (redeem c m t redeemer token).0
after c m (sweeps clock finished) = exp_gc clock m

pub run : Sealing → TokenManager → List Event → TokenManager
unfolding after
run c m [] = m
run c m (event ∷ events) = run c (after c m event) events

abbrev pub finished_at : Event → ℕ
finished_at (redeems t redeemer token) = t.marked_again
finished_at (sweeps clock finished) = finished

-- The event reads the clock from `now` on, and never behind its end.
abbrev pub Follows : ℕ → Event → Type 0
Follows now (redeems t redeemer token) =
    (now ≤ t.checked) × (t.checked ≤ t.marked) × (t.marked ≤ t.marked_again)
Follows now (sweeps clock finished) =
    (now ≤ finished) × ((id : ℕ) → (now ≤ clock id) × (clock id ≤ finished))

abbrev pub InOrder : ℕ → List Event → ℕ → Type 0
InOrder now [] end = now ≤ end
InOrder now (event ∷ events) end = Follows now event × InOrder (finished_at event) events end

is_after_mono : (a b exp : ℕ) → a ≤ b → is_after a exp ≡ true → is_after b exp ≡ true
unfolding is_after
is_after_mono a b exp h e = ground arith

-- An id that is refused from `now` on in tokens with the expiry `exp`: it is kept until then, or
-- they have expired.
abbrev Spent : TokenManager → ℕ → ℕ → ℕ → Type 0
Spent m id exp now =
    ((until : ℕ) × (get m.expired_tokens id ≡ some until) × (exp * second ≤ until))
    ⊎ (is_after now exp ≡ true)

-- A marked id is not written again.
outcome_keeps :
    (m : TokenManager) (j marked again : ℕ) (res : Option Redeemed) (id until : ℕ)
    → get m.expired_tokens id ≡ some until
    → get m.expired_tokens j ≡ none
    → get (outcome (mark m j marked) j again res).0.expired_tokens id ≡ some until
outcome_keeps m j marked again none id until e n =
    ground (arith, get-put m.expired_tokens j id (marked + m.valid_duration), ==_iff j id)
outcome_keeps m j marked again (some res) id until e n =
    let once = put m.expired_tokens j (marked + m.valid_duration) in
    ground (
      arith,
      get-put m.expired_tokens j id (marked + m.valid_duration),
      get-put once j id (again + m.valid_duration),
      ==_iff j id,
    )

redeem_buf_keeps :
    (m : TokenManager) (t : Clock) (redeemer buf : Bytes) (id until : ℕ)
    → get m.expired_tokens id ≡ some until
    → get (redeem_buf m t redeemer buf).0.expired_tokens id ≡ some until
unfolding redeem_buf
redeem_buf_keeps m t redeemer [] id until e = e
redeem_buf_keeps m t redeemer (b ∷ s) id until e =
    let j = read_le (take 8 (drop 8 s)) in
    ground
      (arith, outcome_keeps m j t.marked t.marked_again (read_body redeemer (drop 16 s)) id until e)

redeem_keeps :
    (c : Sealing) (m : TokenManager) (t : Clock) (redeemer token : Bytes) (id until : ℕ)
    → get m.expired_tokens id ≡ some until
    → get (redeem c m t redeemer token).0.expired_tokens id ≡ some until
unfolding redeem
redeem_keeps c m t redeemer token id until e = elim (Option-cases (open_token c token)) [
  | inl n ↦ rw (n, redeem) e
  | inr (buf, o) ↦ rw (o, redeem) (redeem_buf_keeps m t redeemer buf id until e)
]

sweep_keeps :
    (clock : ℕ → ℕ) (entries : List (ℕ × ℕ)) (id until : ℕ)
    → get entries id ≡ some until
    → clock id ≤ until
    → get (sweep clock entries) id ≡ some until
unfolding sweep get
sweep_keeps clock [] id until e h = e
sweep_keeps clock ((j, u) ∷ entries) id until e h =
    ground (arith, sweep_keeps clock entries id until, ==_iff j id)

is_after_until : (now exp until : ℕ) → exp * second ≤ until → until < now → is_after now exp ≡ true
unfolding is_after
is_after_until now exp until h l = ground arith

finish_after : (now : ℕ) (event : Event) → Follows now event → now ≤ finished_at event
finish_after now (redeems t redeemer token) f = omega arith
finish_after now (sweeps clock finished) f = f.0

after-Spent :
    (c : Sealing) (m : TokenManager) (event : Event) (id exp now : ℕ)
    → Follows now event
    → Spent m id exp now
    → Spent (after c m event) id exp (finished_at event)
unfolding after exp_gc
after-Spent c m event id exp now f (inr e) =
    inr (is_after_mono now (finished_at event) exp (finish_after now event f) e)
after-Spent c m (redeems t redeemer token) id exp now f (inl (until, e, h)) =
    inl (until, redeem_keeps c m t redeemer token id until e, h)
after-Spent c m (sweeps clock finished) id exp now f (inl (until, e, h)) =
    elim (Bool-cases (ltb until (clock id))) [
      | inl late ↦ inr (is_after_until finished exp until h (omega (tests, (f.1 id).1)))
      | inr kept ↦ inl (until, sweep_keeps clock m.expired_tokens id until e (ground arith), h)
    ]

run-Spent :
    (c : Sealing) (m : TokenManager) (events : List Event) (id exp now end : ℕ)
    → InOrder now events end
    → Spent m id exp now
    → Spent (run c m events) id exp end
unfolding run
run-Spent c m [] id exp now end o (inl s) = inl s
run-Spent c m [] id exp now end o (inr e) = inr (is_after_mono now end exp o e)
run-Spent c m (event ∷ events) id exp now end o s =
    run-Spent c (after c m event) events id exp (finished_at event) end o.1
      (after-Spent c m event id exp now o.0 s)

-- The expiry of a token is no later than its time of issue and the valid duration.
expiry_le : (m : TokenManager) (now : ℕ) → expiry m now * second ≤ now + m.valid_duration
unfolding expiry
expiry_le m now = omega arith

-- The id is kept for the valid duration from the time at which it was marked first, or longer.
abbrev Kept : TokenManager → ℕ → ℕ → Type 0
Kept m id least = (until : ℕ) × (get m.expired_tokens id ≡ some until) × (least ≤ until)

mark-Kept :
    (m : TokenManager) (j now least : ℕ)
    → least ≤ now + m.valid_duration
    → Kept (mark m j now) j least
mark-Kept m j now least h = (
  now + m.valid_duration,
  ground (arith, get-put m.expired_tokens j j (now + m.valid_duration)),
  h,
)

outcome-Kept :
    (m : TokenManager) (j marked again least : ℕ) (res : Option Redeemed)
    → marked ≤ again
    → least ≤ marked + m.valid_duration
    → Kept (outcome (mark m j marked) j again res).0 j least
outcome-Kept m j marked again least none a h = mark-Kept m j marked least h
outcome-Kept m j marked again least (some res) a h = elim (Bool-cases res.is_valid) [
  | inl e ↦ rw e (mark-Kept (mark m j marked) j again least (omega arith))
  | inr e ↦ rw e (mark-Kept m j marked least h)
]

-- A redemption of an unmarked id leaves it spent.
first-Spent :
    (c : Sealing) (m n : TokenManager) (now : ℕ) (t : Clock) (id nonce : Bytes) (b : ℕ)
    (s buf redeemer : Bytes)
    → length nonce ≡ c.nonce_size
    → length id ≡ 8
    → buf ≡ token_magic_num ∷ (put_le 8 (expiry m now) ++ (id ++ (b ∷ s)))
    → m.valid_duration ≡ n.valid_duration
    → Follows now (redeems t redeemer (seal_token c nonce buf))
    → get n.expired_tokens (read_le id) ≡ none
    → Spent
        (redeem c n t redeemer (seal_token c nonce buf)).0
        (read_le id)
        (expiry m now)
        t.marked_again
first-Spent c m n now t id nonce b s buf redeemer e hid shape d f u =
    rw (redeem-seal_token c m n now t id nonce b s buf redeemer e hid shape)
      (elim (Bool-cases (is_after t.checked (expiry m now))) [
        | inl late ↦ inr (is_after_mono t.checked t.marked_again (expiry m now) (omega arith) late)
        | inr fresh ↦
            rw (fresh, u)
              (inl (
                outcome-Kept n (read_le id) t.marked t.marked_again (expiry m now * second)
                  (read_body redeemer (b ∷ s)) f.2 (omega (arith, expiry_le m now))))
      ])

Spent-refused :
    (c : Sealing) (m n : TokenManager) (now : ℕ) (t : Clock) (id nonce : Bytes) (b : ℕ)
    (s buf redeemer : Bytes)
    → length nonce ≡ c.nonce_size
    → length id ≡ 8
    → buf ≡ token_magic_num ∷ (put_le 8 (expiry m now) ++ (id ++ (b ∷ s)))
    → Spent n (read_le id) (expiry m now) t.checked
    → redeem c n t redeemer (seal_token c nonce buf) ≡ (n, some refused)
Spent-refused c m n now t id nonce b s buf redeemer e hid shape (inl (until, g, h)) =
    rw (redeem-seal_token c m n now t id nonce b s buf redeemer e hid shape, g) (ground arith)
Spent-refused c m n now t id nonce b s buf redeemer e hid shape (inr late) =
    rw (redeem-seal_token c m n now t id nonce b s buf redeemer e hid shape, late)

-- A token is issued by a manager (in the state `m`, at `now`), and someone presents it while its id
-- is not marked (in the state `n`). Whatever the result, and whatever else is redeemed and collected
-- afterwards with the clock running forward, anyone who presents it then is refused, and the manager
-- stays as it is.
pub redeem_once :
    (c : Sealing) (m n spent : TokenManager) (now : ℕ) (first later : Clock) (events : List Event)
    (id nonce room origin target redeemer other token : Bytes)
    → length nonce ≡ c.nonce_size
    → length id ≡ 8
    → m.valid_duration ≡ n.valid_duration
    → token ≡ new_client_token c m now id nonce room origin target
    → Follows now (redeems first redeemer token)
    → get n.expired_tokens (read_le id) ≡ none
    → spent ≡ run c (redeem c n first redeemer token).0 events
    → InOrder first.marked_again events later.checked
    → redeem c spent later other token ≡ (spent, some refused)
unfolding new_client_token client_buf header
redeem_once c m n spent now first later events id nonce room origin target redeemer other token e
      hid d made f u after_events o =
    let names = put_string target ++ (put_string origin ++ put_string room) in
    let buf = client_buf m now id room origin target in
    let shape : buf ≡ token_magic_num ∷ (put_le 8 (expiry m now) ++ (id ++ (0 ∷ names))) =
      simp append_assoc in
    let once = first-Spent c m n now first id nonce 0 names buf redeemer e hid shape d f (u) in
    rw (after_events, made)
      (Spent-refused c m _ now later id nonce 0 names buf other e hid shape
        (run-Spent c _ events (read_le id) (expiry m now) first.marked_again later.checked o once))
