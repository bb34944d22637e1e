-- ===== src/Server/Logic/Methods.antt =====
-- The connection methods of a client of server/room/logic.go, whatever it advertises and removes.
use friend_net.Prelude.{
  ◌≡◌, refl, subst, Bool, true, false, Option, some, List, [], ◌∷◌, Bytes, bytes_eq, bytes_eq_iff,
  if◌then◌else◌, Option-cases, Bool-cases, inl, inr, arith,
}
use friend_net.Prelude.Dict.{Dict, get, put, delete, get-put, get-delete, text_eq}
use friend_net.Server.Logic.{
  ConnMethod, Advertised, Probe, is_ok, conn_res, is_valid_address, on_advertise_conn_method,
  on_remove_conn_method,
}

-- What a client does to its methods.
pub data MethodOp : Type 0 where
  advertises : Advertised → MethodOp
  removes : Bytes → MethodOp

unfoldable pub handle_all :
    (Bytes → Option Bool) → Probe → List MethodOp → Dict Bytes ConnMethod → Dict Bytes ConnMethod
handle_all parse probe [] methods = methods
handle_all parse probe (advertises ad ∷ ops) methods =
    handle_all parse probe ops (on_advertise_conn_method parse probe ad methods).0
handle_all parse probe (removes id ∷ ops) methods =
    handle_all parse probe ops (on_remove_conn_method id methods).0

-- A method stands under its id, has an address that its type allows, and is marked as verified exactly
-- where the server could connect to it.
abbrev pub IsRight : (Bytes → Option Bool) → Probe → Bytes → ConnMethod → Type 0
IsRight parse probe id m =
    (m.id ≡ id)
    × (is_valid_address parse m.type m.address ≡ true)
    × (m.is_server_verified ≡ (
        if probe.is_supported m.type
        then is_ok (probe.create_direct_connection m.type m.address)
        else false))

abbrev AllRight : (Bytes → Option Bool) → Probe → Dict Bytes ConnMethod → Type 0
AllRight parse probe methods =
    (id : Bytes) (m : ConnMethod) → get methods id ≡ some m → IsRight parse probe id m

made :
    (parse : Bytes → Option Bool) (probe : Probe) (ad : Advertised)
    → is_valid_address parse ad.type ad.address ≡ true
    → IsRight parse probe ad.id (record {
      id = ad.id;
      type = ad.type;
      address = ad.address;
      priority = ad.priority;
      is_server_verified = is_ok (conn_res probe ad);
    })
made parse probe ad v = (refl, v, ground arith)

put-AllRight :
    (parse : Bytes → Option Bool) (probe : Probe) (ms : Dict Bytes ConnMethod) (k : Bytes)
    (n : ConnMethod)
    → IsRight parse probe k n
    → AllRight parse probe ms
    → AllRight parse probe (put ms k n)
put-AllRight parse probe ms k n new old id m e = elim (Bool-cases (bytes_eq k id)) [
  | inr x ↦ old id m (ground (arith, e, x, get-put ms k id n))
  | inl x ↦
      let same : n ≡ m = ground (arith, e, x, get-put ms k id n) in
      subst (IsRight parse probe id) same
        (subst (λ i. IsRight parse probe i n) ((bytes_eq_iff k id).0 x) new)
]

delete-AllRight :
    (parse : Bytes → Option Bool) (probe : Probe) (ms : Dict Bytes ConnMethod) (k : Bytes)
    → AllRight parse probe ms
    → AllRight parse probe (delete ms k)
delete-AllRight parse probe ms k old id m e = old id m (ground (arith, e, get-delete ms k id))

advertise-AllRight :
    (parse : Bytes → Option Bool) (probe : Probe) (ad : Advertised) (ms : Dict Bytes ConnMethod)
    → AllRight parse probe ms
    → AllRight parse probe (on_advertise_conn_method parse probe ad ms).0
unfolding on_advertise_conn_method
advertise-AllRight parse probe ad ms h =
    elim (Bool-cases (is_valid_address parse ad.type ad.address)) [
      | inr n ↦ rw (n, on_advertise_conn_method) h
      | inl v ↦ elim (Option-cases (get ms ad.id)) [
        | inr (old, g) ↦ rw (v, g, on_advertise_conn_method) h
        | inl n ↦
            rw (v, n, on_advertise_conn_method)
              (put-AllRight parse probe ms ad.id _ (made parse probe ad v) h)
      ]
    ]

remove-AllRight :
    (parse : Bytes → Option Bool) (probe : Probe) (k : Bytes) (ms : Dict Bytes ConnMethod)
    → AllRight parse probe ms
    → AllRight parse probe (on_remove_conn_method k ms).0
unfolding on_remove_conn_method
remove-AllRight parse probe k ms h = elim (Option-cases (get ms k)) [
  | inl n ↦ rw (n, on_remove_conn_method) h
  | inr (old, g) ↦ rw (g, on_remove_conn_method) (delete-AllRight parse probe ms k h)
]

handle_all-AllRight :
    (parse : Bytes → Option Bool) (probe : Probe) (ops : List MethodOp) (ms : Dict Bytes ConnMethod)
    → AllRight parse probe ms
    → AllRight parse probe (handle_all parse probe ops ms)
unfolding handle_all
handle_all-AllRight parse probe [] ms h = h
handle_all-AllRight parse probe (advertises ad ∷ ops) ms h =
    handle_all-AllRight parse probe ops _ (advertise-AllRight parse probe ad ms h)
handle_all-AllRight parse probe (removes id ∷ ops) ms h =
    handle_all-AllRight parse probe ops _ (remove-AllRight parse probe id ms h)

-- Whatever a new client has advertised and removed, each of its methods stands under its id, has an address
-- that its type allows, and is marked as verified exactly where the server could connect to it.
pub handle_all-IsRight :
    (parse : Bytes → Option Bool) (probe : Probe) (ops : List MethodOp) (id : Bytes)
    (m : ConnMethod)
    → get (handle_all parse probe ops []) id ≡ some m
    → IsRight parse probe id m
unfolding get
handle_all-IsRight parse probe ops id m e =
    handle_all-AllRight parse probe ops [] (λ i n x. ground arith) id m e
