-- ===== src/Client/Multi/Sync.antt =====
-- client/multi.go: the servers in memory against the table of servers.
use mathlib.Core.Option
use friend_net.Prelude.{
  ◌≡◌, refl, ap, Bool, false, none, List, [], ◌∷◌, Bytes, bytes_eq, bytes_eq_iff, if◌then◌else◌,
  arith, All, inl, inr, Option-cases,
}
use friend_net.Prelude.Dict.{Dict, get, put, get-put, get-delete, text_eq}
use friend_net.Client.Multi.{
  ServerRecord, MultiClient, MultiErr, err_storage, err_not_found, err_instance, load_servers,
  new_multi_client, UpdateServerFields, set_fields, change, update_server, create_server,
  CreateFaults, undo, multi_create, multi_update, delete_by_uuid, multi_close, multi_get_by_uuid,
  MultiCall, call_create, call_update, call_delete, call_close, obey_call, obey_calls,
}

get-load_servers :
    (rows : Dict Bytes ServerRecord) (u : Bytes) → get (load_servers rows) u ≡ get rows u
unfolding load_servers get
get-load_servers [] u = refl
get-load_servers ((v, r) ∷ rows) u =
    ground (arith, get-put (load_servers rows) v u r, get-load_servers rows u)

get-change :
    (f : ServerRecord → ServerRecord) (v u : Bytes) (m : Dict Bytes ServerRecord)
    → get (change f v m) u ≡ (if bytes_eq v u then Option.map f (get m u) else get m u)
unfolding change
get-change f v u m = elim (Option-cases (get m v)) [
  | inl missing ↦ ground (arith, missing, bytes_eq_iff v u, ap (get m) {x = v} {y = u})
  | inr (r, found) ↦
      ground (arith, found, get-put m v u (f r), bytes_eq_iff v u, ap (get m) {x = v} {y = u})
]

-- The memory and the table have the same record for the UUID, or both none.
abbrev Agrees : Bytes → MultiClient → Type 0
Agrees u c = get c.servers u ≡ get c.storage u

-- The deletions of the call do not fail in the database.
abbrev pub Deletes : MultiCall → Type 0
Deletes (call_create faults uuid r) = faults.cleanup ≡ false
Deletes (call_update fault uuid f) = Unit
Deletes (call_delete fault uuid) = fault ≡ false
Deletes call_close = Unit

module _ (u : Bytes) (c : MultiClient) (agrees : (v : Bytes) → Agrees v c) where
  update-Agrees :
      (fault : Bool) (uuid : Bytes) (f : UpdateServerFields)
      → Agrees u (multi_update fault uuid f c).0
  unfolding multi_update update_server
  update-Agrees fault uuid f = ground (
    arith,
    agrees u,
    get-change (set_fields f) uuid u c.servers,
    get-change (set_fields f) uuid u c.storage,
  )

  delete-Agrees : (uuid : Bytes) → Agrees u (delete_by_uuid false uuid c).0
  unfolding delete_by_uuid
  delete-Agrees uuid =
      ground (arith, agrees u, get-delete c.servers uuid u, get-delete c.storage uuid u)

  close-Agrees : Agrees u (multi_close c)
  unfolding multi_close
  close-Agrees = ground (arith, agrees u)

  -- A record that was new, and was not multi_created in the end, is not there any more.
  undo-Agrees :
      (uuid : Bytes) (r : ServerRecord) (e : MultiErr)
      → get c.storage uuid ≡ none
      → Agrees u (undo false uuid (record c { storage = put c.storage uuid r }) e).0
  undo-Agrees uuid r e new = ground (
    arith,
    agrees u,
    get-delete (put c.storage uuid r) uuid u,
    get-put c.storage uuid u r,
    bytes_eq_iff uuid u,
    ap (get c.storage) {x = uuid} {y = u},
    new,
  )

  create-Agrees :
      (faults : CreateFaults) (uuid : Bytes) (r : ServerRecord)
      → faults.cleanup ≡ false
      → Agrees u (multi_create faults uuid r c).0
  unfolding multi_create create_server
  create-Agrees faults uuid r clean = elim (Option-cases (get c.storage uuid)) [
    | inr (old, taken) ↦ ground (arith, agrees u, taken)
    | inl new ↦ ground (
      arith,
      agrees u,
      new,
      clean,
      get-put c.storage uuid u r,
      get-put c.servers uuid u r,
      get-put c.storage uuid uuid r,
      bytes_eq_iff uuid uuid,
      undo-Agrees uuid r err_storage new,
      undo-Agrees uuid r err_not_found new,
      undo-Agrees uuid r err_instance new,
    )
  ]

obey_call-Agrees :
    (call : MultiCall) (c : MultiClient)
    → Deletes call
    → ((v : Bytes) → Agrees v c)
    → (u : Bytes) → Agrees u (obey_call call c)
unfolding obey_call
obey_call-Agrees (call_create faults uuid r) c clean agrees u =
    create-Agrees u c agrees faults uuid r clean
obey_call-Agrees (call_update fault uuid f) c clean agrees u = update-Agrees u c agrees fault uuid f
obey_call-Agrees (call_delete fault uuid) c clean agrees u =
    rw clean (delete-Agrees u c agrees uuid)
obey_call-Agrees call_close c clean agrees u = close-Agrees u c agrees

obey_calls-Agrees :
    (calls : List MultiCall) (c : MultiClient)
    → All Deletes calls
    → ((v : Bytes) → Agrees v c)
    → (u : Bytes) → Agrees u (obey_calls calls c)
unfolding obey_calls
obey_calls-Agrees [] c clean agrees u = agrees u
obey_calls-Agrees (call ∷ calls) c clean agrees u =
    obey_calls-Agrees calls (obey_call call c) clean.1
      (λ v. obey_call-Agrees call c clean.0 agrees v) u

-- From the start of the client, whatever calls come and whichever of their statements fail but the
-- deletions, the client has a server exactly where the table has its record, with the same name,
-- address, room, username and password; GetByUuid gives it until Close, and nothing after that.
pub multi_get_by_uuid-obey_calls :
    (rows : Dict Bytes ServerRecord) (calls : List MultiCall) (u : Bytes)
    → All Deletes calls
    → (get (obey_calls calls (new_multi_client rows)).servers u
        ≡ get (obey_calls calls (new_multi_client rows)).storage u)
      × (multi_get_by_uuid u (obey_calls calls (new_multi_client rows)) ≡ (
          if (obey_calls calls (new_multi_client rows)).is_closed
          then none
          else get (obey_calls calls (new_multi_client rows)).storage u))
unfolding new_multi_client multi_get_by_uuid
multi_get_by_uuid-obey_calls rows calls u clean =
    let same =
      obey_calls-Agrees calls (new_multi_client rows) clean (λ v. get-load_servers rows v) u in
    (same, ground (arith, same))
