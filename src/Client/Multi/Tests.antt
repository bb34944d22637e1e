-- ===== src/Client/Multi/Tests.antt =====
-- A MultiClient with one server in its table.
use friend_net.Prelude.{
  ◌≡◌, refl, true, false, none, some, List, [], ◌∷◌, Bytes, codes, if◌then◌else◌,
}
use friend_net.Prelude.Dict.{Dict, get, put, delete, text_eq}
use friend_net.Client.Multi.{
  ServerRecord, err_storage, new_multi_client, UpdateServerFields, CreateFaults, delete_by_uuid,
  multi_get_by_uuid, MultiCall, call_create, call_update, call_delete, obey_calls,
}
use friend_net.Client.Multi.Sync.{multi_get_by_uuid-obey_calls}

abbrev home : ServerRecord
home = record {
  name = codes "home";
  address = codes "a:1";
  room = codes "r";
  username = codes "u";
  password = codes "p";
}

abbrev moved : UpdateServerFields
moved = record {
  name = none;
  address = some (codes "b:2");
  room = none;
  username = none;
  password = none;
}

abbrev no_faults : CreateFaults
no_faults = record { insert = false; select = false; instance = false; cleanup = false }

-- One server moves, another is multi_created and deleted, and an update fails.
abbrev some_calls : List MultiCall
some_calls =
    call_update false (codes "1") moved
    ∷ call_create no_faults (codes "2") home
    ∷ call_delete false (codes "2")
    ∷ call_update true (codes "1") moved
    ∷ []

abbrev one_row : Dict Bytes ServerRecord
one_row = (codes "1", home) ∷ []

some_calls_run :
    multi_get_by_uuid (codes "1") (obey_calls some_calls (new_multi_client one_row))
    ≡ some (record home { address = codes "b:2" })
unfolding multi_get_by_uuid obey_calls new_multi_client get put delete
some_calls_run = refl

multi_get_by_uuid-obey_calls_example :
    (get (obey_calls some_calls (new_multi_client one_row)).servers (codes "1")
      ≡ get (obey_calls some_calls (new_multi_client one_row)).storage (codes "1"))
    × (multi_get_by_uuid (codes "1") (obey_calls some_calls (new_multi_client one_row)) ≡ (
        if (obey_calls some_calls (new_multi_client one_row)).is_closed
        then none
        else get (obey_calls some_calls (new_multi_client one_row)).storage (codes "1")))
multi_get_by_uuid-obey_calls_example =
    multi_get_by_uuid-obey_calls one_row some_calls (codes "1") (tt, (refl, (refl, (tt, tt))))

-- Where the deletion fails, the server is managed no more, and its connection is not closed.
delete_fails :
    delete_by_uuid true (codes "1") (new_multi_client one_row)
    ≡ (record { is_closed = false; servers = []; closed = []; storage = one_row }, some err_storage)
unfolding delete_by_uuid new_multi_client put delete
delete_fails = refl
