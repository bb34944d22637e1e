-- ===== src/Server/Proxy/Tests.antt =====
-- server/room/proxy.go: a proxy whose target leaves while it is closed.
use friend_net.Prelude.{◌≡◌, refl, true, false, some, List, [], ◌∷◌, codes}
use friend_net.Prelude.Dict.{get, text_eq}
use friend_net.Server.Room.{new_room, get_client_by_username}
use friend_net.Server.Proxy.{
  new_proxy, origin_bidi, target_bidi, begin_run, err_proxy_closed, Call, closes, begins, ends,
  stream_error, proxy_close, end_run, after_calls, client_not_online, on_open_outbound_proxy,
}
use friend_net.Server.Proxy.Once.{after_calls_lem}
use friend_net.Common.Names.{normalize_username}

abbrev busy : List Call
busy = begins ∷ closes false true ∷ ends stream_error false false ∷ closes false false ∷ []

after_calls_lem_example :
    ((after_calls busy new_proxy).closed ≡ origin_bidi ∷ target_bidi ∷ [])
    × (begin_run (after_calls busy new_proxy) ≡ some err_proxy_closed)
unfolding after_calls proxy_close end_run
after_calls_lem_example = after_calls_lem busy

nobody_there :
    on_open_outbound_proxy (λ c. c) (λ client. true) new_room (codes "bob")
    ≡ client_not_online (codes "bob")
unfolding on_open_outbound_proxy normalize_username get_client_by_username get
nobody_there = refl
