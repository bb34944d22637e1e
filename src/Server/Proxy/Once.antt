-- ===== src/Server/Proxy/Once.antt =====
-- The streams of a proxy of server/room/proxy.go, under every order of Close and Run.
use friend_net.Prelude.{◌≡◌, refl, Bool, none, some, List, [], ◌∷◌, if◌then◌else◌, arith}
use friend_net.Server.Proxy.{
  ClientProxy, new_proxy, origin_bidi, target_bidi, proxy_close, begin_run, err_proxy_closed, Call,
  closes, begins, ends, end_run, after_calls,
}

-- The streams are closed exactly where the flag is set, the target's first.
abbrev ClosedOnce : ClientProxy → Type 0
ClosedOnce p = p.closed ≡ (if p.is_closed then origin_bidi ∷ target_bidi ∷ [] else [])

proxy_close-ClosedOnce :
    (a b : Bool) (p : ClientProxy) → ClosedOnce p → ClosedOnce (proxy_close a b p).0
unfolding proxy_close
proxy_close-ClosedOnce a b p h = ground (arith, h)

after_calls-ClosedOnce :
    (calls : List Call) (p : ClientProxy) → ClosedOnce p → ClosedOnce (after_calls calls p)
unfolding after_calls end_run
after_calls-ClosedOnce [] p h = h
after_calls-ClosedOnce (closes a b ∷ calls) p h =
    after_calls-ClosedOnce calls (proxy_close a b p).0 (proxy_close-ClosedOnce a b p h)
after_calls-ClosedOnce (begins ∷ calls) p h = after_calls-ClosedOnce calls p h
after_calls-ClosedOnce (ends ending a b ∷ calls) p h =
    after_calls-ClosedOnce calls (proxy_close a b p).0 (proxy_close-ClosedOnce a b p h)

-- Whoever closes a proxy, and however often and in whatever order with Run, each of its streams is closed
-- exactly once, or neither; once they are closed, Run refuses to start.
pub after_calls_lem :
    (calls : List Call)
    → ((after_calls calls new_proxy).closed
        ≡ (if (after_calls calls new_proxy).is_closed then origin_bidi ∷ target_bidi ∷ [] else []))
      × (begin_run (after_calls calls new_proxy)
          ≡ (if (after_calls calls new_proxy).is_closed then some err_proxy_closed else none))
unfolding begin_run
after_calls_lem calls = (after_calls-ClosedOnce calls new_proxy refl, refl)
