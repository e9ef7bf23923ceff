-- ===== src/Examples/Sockets.antt =====
-- Connections and messages on which src/web/websocket_client.cc and src/web/websocket_server.cc run.
use buenzli_coin.Base.{ℕ, ◌==◌, ◌≡◌, refl, Bool, List, [], ◌∷◌, ◌++◌, Bytes, codes}
use buenzli_coin.Base.Exec.{done}
use buenzli_coin.Examples.{Value, bytes, json}
use buenzli_coin.Web.WebSocketClient.{decode, wrote, write_failed, received}
use buenzli_coin.Web.WebSocketClient.Exchange.{resting}
use buenzli_coin.Web.WebSocketClient.{read_failed}
use buenzli_coin.Web.WebSocketClient.Sessions.{Session}
use buenzli_coin.Web.WebSocketClient.Sync.{wait, ready, waits, send_sync, WaitsFor, send_sync_lem}

abbrev silent : ℕ → Bool × Bytes → List (Value × ℕ)
silent cb answer = []

abbrev again : ℕ → Bool × Bytes → List (Value × ℕ)
again cb answer = (bytes (codes "b"), 2) ∷ []

-- Two calls of WebSocketPeer::send; the read of the first answer fails.
abbrev sessions : List (Session Value ℕ)
sessions =
    (bytes (codes "a"), 1, wrote ∷ read_failed ∷ [])
    ∷ (bytes (codes "b"), 2, wrote ∷ received (codes "y") ∷ [])
    ∷ []

-- Callback 1 fulfils the promise.
abbrev is_first : ℕ → Bool
is_first cb = cb == 1

never_called : wait is_first [] ≡ waits
unfolding wait
never_called = refl

send_sync_lem_example :
    (send_sync json silent is_first
        (bytes (codes "a"))
        1
        (wrote ∷ received (codes "x") ∷ wrote ∷ [])
        (resting json silent (λ cb a. refl) [] [])
      ≡ done (
        ready (decode json (codes "x")).0 (decode json (codes "x")).1,
        resting json silent
            (λ cb a. refl)
            ([] ++ codes "a" ∷ [])
            ([] ++ (1, (decode json (codes "x")).0, (decode json (codes "x")).1) ∷ []),
      ))
    × WaitsFor json silent is_first
        (λ cb a. refl)
        (send_sync json silent is_first
          (bytes (codes "a"))
          1
          (write_failed ∷ wrote ∷ [])
          (resting json silent (λ cb a. refl) [] []))
    × WaitsFor json silent is_first
        (λ cb a. refl)
        (send_sync json silent is_first
          (bytes (codes "a"))
          1
          (wrote ∷ read_failed ∷ wrote ∷ [])
          (resting json silent (λ cb a. refl) [] []))
send_sync_lem_example =
    send_sync_lem json silent is_first (λ cb a. refl) (bytes (codes "a")) 1 [] [] (codes "x")
      (wrote ∷ []) refl never_called (tt, tt)
