-- ===== src/Web/WebSocketClient/Exchange.antt =====
-- Requests that are sent and then answered one after the other (src/web/websocket_client.cc).
use mathlib.Core.List.{append-nil, append_assoc}
use buenzli_coin.Base.{
  ◌≡◌, refl, sym, ap, ◌∙◌, Bool, List, [], ◌∷◌, ◌++◌, none, some, Bytes, length, arith,
}
use buenzli_coin.Base.Exec.{done, bind_exec}
use buenzli_coin.Json.{JsonLib}
use buenzli_coin.Web.WebSocketClient.{
  Connection, Event, wrote, received, decode, write, send, read, on_write, send_all, write_next,
  on_read, on_event, on_events,
}
use buenzli_coin.Web.WebSocketClient.Phases.{IsSilent, texts, several}

module _ (lib : JsonLib) {Callback : Type 0} where
  open lib use {Json, dump}

  -- The calls of callbacks that answers make.
  abbrev pub answered : List (Json × Callback) → List Bytes → List (Callback × Bool × Bytes)
  answered [] texts = []
  answered (r ∷ q) [] = []
  answered ((r, cb) ∷ q) (a ∷ bs) = (cb, (decode lib a).0, (decode lib a).1) ∷ answered q bs

  -- Every request is written and then answered.
  abbrev pub exchange : List Bytes → List (Event Json Callback)
  exchange [] = []
  exchange (a ∷ bs) = wrote ∷ received a ∷ exchange bs

  module _ (reacts : Callback → Bool × Bytes → List (Json × Callback))
      (silent : IsSilent lib reacts) where
    abbrev Conn : Type 0
    Conn = Connection Json Callback

    abbrev writing :
        List (Json × Callback)
        → Json × Callback
        → List Bytes
        → List (Callback × Bool × Bytes)
        → Conn
    writing q (r, cb) s k = record {
      queue = (r, cb) ∷ q;
      writing = some cb;
      reading = none;
      sent = s;
      called = k;
    }

    abbrev pub resting : List Bytes → List (Callback × Bool × Bytes) → Conn
    resting s k = record { queue = []; writing = none; reading = none; sent = s; called = k }

    drained :
        (r : Json × Callback) (q : List (Json × Callback)) (a : Bytes) (bs : List Bytes)
        (s : List Bytes) (k : List (Callback × Bool × Bytes))
        → length q ≡ length bs
        → on_events lib reacts (exchange (a ∷ bs)) (writing q r s k)
          ≡ done (resting (s ++ texts lib q) (k ++ answered (r ∷ q) (a ∷ bs)))
    unfolding on_events on_event on_write read on_read send_all write_next write
    drained (r, cb) [] a [] s k e = rw (silent cb (decode lib a), append-nil s) refl
    drained (r, cb) [] a (b ∷ bs) s k e = absurd (omega (arith, e))
    drained (r, cb) (x ∷ q) a [] s k e = absurd (omega (arith, e))
    drained (r, cb) ((r', cb') ∷ q) a (b ∷ bs) s k e = rw (silent cb (decode lib a)) (
        drained (r', cb') q b bs (s ++ dump r' ∷ [])
          (k ++ (cb, (decode lib a).0, (decode lib a).1) ∷ []) (omega (arith, e))
        ∙ rw (append_assoc s, append_assoc k) refl)

    queued :
        (r : Json × Callback) (q rs : List (Json × Callback)) (s : List Bytes)
        (k : List (Callback × Bool × Bytes))
        → send_all lib reacts rs (writing q r s k) ≡ done (writing (q ++ rs) r s k)
    unfolding send_all send
    queued r q [] s k = ap (λ l. done (writing l r s k)) (sym (append-nil q))
    queued r q ((r', cb') ∷ rs) s k = rw (several lib reacts r q (r', cb')) (
        queued r (q ++ (r', cb') ∷ []) rs s k
        ∙ ap (λ l. done (writing l r s k)) (append_assoc q ((r', cb') ∷ []) rs))

    -- However many requests are sent while none is on its way: if every write then ends well, as many
    -- answers arrive, and no callback sends a request, then all requests are written, each once and in
    -- their order, every callback is called once, with what its answer says, and nothing is left to do.
    pub exchange_lem :
        (calls : List (Json × Callback)) (answers : List Bytes) (s : List Bytes)
        (k : List (Callback × Bool × Bytes))
        → length calls ≡ length answers
        → bind_exec
            (send_all lib reacts calls (resting s k))
            (on_events lib reacts (exchange answers))
          ≡ done (resting (s ++ texts lib calls) (k ++ answered calls answers))
    unfolding send_all on_events send write
    exchange_lem [] [] s k e = rw (append-nil s, append-nil k) refl
    exchange_lem [] (a ∷ bs) s k e = absurd (omega (arith, e))
    exchange_lem (x ∷ q) [] s k e = absurd (omega (arith, e))
    exchange_lem ((r, cb) ∷ rs) (a ∷ bs) s k e =
        rw (queued (r, cb) [] rs (s ++ dump r ∷ []) k) (
          drained (r, cb) rs a bs (s ++ dump r ∷ []) k (omega (arith, e))
          ∙ rw (append_assoc s) refl)
