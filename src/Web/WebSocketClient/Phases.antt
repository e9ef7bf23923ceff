-- ===== src/Web/WebSocketClient/Phases.antt =====
-- The phases of a Connection of src/web/websocket_client.cc.
use mathlib.Core.List.{append-nil, append_assoc}
use buenzli_coin.Base.{
  ◌≡◌, refl, sym, ap, subst, ◌∙◌, Bool, true, false, ◌&&◌, List, [], ◌∷◌, ◌++◌, Option, none, some,
  Bytes, ltb, length, length-append, is_empty, arith,
}
use buenzli_coin.Base.Exec.{Exec, done, throws, undefined}
use buenzli_coin.Json.{JsonLib}
use buenzli_coin.Web.WebSocketClient.{
  Connection, Event, sends, wrote, write_failed, read_failed, received, decode, write, send, read,
  on_write, send_all, write_next, on_read, on_event, on_events,
}

abbrev is_some : {A : Type 0} → Option A → Bool
is_some none = false
is_some (some a) = true

-- The read of an answer has not ended, and no request is queued.
abbrev pub awaits_last : {Json Callback : Type 0} → Connection Json Callback → Bool
awaits_last c = is_some c.reading && is_empty c.queue

-- The calls of `send`.
abbrev pub requests : {Json Callback : Type 0} → List (Event Json Callback) → List (Json × Callback)
requests [] = []
requests (sends request cb ∷ es) = (request, cb) ∷ requests es
requests (wrote ∷ es) = requests es
requests (write_failed ∷ es) = requests es
requests (read_failed ∷ es) = requests es
requests (received text ∷ es) = requests es

module _ (lib : JsonLib) {Callback : Type 0} where
  open lib use {Json, dump}

  abbrev pub texts : List (Json × Callback) → List Bytes
  texts [] = []
  texts ((request, cb) ∷ q) = dump request ∷ texts q

  pub texts-append : (q q' : List (Json × Callback)) → texts (q ++ q') ≡ texts q ++ texts q'
  texts-append [] q' = refl
  texts-append ((r, cb) ∷ q) q' = ap (λ l. dump r ∷ l) (texts-append q q')

  -- Between requests; a request is being written; an answer is being read; a request is left in the
  -- queue and nothing goes on. `all` is the texts of the requests so far.
  pub data IsOrderly (all : List Bytes) : Connection Json Callback → Type 0 where
    idle :
        {s : List Bytes} {k : List (Callback × Bool × Bytes)}
        → s ≡ all
        → IsOrderly all
            (record { queue = []; writing = none; reading = none; sent = s; called = k })
    in_write :
        {r : Json} {cb : Callback} {q : List (Json × Callback)} {s : List Bytes}
        {k : List (Callback × Bool × Bytes)}
        → s ++ texts q ≡ all
        → IsOrderly all (record {
          queue = (r, cb) ∷ q;
          writing = some cb;
          reading = none;
          sent = s;
          called = k;
        })
    in_read :
        {cb : Callback} {q : List (Json × Callback)} {s : List Bytes}
        {k : List (Callback × Bool × Bytes)}
        → s ++ texts q ≡ all
        → IsOrderly all
            (record { queue = q; writing = none; reading = some cb; sent = s; called = k })
    stuck :
        {r : Json × Callback} {q : List (Json × Callback)} {s : List Bytes}
        {k : List (Callback × Bool × Bytes)} (unsent : List Bytes)
        → s ++ unsent ≡ all
        → IsOrderly all
            (record { queue = r ∷ q; writing = none; reading = none; sent = s; called = k })

  module _ (reacts : Callback → Bool × Bytes → List (Json × Callback)) where
    abbrev pub Conn : Type 0
    Conn = Connection Json Callback

    -- The event has a defined result, which is orderly.
    abbrev pub Goes : List Bytes → Exec Conn → Type 0
    Goes all r = (c : Conn) × (r ≡ done c) × IsOrderly all c

    -- The texts of the requests after an event.
    abbrev grown : List Bytes → Event Json Callback → List Bytes
    grown all (sends r cb) = all ++ dump r ∷ []
    grown all wrote = all
    grown all write_failed = all
    grown all read_failed = all
    grown all (received text) = all

    -- A call of `send` does not come while the last answer is awaited.
    abbrev pub Admits : Event Json Callback → Conn → Type 0
    Admits (sends request cb) c = awaits_last c ≡ false
    Admits wrote c = Unit
    Admits write_failed c = Unit
    Admits read_failed c = Unit
    Admits (received text) c = Unit

    pub several :
        {A : Type 0} (x : A) (q : List A) (y : A) → ltb 1 (length (x ∷ q ++ y ∷ [])) ≡ true
    several x q y = ground (arith, length-append q (y ∷ []))

    later_texts :
        (s all : List Bytes) (q : List (Json × Callback)) (r : Json) (cb : Callback)
        → s ++ texts q ≡ all
        → s ++ texts (q ++ (r, cb) ∷ []) ≡ all ++ dump r ∷ []
    later_texts s all q r cb e =
        ap (λ l. s ++ l) (texts-append q ((r, cb) ∷ []))
        ∙ sym (append_assoc s (texts q) (dump r ∷ []))
        ∙ ap (λ l. l ++ dump r ∷ []) e

    send-IsOrderly :
        (all : List Bytes) (r : Json) (cb : Callback) (c : Conn)
        → awaits_last c ≡ false
        → IsOrderly all c
        → Goes (all ++ dump r ∷ []) (send lib reacts r cb c)
    unfolding send write
    send-IsOrderly all r cb _ a (idle e) =
        (_, refl, in_write (append-nil _ ∙ ap (λ l. l ++ dump r ∷ []) e))
    send-IsOrderly all r cb _ a (in_write {r = r'} {cb = cb'} {q} {s} e) =
        rw (several (r', cb') q (r, cb)) (_, refl, in_write (later_texts s all q r cb e))
    send-IsOrderly all r cb _ a (in_read {q = []} e) = cc
    send-IsOrderly all r cb _ a (in_read {q = x ∷ q} {s} e) =
        rw (several x q (r, cb)) (_, refl, in_read (later_texts s all (x ∷ q) r cb e))
    send-IsOrderly all r cb _ a (stuck {r = x} {q} unsent e) = rw (several x q (r, cb)) (
      _,
      refl,
      stuck (unsent ++ dump r ∷ [])
          (sym (append_assoc _ unsent (dump r ∷ [])) ∙ ap (λ l. l ++ dump r ∷ []) e),
    )

    -- No callback sends a request.
    abbrev pub IsSilent : Type 0
    IsSilent = (cb : Callback) (answer : Bool × Bytes) → reacts cb answer ≡ []

    on_read-IsOrderly :
        (all : List Bytes) (text : Bytes) (cb : Callback) (q : List (Json × Callback))
        (s : List Bytes) (k : List (Callback × Bool × Bytes))
        → IsSilent
        → s ++ texts q ≡ all
        → Goes all (
            on_read lib reacts cb text
              (record { queue = q; writing = none; reading = some cb; sent = s; called = k }))
    unfolding on_read send_all write_next write
    on_read-IsOrderly all text cb [] s k silent e =
        rw (silent cb (decode lib text)) (_, refl, idle (sym (append-nil s) ∙ e))
    on_read-IsOrderly all text cb ((r, cb') ∷ q) s k silent e =
        rw (silent cb (decode lib text))
          (_, refl, in_write (append_assoc s (dump r ∷ []) (texts q) ∙ e))

    on_event-IsOrderly :
        (all : List Bytes) (e : Event Json Callback) (c : Conn)
        → IsSilent
        → Admits e c
        → IsOrderly all c
        → Goes (grown all e) (on_event lib reacts e c)
    unfolding on_event on_write read
    on_event-IsOrderly all (sends r cb) c silent a o = send-IsOrderly all r cb c a o
    on_event-IsOrderly all wrote _ silent a (idle e) = (_, refl, idle (e))
    on_event-IsOrderly all wrote _ silent a (in_write e) = (_, refl, in_read (e))
    on_event-IsOrderly all wrote _ silent a (in_read e) = (_, refl, in_read (e))
    on_event-IsOrderly all wrote _ silent a (stuck unsent e) = (_, refl, stuck unsent (e))
    on_event-IsOrderly all write_failed _ silent a (idle e) = (_, refl, idle (e))
    on_event-IsOrderly all write_failed _ silent a (in_write {q} e) = (_, refl, stuck (texts q) (e))
    on_event-IsOrderly all write_failed _ silent a (in_read e) = (_, refl, in_read (e))
    on_event-IsOrderly all write_failed _ silent a (stuck unsent e) = (_, refl, stuck unsent (e))
    on_event-IsOrderly all read_failed _ silent a (idle e) = (_, refl, idle (e))
    on_event-IsOrderly all read_failed _ silent a (in_write e) = (_, refl, in_write (e))
    on_event-IsOrderly all read_failed _ silent a (in_read {q = []} {s} e) =
        (_, refl, idle (sym (append-nil s) ∙ e))
    on_event-IsOrderly all read_failed _ silent a (in_read {q = x ∷ q} e) =
        (_, refl, stuck (texts (x ∷ q)) (e))
    on_event-IsOrderly all read_failed _ silent a (stuck unsent e) = (_, refl, stuck unsent (e))
    on_event-IsOrderly all (received text) _ silent a (idle e) = (_, refl, idle (e))
    on_event-IsOrderly all (received text) _ silent a (in_write e) = (_, refl, in_write (e))
    on_event-IsOrderly all (received text) _ silent a (in_read {cb} {q} {s} {k} e) =
        on_read-IsOrderly all text cb q s k silent (e)
    on_event-IsOrderly all (received text) _ silent a (stuck unsent e) = (_, refl, stuck unsent (e))

    -- Every call of `send` comes at a time when it is admitted.
    unfoldable pub IsTimely : List (Event Json Callback) → Exec Conn → Type 0
    unfolding on_event
    IsTimely [] r = Unit
    IsTimely (e ∷ es) (done c) = Admits e c × IsTimely es (on_event lib reacts e c)
    IsTimely (e ∷ es) (throws x) = Unit
    IsTimely (e ∷ es) undefined = Unit

    total :
        (all : List Bytes) (e : Event Json Callback) (es : List (Event Json Callback))
        → grown all e ++ texts (requests es) ≡ all ++ texts (requests (e ∷ es))
    total all (sends r cb) es = append_assoc all (dump r ∷ []) (texts (requests es))
    total all wrote es = refl
    total all write_failed es = refl
    total all read_failed es = refl
    total all (received text) es = refl

    -- If no callback sends a request, and none is sent while the last answer is awaited, then the
    -- connection runs into no undefined behaviour, whatever operations end and fail, and in whatever
    -- order: it is always between requests, writing one, reading one answer, or stuck, and the texts
    -- written so far are the first ones of the requests sent so far, in their order.
    pub on_events-IsOrderly :
        (all : List Bytes) (es : List (Event Json Callback)) (c : Conn)
        → IsSilent
        → IsTimely es (done c)
        → IsOrderly all c
        → Goes (all ++ texts (requests es)) (on_events lib reacts es c)
    unfolding on_events IsTimely
    on_events-IsOrderly all [] c silent a o =
        (c, refl, subst (λ l. IsOrderly l c) (sym (append-nil all)) o)
    on_events-IsOrderly all (e ∷ es) c silent a o =
        let (c', goes, o') = on_event-IsOrderly all e c silent a.0 o in
        let rest =
          on_events-IsOrderly (grown all e) es c' silent (subst (IsTimely es) goes a.1) o' in
        rw goes (subst (λ l. Goes l (on_events lib reacts es c')) (total all e es) rest)
