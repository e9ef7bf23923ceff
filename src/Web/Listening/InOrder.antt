-- ===== src/Web/Listening/InOrder.antt =====
-- The connections of a server of src/web against a server that handles one message after the other.
use mathlib.Core.List.{append-nil, append_assoc}
use buenzli_coin.Base.{
  ℕ, zero, suc, ◌≡◌, ◌≢◌, refl, sym, ap, ◌∙◌, Bool-cases, inl, inr, List, [], ◌∷◌, ◌++◌, Option,
  none, some, get_elem?, ◌==◌, if◌then◌else◌, arith,
}
use buenzli_coin.Web.Handling.{Response, responds, escapes, no_response}
use buenzli_coin.Web.Listening.{
  Session, running, thrown, held, Server, Event, connected, connect_failed, ends, Reaction, goes,
  handles, stays, set_elem, Protocol, on_response, on_reaction, on_end, serve_event, serve_events,
}

-- What the stream of a connection was given to write.
abbrev pub written_by : {Phase Reply : Type 0} → Option (Session Phase Reply) → List Reply
written_by none = []
written_by (some c) = c.written

abbrev pub written_on : {Phase Reply : Type 0} → ℕ → List (Session Phase Reply) → List Reply
written_on i cs = written_by (get_elem? cs i)

-- The replies for one connection.
abbrev pub replies_to : {Reply : Type 0} → ℕ → List (ℕ × Reply) → List Reply
replies_to i [] = []
replies_to i ((j, r) ∷ rs) = if j == i then r ∷ replies_to i rs else replies_to i rs

module _ {Phase Reply : Type 0} where
  written-new :
      (i : ℕ) (cs : List (Session Phase Reply)) (p : Phase)
      → written_on i (cs ++ record { phase = p; written = [] } ∷ []) ≡ written_on i cs
  written-new zero [] p = refl
  written-new (suc i) [] p = refl
  written-new zero (c ∷ cs) p = refl
  written-new (suc i) (c ∷ cs) p = written-new i cs p

  -- Another connection at a number, which has been given the same to write.
  written-moved :
      (i j : ℕ) (cs : List (Session Phase Reply)) (c c' : Session Phase Reply)
      → get_elem? cs j ≡ some c
      → c'.written ≡ c.written
      → written_on i (set_elem j c' cs) ≡ written_on i cs
  written-moved i j [] c c' h w = refl
  written-moved zero zero (x ∷ cs) c c' h w = w ∙ sym (ap written_by h)
  written-moved (suc i) zero (x ∷ cs) c c' h w = refl
  written-moved zero (suc j) (x ∷ cs) c c' h w = refl
  written-moved (suc i) (suc j) (x ∷ cs) c c' h w = written-moved i j cs c c' h w

  -- The same, with one reply more.
  written-replied :
      (i j : ℕ) (cs : List (Session Phase Reply)) (c c' : Session Phase Reply) (r : Reply)
      → get_elem? cs j ≡ some c
      → c'.written ≡ c.written ++ r ∷ []
      → written_on i (set_elem j c' cs) ≡ written_on i cs ++ replies_to i ((j, r) ∷ [])
  written-replied i j [] c c' r h w = cc
  written-replied zero zero (x ∷ cs) c c' r h w = w ∙ sym (ap (λ o. written_by o ++ r ∷ []) h)
  written-replied (suc i) zero (x ∷ cs) c c' r h w = ground (arith, append-nil (written_on i cs))
  written-replied zero (suc j) (x ∷ cs) c c' r h w = ground (arith, append-nil x.written)
  written-replied (suc i) (suc j) (x ∷ cs) c c' r h w =
      written-replied i j cs c c' r h w ∙ ap (λ l. written_on i cs ++ l) (ground arith)

abbrev pub cons_reply :
    {State Reply : Type 0}
    → ℕ × Reply
    → Response State (List (ℕ × Reply))
    → Response State (List (ℕ × Reply))
cons_reply r (responds rs s) = responds (r ∷ rs) s
cons_reply r (escapes s) = escapes s
cons_reply r no_response = no_response

-- A reply to connection `i`, and those that follow from the state that it leaves.
abbrev pub and_then_replies :
    {State Reply : Type 0}
    → ℕ
    → Response State Reply
    → (State → Response State (List (ℕ × Reply)))
    → Response State (List (ℕ × Reply))
and_then_replies i (responds r s) rest = cons_reply (i, r) (rest s)
and_then_replies i (escapes s) rest = escapes s
and_then_replies i no_response rest = no_response

module _ {Input State Reply : Type 0} (answer : Input → State → Response State Reply) where
  -- The messages, each with the number of its connection, handled one after the other.
  unfoldable pub in_order : List (ℕ × Input) → State → Response State (List (ℕ × Reply))
  in_order [] s = responds [] s
  in_order ((i, x) ∷ xs) s = and_then_replies i (answer x s) (in_order xs)

abbrev pub heard_more : {Input : Type 0} → ℕ → Option Input → List (ℕ × Input) → List (ℕ × Input)
heard_more i none xs = xs
heard_more i (some x) xs = (i, x) ∷ xs

-- What an end brings, if it brings something to handle.
abbrev pub heard : {End Input : Type 0} → (End → Option Input) → List (Event End) → List (ℕ × Input)
heard input [] = []
heard input (connected ∷ es) = heard input es
heard input (connect_failed ∷ es) = heard input es
heard input (ends i e ∷ es) = heard_more i (input e) (heard input es)

abbrev pub handled : {Phase Input : Type 0} → Reaction Phase Input → Option Input
handled (goes p) = none
handled (handles x) = some x
handled stays = none

module _ {Phase End Input State Reply : Type 0} (protocol : Protocol Phase End Input)
    (answer : Input → State → Response State Reply) where
  open protocol use {start, writing, react}

  abbrev pub Listener : Type 0
  Listener = Server Phase State Reply

  abbrev pub Waits : Option (Session Phase Reply) → End → Type 0
  Waits none e = ⊥
  Waits (some c) e = react c.phase e ≢ stays

  -- An operation that ends is on its way.
  abbrev pub Occurs : Event End → Listener → Type 0
  Occurs connected srv = Unit
  Occurs connect_failed srv = Unit
  Occurs (ends i e) srv = Waits (get_elem? srv.sessions i) e

  -- The events come while the server runs, and every operation that ends is on its way.
  unfoldable pub Occur : List (Event End) → Listener → Type 0
  unfolding serve_event
  Occur [] srv = Unit
  Occur (e ∷ es) srv =
      (srv.run ≡ running) × (Occurs e srv × Occur es (serve_event protocol answer e srv))

  -- From `srv` the server has come to `srv'`, which has done what `r` says.
  abbrev pub Agrees : Listener → Listener → Response State (List (ℕ × Reply)) → Type 0
  Agrees srv srv' (responds rs s) =
      (srv'.run ≡ running)
      × ((srv'.state ≡ s)
          × ((i : ℕ) → written_on i srv'.sessions ≡ written_on i srv.sessions ++ replies_to i rs))
  Agrees srv srv' (escapes s) = (srv'.run ≡ thrown) × (srv'.state ≡ s)
  Agrees srv srv' no_response = srv'.run ≡ held

  replied :
      (j : ℕ) (r : Reply) (i : ℕ) (rs : List (ℕ × Reply)) (l : List Reply)
      → (l ++ replies_to i ((j, r) ∷ [])) ++ replies_to i rs ≡ l ++ replies_to i ((j, r) ∷ rs)
  replied j r i rs l = elim (Bool-cases (j == i)) [
    | inl e ↦ rw e (append_assoc l (r ∷ []) _)
    | inr e ↦ rw (e, append-nil l) refl
  ]

  Agrees-quiet :
      (srv srv' srv'' : Listener) (r : Response State (List (ℕ × Reply)))
      → srv'.state ≡ srv.state
      → ((i : ℕ) → written_on i srv'.sessions ≡ written_on i srv.sessions)
      → Agrees srv' srv'' r
      → Agrees srv srv'' r
  Agrees-quiet srv srv' srv'' (responds rs s) e w (runs, (left, h)) =
      (runs, (left, λ i. h i ∙ ap (λ l. l ++ replies_to i rs) (w i)))
  Agrees-quiet srv srv' srv'' (escapes s) e w h = h
  Agrees-quiet srv srv' srv'' no_response e w h = h

  Agrees-replied :
      (j : ℕ) (r : Reply) (srv srv' srv'' : Listener) (rest : Response State (List (ℕ × Reply)))
      → ((i : ℕ)
          → written_on i srv'.sessions ≡ written_on i srv.sessions ++ replies_to i ((j, r) ∷ []))
      → Agrees srv' srv'' rest
      → Agrees srv srv'' (cons_reply (j, r) rest)
  Agrees-replied j r srv srv' srv'' (responds rs s) w (runs, (left, h)) =
      (runs, (left, λ i. h i ∙ (ap (λ l. l ++ replies_to i rs) (w i) ∙ replied j r i rs _)))
  Agrees-replied j r srv srv' srv'' (escapes s) w h = h
  Agrees-replied j r srv srv' srv'' no_response w h = h

  module _ (input : End → Option Input)
      (brings : (p : Phase) (e : End) → react p e ≢ stays → input e ≡ handled (react p e)) where
    -- Nothing happens after the run has ended.
    ended :
        (es : List (Event End)) (srv : Listener)
        → srv.run ≢ running
        → Occur es srv
        → serve_events protocol answer es srv ≡ srv
    unfolding serve_events Occur
    ended [] srv n o = refl
    ended (e ∷ es) srv n o = absurd (n o.0)

    -- The rest of the events goes well, from any server.
    abbrev Follows : List (Event End) → Type 0
    Follows es =
        (srv : Listener)
        → srv.run ≡ running
        → Occur es srv
        → Agrees srv (serve_events protocol answer es srv)
            (in_order answer (heard input es) srv.state)

    on_response-in_order :
        (i : ℕ) (c : Session Phase Reply) (es : List (Event End)) (srv : Listener)
        (r : Response State Reply)
        → Follows es
        → get_elem? srv.sessions i ≡ some c
        → srv.run ≡ running
        → Occur es (on_response protocol answer i c r srv)
        → Agrees srv
            (serve_events protocol answer es (on_response protocol answer i c r srv))
            (and_then_replies i r (in_order answer (heard input es)))
    unfolding on_response
    on_response-in_order i c es srv (responds r s) ih q runs o =
        Agrees-replied i r srv (on_response protocol answer i c (responds r s) srv) _ _
          (λ j. written-replied j i srv.sessions c _ r q refl) (ih _ runs o)
    on_response-in_order i c es srv (escapes s) ih q runs o =
        rw (ended es (record srv { run = thrown; state = s }) (λ h. cc) o) (refl, refl)
    on_response-in_order i c es srv no_response ih q runs o =
        rw (ended es (record srv { run = held }) (λ h. cc) o) refl

    on_reaction-in_order :
        (i : ℕ) (c : Session Phase Reply) (es : List (Event End)) (srv : Listener)
        (x : Reaction Phase Input)
        → Follows es
        → get_elem? srv.sessions i ≡ some c
        → srv.run ≡ running
        → x ≢ stays
        → Occur es (on_reaction protocol answer i c x srv)
        → Agrees srv
            (serve_events protocol answer es (on_reaction protocol answer i c x srv))
            (in_order answer (heard_more i (handled x) (heard input es)) srv.state)
    unfolding on_reaction in_order
    on_reaction-in_order i c es srv (goes p) ih q runs n o =
        Agrees-quiet srv (on_reaction protocol answer i c (goes p) srv) _ _ refl
          (λ j. written-moved j i srv.sessions c _ q refl) (ih _ runs o)
    on_reaction-in_order i c es srv (handles x) ih q runs n o =
        on_response-in_order i c es srv (answer x srv.state) ih q runs o
    on_reaction-in_order i c es srv stays ih q runs n o = absurd (n refl)

    on_end-in_order :
        (i : ℕ) (e : End) (es : List (Event End)) (srv : Listener)
        (o : Option (Session Phase Reply))
        → Follows es
        → get_elem? srv.sessions i ≡ o
        → srv.run ≡ running
        → Waits o e
        → Occur es (on_end protocol answer i e o srv)
        → Agrees srv
            (serve_events protocol answer es (on_end protocol answer i e o srv))
            (in_order answer (heard input (ends i e ∷ es)) srv.state)
    unfolding on_end
    on_end-in_order i e es srv none ih q runs w o = absurd w
    on_end-in_order i e es srv (some c) ih q runs w o =
        rw (brings c.phase e w) (on_reaction-in_order i c es srv (react c.phase e) ih q runs w o)

    -- However the operations of all connections end: the server does what one does that handles the
    -- messages one after the other, in the order in which they arrived on any connection.
    pub serve_events-in_order :
        (es : List (Event End)) (srv : Listener)
        → srv.run ≡ running
        → Occur es srv
        → Agrees srv
            (serve_events protocol answer es srv)
            (in_order answer (heard input es) srv.state)
    unfolding serve_events in_order Occur serve_event
    serve_events-in_order [] srv runs o = (runs, (refl, λ i. sym (append-nil _)))
    serve_events-in_order (connected ∷ es) srv runs (_, (_, o)) =
        Agrees-quiet srv (serve_event protocol answer connected srv) _ _ refl
          (λ i. written-new i srv.sessions start) (serve_events-in_order es _ runs o)
    serve_events-in_order (connect_failed ∷ es) srv runs (_, (_, o)) =
        serve_events-in_order es srv runs o
    serve_events-in_order (ends i e ∷ es) srv runs (_, (w, o)) =
        on_end-in_order i e es srv (get_elem? srv.sessions i) (serve_events-in_order es) refl runs w
          o
