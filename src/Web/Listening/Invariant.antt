-- ===== src/Web/Listening/Invariant.antt =====
-- What holds of the state of a server of src/web, and of every one of its connections, at all times.
use mathlib.Core.Option.{some-injective}
use buenzli_coin.Base.{
  subst, ℕ, zero, suc, ◌≡◌, refl, List, [], ◌∷◌, ◌++◌, Option, none, some, get_elem?, All,
  All-append,
}
use buenzli_coin.Web.Handling.{Response, responds, escapes, no_response, LeavesState}
use buenzli_coin.Web.Listening.{
  Session, stopped, Server, Event, connected, connect_failed, ends, Reaction, goes, handles, stays,
  set_elem, Protocol, on_response, on_reaction, on_end, serve_event, serve_events,
}

All-get :
    {A : Type 0} (P : A → Type 0) (i : ℕ) (xs : List A) (x : A)
    → All P xs
    → get_elem? xs i ≡ some x
    → P x
All-get P i [] x h e = cc
All-get P zero (y ∷ xs) x h e = subst P (some-injective _ _ e) h.0
All-get P (suc i) (y ∷ xs) x h e = All-get P i xs x h.1 e

All-set :
    {A : Type 0} (P : A → Type 0) (i : ℕ) (xs : List A) (x : A)
    → All P xs
    → P x
    → All P (set_elem i x xs)
All-set P i [] x h p = tt
All-set P zero (y ∷ xs) x h p = (p, h.1)
All-set P (suc i) (y ∷ xs) x h p = (h.0, All-set P i xs x h.1 p)

-- Of a state of which nothing is asked.
pub LeavesState-any :
    {State Reply : Type 0} (r : Response State Reply) → LeavesState (λ s. Unit {0}) r
LeavesState-any (responds r s) = tt
LeavesState-any (escapes s) = tt
LeavesState-any no_response = tt

module _ {Phase End Input Reply : Type 0} (protocol : Protocol Phase End Input)
    (Q : Phase → List Reply → Type 0) where
  -- A connection keeps its property when it goes to another phase, and when it writes a reply.
  abbrev pub KeepsOn : List Reply → Reaction Phase Input → Type 0
  KeepsOn w (goes p) = Q p w
  KeepsOn w (handles x) = (r : Reply) → Q protocol.writing (w ++ r ∷ [])
  KeepsOn w stays = Unit

module _ {Phase End Input State Reply : Type 0} (protocol : Protocol Phase End Input)
    (answer : Input → State → Response State Reply) (P : State → Type 0)
    (Q : Phase → List Reply → Type 0) where
  open protocol use {start, writing, react}

  abbrev HoldsOf : Session Phase Reply → Type 0
  HoldsOf c = Q c.phase c.written

  -- The state has the one property, and every connection has the other.
  abbrev pub Holds : Server Phase State Reply → Type 0
  Holds srv = P srv.state × All HoldsOf srv.sessions

  module _ (fresh : Q start [])
      (state_kept : (x : Input) (s : State) → P s → LeavesState P (answer x s))
      (kept : (p : Phase) (w : List Reply) (e : End)
        → Q p w
        → KeepsOn protocol Q w (react p e)) where
    on_response-Holds :
        (i : ℕ) (c : Session Phase Reply) (srv : Server Phase State Reply)
        (r : Response State Reply)
        → ((r' : Reply) → Q writing (c.written ++ r' ∷ []))
        → LeavesState P r
        → Holds srv
        → Holds (on_response protocol answer i c r srv)
    unfolding on_response
    on_response-Holds i c srv (responds r s) q p h = (p, All-set HoldsOf i srv.sessions _ h.1 (q r))
    on_response-Holds i c srv (escapes s) q p h = (p, h.1)
    on_response-Holds i c srv no_response q p h = h

    on_reaction-Holds :
        (i : ℕ) (c : Session Phase Reply) (srv : Server Phase State Reply)
        (x : Reaction Phase Input)
        → KeepsOn protocol Q c.written x
        → Holds srv
        → Holds (on_reaction protocol answer i c x srv)
    unfolding on_reaction
    on_reaction-Holds i c srv (goes p) q h = (h.0, All-set HoldsOf i srv.sessions _ h.1 q)
    on_reaction-Holds i c srv (handles x) q h =
        on_response-Holds i c srv (answer x srv.state) q (state_kept x srv.state h.0) h
    on_reaction-Holds i c srv stays q h = h

    on_end-Holds :
        (i : ℕ) (e : End) (srv : Server Phase State Reply) (o : Option (Session Phase Reply))
        → get_elem? srv.sessions i ≡ o
        → Holds srv
        → Holds (on_end protocol answer i e o srv)
    unfolding on_end
    on_end-Holds i e srv none at h = h
    on_end-Holds i e srv (some c) at h =
        on_reaction-Holds i c srv (react c.phase e)
          (kept c.phase c.written e (All-get HoldsOf i srv.sessions c h.1 at)) h

    pub serve_event-Holds :
        (e : Event End) (srv : Server Phase State Reply)
        → Holds srv
        → Holds (serve_event protocol answer e srv)
    unfolding serve_event
    serve_event-Holds connected srv h = (h.0, All-append HoldsOf srv.sessions _ h.1 (fresh, tt))
    serve_event-Holds connect_failed srv h = h
    serve_event-Holds (ends i e) srv h = on_end-Holds i e srv (get_elem? srv.sessions i) refl h

    pub serve_events-Holds :
        (es : List (Event End)) (srv : Server Phase State Reply)
        → Holds srv
        → Holds (serve_events protocol answer es srv)
    unfolding serve_events
    serve_events-Holds [] srv h = h
    serve_events-Holds (e ∷ es) srv h = serve_events-Holds es _ (serve_event-Holds e srv h)

module _ {Phase End Input State Reply : Type 0} (protocol : Protocol Phase End Input)
    (answer : Input → State → Response State Reply) (P : State → Type 0) where
  open protocol use {react}

  abbrev Anything : Phase → List Reply → Type 0
  Anything p w = Unit

  All-any : (cs : List (Session Phase Reply)) → All (λ c. Unit {0}) cs
  All-any [] = tt
  All-any (c ∷ cs) = (tt, All-any cs)

  KeepsOn-any : (w : List Reply) (x : Reaction Phase Input) → KeepsOn protocol Anything w x
  KeepsOn-any w (goes p) = tt
  KeepsOn-any w (handles x) = λ r. tt
  KeepsOn-any w stays = tt

  -- The state alone.
  pub serve_event-kept :
      (e : Event End) (srv : Server Phase State Reply)
      → ((x : Input) (s : State) → P s → LeavesState P (answer x s))
      → P srv.state
      → P (serve_event protocol answer e srv).state
  serve_event-kept e srv kept p =
      (serve_event-Holds protocol answer P Anything tt kept (λ p w e q. KeepsOn-any w (react p e)) e
        srv (p, All-any srv.sessions)).0

-- No event stops a server.
module _ {Phase End Input State Reply : Type 0} (protocol : Protocol Phase End Input)
    (answer : Input → State → Response State Reply) where
  on_response-run :
      (i : ℕ) (c : Session Phase Reply) (r : Response State Reply) (srv : Server Phase State Reply)
      → (on_response protocol answer i c r srv).run ≡ stopped
      → srv.run ≡ stopped
  unfolding on_response
  on_response-run i c (responds r s) srv h = h
  on_response-run i c (escapes s) srv h = cc
  on_response-run i c no_response srv h = cc

  on_reaction-run :
      (i : ℕ) (c : Session Phase Reply) (r : Reaction Phase Input) (srv : Server Phase State Reply)
      → (on_reaction protocol answer i c r srv).run ≡ stopped
      → srv.run ≡ stopped
  unfolding on_reaction
  on_reaction-run i c (goes p) srv h = h
  on_reaction-run i c (handles x) srv h = on_response-run i c (answer x srv.state) srv h
  on_reaction-run i c stays srv h = h

  on_end-run :
      (i : ℕ) (e : End) (c : Option (Session Phase Reply)) (srv : Server Phase State Reply)
      → (on_end protocol answer i e c srv).run ≡ stopped
      → srv.run ≡ stopped
  unfolding on_end
  on_end-run i e none srv h = h
  on_end-run i e (some c) srv h = on_reaction-run i c (protocol.react c.phase e) srv h

  pub serve_event-run :
      (e : Event End) (srv : Server Phase State Reply)
      → (serve_event protocol answer e srv).run ≡ stopped
      → srv.run ≡ stopped
  unfolding serve_event
  serve_event-run connected srv h = h
  serve_event-run connect_failed srv h = h
  serve_event-run (ends i e) srv h = on_end-run i e (get_elem? srv.sessions i) srv h
