-- ===== src/Web/Peers.antt =====
-- class WebSocketPeers of include/web/websocket_peer.h: a list of hosts and ports. The identifier
-- of a peer is its position, counted from one.
use native.Mathlib.Nat.{add-zero}
use buenzli_coin.Base.{
  ℕ, zero, suc, ◌+◌, ◌<◌, ◌≡◌, ◌≢◌, refl, ◌∙◌, Bool, true, false, ◌&&◌, Option, none, some, List,
  [], ◌∷◌, ◌++◌, map, ◌==◌, if◌then◌else◌, Bytes, bytes_eq, bytes_eq_refl, length, length-append,
  get_elem?, arith, Bool-cases, inl, inr,
}
use buenzli_coin.Json.{JsonLib}
use buenzli_coin.Transaction.{decimal}

pub record Peer : Type 0 where
  pub host : Bytes
  pub port : ℕ

abbrev pub Peers : Type 0
Peers = List Peer

-- `peer.host() == host && peer.port() == port`
abbrev pub is_peer : Bytes → ℕ → Peer → Bool
is_peer host port p = bytes_eq p.host host && p.port == port

-- `add`, once the connection of the new peer stands: the list and the identifier.
unfoldable pub add : Bytes → ℕ → Peers → Peers × ℕ
add host port peers =
    let peers' = peers ++ record { host = host; port = port } ∷ [] in (peers', length peers')

-- The loop of `find` from an identifier on.
unfoldable pub find_from : ℕ → Bytes → ℕ → Peers → ℕ
find_from id host port [] = 0
find_from id host port (p ∷ ps) =
    let later = find_from (suc id) host port ps in if is_peer host port p then id else later

-- `find`: 0 if there is no such peer.
unfoldable pub find : Bytes → ℕ → Peers → ℕ
unfolding find_from
find host port peers = find_from 1 host port peers

-- `&m_list[peer_id - 1]`, as `send` reads it.
unfoldable pub peer_of : ℕ → Peers → Option Peer
peer_of zero peers = none
peer_of (suc i) peers = get_elem? peers i

unfoldable pub peers_to_json : (lib : JsonLib) → Peers → lib.Json
peers_to_json lib [] = lib.null
peers_to_json lib (p ∷ ps) =
    lib.array (map (λ (q : Peer). lib.string (q.host ++ (b':' ∷ decimal q.port))) (p ∷ ps))

-- No peer of the list has the host and the port.
abbrev pub IsUnknown : Bytes → ℕ → Peers → Type 0
IsUnknown host port [] = Unit
IsUnknown host port (p ∷ ps) = (is_peer host port p ≡ false) × IsUnknown host port ps

find_from-unknown :
    (id : ℕ) (host : Bytes) (port : ℕ) (ps : Peers)
    → IsUnknown host port ps
    → find_from id host port ps ≡ 0
unfolding find_from
find_from-unknown id host port [] u = refl
find_from-unknown id host port (p ∷ ps) u = rw u.0 (find_from-unknown (suc id) host port ps u.1)

find_from-found :
    (id : ℕ) (host : Bytes) (port : ℕ) (ps : Peers)
    → 0 < id
    → find_from id host port ps ≢ 0
    → (i : ℕ) × (p : Peer) × (find_from id host port ps ≡ id + i)
      × (get_elem? ps i ≡ some p)
      × (is_peer host port p ≡ true)
unfolding find_from
find_from-found id host port [] pos h = absurd (h refl)
find_from-found id host port (p ∷ ps) pos h = elim (Bool-cases (is_peer host port p)) [
  | inl e ↦ (0, p, rw (e, add-zero), refl, e)
  | inr e ↦
      let (i, q, at, here, ok) =
        find_from-found (suc id) host port ps (omega arith) (λ z. h (rw e z)) in
      (suc i, q, rw e (omega (arith, at)), here, ok)
]

peer_of-suc :
    (n i : ℕ) (peers : Peers) (p : Peer)
    → n ≡ suc i
    → get_elem? peers i ≡ some p
    → peer_of n peers ≡ some p
unfolding peer_of
peer_of-suc n i peers p e here = rw e here

-- An identifier that `find` returns is that of a peer with the host and the port, and `find` returns
-- 0 if there is none.
pub find_lem :
    (host : Bytes) (port : ℕ) (peers : Peers)
    → (IsUnknown host port peers → find host port peers ≡ 0)
      × (find host port peers ≢ 0
          → (p : Peer) × (peer_of (find host port peers) peers ≡ some p)
            × (is_peer host port p ≡ true))
unfolding find peer_of
find_lem host port peers = (
  find_from-unknown 1 host port peers,
  λ h.
      let (i, p, at, here, ok) = find_from-found 1 host port peers (omega arith) h in
      let e : find_from 1 host port peers ≡ suc i = omega (arith, at) in
      (p, peer_of-suc _ i peers p e here, ok),
)

find_from-add :
    (id : ℕ) (host : Bytes) (port : ℕ) (ps : Peers)
    → IsUnknown host port ps
    → find_from id host port (ps ++ record { host = host; port = port } ∷ []) ≡ id + length ps
unfolding find_from
find_from-add id host port [] u = rw (bytes_eq_refl host) (ground arith)
find_from-add id host port (p ∷ ps) u =
    rw u.0 (omega (arith, find_from-add (suc id) host port ps u.1))

-- The identifier that `add` returns for a peer that was not known is the one that `find` returns
-- from then on.
pub find-add :
    (host : Bytes) (port : ℕ) (peers : Peers)
    → IsUnknown host port peers
    → let (peers', id) = add host port peers in find host port peers' ≡ id
unfolding find add
find-add host port peers u =
    find_from-add 1 host port peers u
    ∙ omega (arith, length-append peers (record { host = host; port = port } ∷ []))
