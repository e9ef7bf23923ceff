-- ===== src/Web/HttpServer.antt =====
-- class HTTPServer of include/web/http_server.h and src/web/http_server.cc: the table of handlers,
-- and what becomes of a request. Its connections are in Connections.
pub mod Dispatch
pub mod Requests
pub mod Replies
pub mod Connections
use buenzli_coin.Base.{
  ℕ, Bool, ◌⊎◌, true, false, Option, none, some, List, [], ◌∷◌, ◌++◌, ◌==◌, if◌then◌else◌, Bytes,
  bytes_eq, inl, inr,
}

pub data Method : Type 0 where
  get post : Method
  other_method : ℕ → Method

pub data Status : Type 0 where
  ok_status not_found bad_request unsupported_media_type : Status

abbrev pub same_method : Method → Method → Bool
same_method get get = true
same_method post post = true
same_method (other_method m) (other_method n) = m == n
same_method _ _ = false

-- m_handlers: the targets, each with its methods and handlers in the order of registration.
abbrev pub Table {ℓ} : Type ℓ → Type ℓ
Table H = List (Bytes × List (Method × H))

-- The arguments of a call of `support`.
abbrev pub Registration {ℓ} : Type ℓ → Type ℓ
Registration H = Bytes × Method × H

module _ {ℓ} {H : Type ℓ} where
  -- HTTPServer::support
  unfoldable pub support : Bytes → Method → H → Table H → Table H
  support target method h [] = (target, (method, h) ∷ []) ∷ []
  support target method h ((t, hs) ∷ table) =
      if bytes_eq t target
      then (t, hs ++ (method, h) ∷ []) ∷ table
      else (t, hs) ∷ support target method h table

  -- Calls of `support`, in their order.
  unfoldable pub support_all : List (Registration H) → Table H → Table H
  unfolding support
  support_all [] table = table
  support_all ((t, m, h) ∷ rs) table = support_all rs (support t m h table)

  -- The loop of HTTPServer::handle over the handlers of a target.
  unfoldable pub by_method : Method → List (Method × H) → Option H
  by_method method [] = none
  by_method method ((m, h) ∷ hs) = if same_method m method then some h else by_method method hs

  unfoldable pub by_target : Bytes → Table H → Option (List (Method × H))
  by_target target [] = none
  by_target target ((t, hs) ∷ table) = if bytes_eq t target then some hs else by_target target table

  -- HTTPServer::handle: the handler to run, or the status to answer with.
  abbrev pub route_method : Option H → Status ⊎ H
  route_method none = inl bad_request
  route_method (some h) = inr h

  abbrev pub route_target : Method → Option (List (Method × H)) → Status ⊎ H
  unfolding by_method
  route_target method none = inl not_found
  route_target method (some hs) = route_method (by_method method hs)

  unfoldable pub route : Bytes → Method → Table H → Status ⊎ H
  unfolding by_target by_method
  route target method table = route_target method (by_target target table)
