-- ===== src/Web/HttpServer/Dispatch.antt =====
-- The dispatch of HTTPServer::handle (src/web/http_server.cc) after HTTPServer::support.
use mathlib.Core.Option.{some-injective}
use buenzli_coin.Base.{
  All, Bool, ◌≡◌, refl, sym, ap, subst, ◌∙◌, true, false, ◌⊎◌, inl, inr, Option, none, some, List,
  [], ◌∷◌, ◌++◌, if◌then◌else◌, Bytes, bytes_eq, bytes_eq_refl, bytes_eq_sound, Bool-cases, arith,
}
use buenzli_coin.Web.HttpServer.{
  Method, get, post, other_method, Status, same_method, Table, Registration, support, support_all,
  by_method, by_target, route_method, route_target, route,
}

same_method_refl : (m : Method) → same_method m m ≡ true
same_method_refl get = refl
same_method_refl post = refl
same_method_refl (other_method n) = ground arith

module _ {ℓ} {H : Type ℓ} where
  -- The first of two handlers, where it is there.
  abbrev pub first : Option H → Option H → Option H
  first none o = o
  first (some h) o = some h

  -- The handler that runs, if one does.
  abbrev pub chosen : Status ⊎ H → Option H
  chosen (inl s) = none
  chosen (inr h) = some h

  abbrev handlers : Option (List (Method × H)) → List (Method × H)
  handlers none = []
  handlers (some hs) = hs

  by_method-append :
      (m m' : Method) (h : H) (hs : List (Method × H))
      → by_method m (hs ++ (m', h) ∷ [])
        ≡ first (by_method m hs) (if same_method m' m then some h else none)
  unfolding by_method
  by_method-append m m' h [] = refl
  by_method-append m m' h ((n, x) ∷ hs) = elim (Bool-cases (same_method n m)) [
    | inl e ↦ rw e refl
    | inr e ↦ rw e (by_method-append m m' h hs)
  ]

  by_target-support :
      (target : Bytes) (m : Method) (h : H) (table : Table H)
      → by_target target (support target m h table)
        ≡ some (handlers (by_target target table) ++ (m, h) ∷ [])
  unfolding by_target support
  by_target-support target m h [] = rw (bytes_eq_refl target) refl
  by_target-support target m h ((t, hs) ∷ table) = elim (Bool-cases (bytes_eq t target)) [
    | inl e ↦ rw (e, e) refl
    | inr e ↦ rw (e, e) (by_target-support target m h table)
  ]

  by_target-skip :
      (t target : Bytes) (hs : List (Method × H)) (table : Table H)
      → bytes_eq t target ≡ false
      → by_target target ((t, hs) ∷ table) ≡ by_target target table
  unfolding by_target
  by_target-skip t target hs table d = rw d refl

  by_target-support_other :
      (target target' : Bytes) (m : Method) (h : H) (table : Table H)
      → bytes_eq target target' ≡ false
      → by_target target' (support target m h table) ≡ by_target target' table
  unfolding by_target support
  by_target-support_other target target' m h [] d = rw d refl
  by_target-support_other target target' m h ((t, hs) ∷ table) d =
      elim (Bool-cases (bytes_eq t target)) [
        | inl e ↦
            let same : bytes_eq t target' ≡ false = rw (bytes_eq_sound t target e) d in
            rw e
              (by_target-skip t target' _ table same ∙ sym (by_target-skip t target' hs table same))
        | inr e ↦ rw e (
            ap (λ r. if bytes_eq t target' then some hs else r)
              (by_target-support_other target target' m h table d))
      ]

  chosen-route :
      (target : Bytes) (m : Method) (table : Table H)
      → chosen (route target m table) ≡ by_method m (handlers (by_target target table))
  unfolding route by_method
  chosen-route target m table = of_target (by_target target table)
    where
      of_method : (o : Option H) → chosen (route_method o) ≡ o
      of_method none = refl
      of_method (some h) = refl

      of_target :
          (o : Option (List (Method × H))) → chosen (route_target m o) ≡ by_method m (handlers o)
      of_target none = refl
      of_target (some hs) = of_method (by_method m hs)

  first-none : (o : Option H) → first o none ≡ o
  first-none none = refl
  first-none (some x) = refl

  first_assoc : (o o' o'' : Option H) → first (first o o') o'' ≡ first o (first o' o'')
  first_assoc none o' o'' = refl
  first_assoc (some x) o' o'' = refl

  -- The handler of a registration, if it is for the target and the method.
  abbrev pub offered : Bytes → Method → Registration H → Option H
  offered target method (t, m, h) =
      if bytes_eq t target then if same_method m method then some h else none else none

  -- The handler of the first registration for the target and the method.
  abbrev pub first_offered : Bytes → Method → List (Registration H) → Option H
  first_offered target method [] = none
  first_offered target method (r ∷ rs) =
      first (offered target method r) (first_offered target method rs)

  route-support :
      (target : Bytes) (method : Method) (r : Registration H) (table : Table H)
      → chosen (route target method (support r.0 r.1 r.2 table))
        ≡ first (chosen (route target method table)) (offered target method r)
  route-support target method (t, m, h) table = elim (Bool-cases (bytes_eq t target)) [
    | inl e ↦ rw e (same e)
    | inr e ↦ rw e (
        chosen-route target method (support t m h table)
        ∙ rw (by_target-support_other t target m h table e) (sym (chosen-route target method table))
        ∙ sym (first-none (chosen (route target method table))))
  ]
    where
      same :
          bytes_eq t target ≡ true
          → chosen (route target method (support t m h table))
            ≡ first
                (chosen (route target method table))
                (if same_method m method then some h else none)
      same e =
          subst
            (λ x.
              chosen (route x method (support t m h table))
              ≡ first (chosen (route x method table))
                  (if same_method m method then some h else none))
            (bytes_eq_sound t target e)
            (chosen-route t method (support t m h table)
              ∙ rw (by_target-support t m h table, chosen-route t method table)
                  (by_method-append method m h (handlers (by_target t table))))

  -- After any calls of `support`, a request runs the handler of the first call for its target and its
  -- method, behind those that the table had: the table by targets and the lists by methods in it
  -- implement one list of registrations that is searched from the front.
  pub route-support_all :
      (rs : List (Registration H)) (target : Bytes) (method : Method) (table : Table H)
      → chosen (route target method (support_all rs table))
        ≡ first (chosen (route target method table)) (first_offered target method rs)
  unfolding support_all
  route-support_all [] target method table = sym (first-none (chosen (route target method table)))
  route-support_all (r ∷ rs) target method table =
      route-support_all rs target method (support r.0 r.1 r.2 table)
      ∙ ap (λ o. first o (first_offered target method rs)) (route-support target method r table)
      ∙ first_assoc (chosen (route target method table)) (offered target method r)
          (first_offered target method rs)

  if-some : (b : Bool) (o : Option H) (h : H) → (if b then o else none) ≡ some h → o ≡ some h
  if-some true o h e = e
  if-some false o h e = cc

  first-some :
      (Q : H → Type 0) (o o' : Option H) (h : H)
      → (o ≡ some h → Q h)
      → (o' ≡ some h → Q h)
      → first o o' ≡ some h
      → Q h
  first-some Q none o' h q q' e = q' e
  first-some Q (some x) o' h q q' e = q e

  first_offered-All :
      (Q : H → Type 0) (rs : List (Registration H)) (target : Bytes) (method : Method) (h : H)
      → All (λ (r : Registration H). Q r.2) rs
      → first_offered target method rs ≡ some h
      → Q h
  first_offered-All Q [] target method h q e = cc
  first_offered-All Q ((t, m, x) ∷ rs) target method h q e =
      first-some Q (offered target method (t, m, x)) (first_offered target method rs) h
        (λ o. subst Q (some-injective _ _ (if-some _ _ h (if-some _ _ h o))) q.0)
        (first_offered-All Q rs target method h q.1) e

  -- What holds of every handler that is registered holds of the handlers that run.
  pub route-All :
      (Q : H → Type 0) (rs : List (Registration H)) (target : Bytes) (method : Method) (h : H)
      → All (λ (r : Registration H). Q r.2) rs
      → route target method (support_all rs []) ≡ inr h
      → Q h
  unfolding route by_target
  route-All Q rs target method h q e =
      first_offered-All Q rs target method h q
        (sym (route-support_all rs target method []) ∙ ap chosen e)
