-- ===== src/EraseLoop.antt =====
-- The loop of src/transaction.cc over a std::list,
-- `for (it = begin(); it != end(); ++it) { if (test(*it)) it = erase(it); }`.
-- `erase` gives the position behind the erased element, and `++it` then steps over that element
-- without a test. When the last element is erased, `erase` gives `end()`, and `++it` on that is
-- undefined behaviour.
use buenzli_coin.Base.{
  ◌≤◌, ◌≡◌, refl, ap, ◌∙◌, inl, inr, Bool, true, false, List, [], ◌∷◌, arith, if◌then◌else◌,
  Bool-cases, reject, count_p,
}
use buenzli_coin.Base.Exec.{Exec, done, undefined, map_exec}

module _ {ℓ} {A : Type ℓ} where
  unfoldable pub erase_loop : (A → Bool) → List A → Exec (List A)
  erase_loop p [] = done []
  erase_loop p (x ∷ []) = if p x then undefined else done (x ∷ [])
  erase_loop p (x ∷ y ∷ ys) = elim (p x) [
    | true ↦ map_exec (λ r. y ∷ r) (erase_loop p ys)
    | false ↦ map_exec (λ r. x ∷ r) (erase_loop p (y ∷ ys))
  ]

  erase_loop-cons :
      (p : A → Bool) (x y : A) (ys : List A)
      → p x ≡ false
      → erase_loop p (x ∷ y ∷ ys) ≡ map_exec (λ r. x ∷ r) (erase_loop p (y ∷ ys))
  unfolding erase_loop
  erase_loop-cons p x y ys e = ground arith

  -- A list of which no element passes the test is left alone.
  pub erase_loop-none : (p : A → Bool) (xs : List A) → count_p p xs ≡ 0 → erase_loop p xs ≡ done xs
  unfolding erase_loop
  erase_loop-none p [] h = refl
  erase_loop-none p (x ∷ []) h = ground arith
  erase_loop-none p (x ∷ y ∷ ys) h = ground (arith, erase_loop-none p (y ∷ ys))

  pub reject-none : (p : A → Bool) (xs : List A) → count_p p xs ≡ 0 → reject p xs ≡ xs
  reject-none p [] h = refl
  reject-none p (x ∷ xs) h = ground (arith, reject-none p xs)

  abbrev pub last_passes : (A → Bool) → List A → Bool
  last_passes p [] = false
  last_passes p (x ∷ []) = p x
  last_passes p (x ∷ y ∷ ys) = last_passes p (y ∷ ys)

  last_passes-none : (p : A → Bool) (xs : List A) → count_p p xs ≡ 0 → last_passes p xs ≡ false
  last_passes-none p [] h = refl
  last_passes-none p (x ∷ []) h = ground arith
  last_passes-none p (x ∷ y ∷ ys) h = ground (arith, last_passes-none p (y ∷ ys))

  -- If at most one element passes the test, and the last one does not, the loop removes it.
  pub erase_loop-reject :
      (p : A → Bool) (xs : List A)
      → count_p p xs ≤ 1
      → last_passes p xs ≡ false
      → erase_loop p xs ≡ done (reject p xs)
  unfolding erase_loop
  erase_loop-reject p [] h l = refl
  erase_loop-reject p (x ∷ []) h l = ground arith
  erase_loop-reject p (x ∷ y ∷ ys) h l =
      ground (arith, erase_loop-none p ys, reject-none p ys, erase_loop-reject p (y ∷ ys))

  -- If one element passes the test and it is the last one, the loop has undefined behaviour.
  pub erase_loop-undefined :
      (p : A → Bool) (xs : List A)
      → count_p p xs ≤ 1
      → last_passes p xs ≡ true
      → erase_loop p xs ≡ undefined
  unfolding erase_loop
  erase_loop-undefined p [] h l = cc
  erase_loop-undefined p (x ∷ []) h l = ground arith
  erase_loop-undefined p (x ∷ y ∷ ys) h l = elim (Bool-cases (p x)) [
    | inl e ↦ cc (last_passes-none p (y ∷ ys) (let h' = rw e at h in omega arith))
    | inr e ↦
        erase_loop-cons p x y ys e
        ∙ ap (map_exec (λ r. x ∷ r)) (erase_loop-undefined p (y ∷ ys) (ground arith) l)
  ]
