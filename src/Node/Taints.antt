-- ===== src/Node/Taints.antt =====
-- The taints that `launchNode` adds to a node.
use nodedeploy_controller.Prelude.{
  Bool, true, List, [], ◌∷◌, ◌++◌, ◌≡◌, refl, inl, inr, Bool-cases, arith, All, if-cases,
  if◌then◌else◌,
}
use nodedeploy_controller.Api.{Taint}
use nodedeploy_controller.Node.{has_taint, add_taints}

module _ (m : Taint → Taint → Bool) (m_refl : (t : Taint) → m t t ≡ true) where
  has-append_right :
      (t : Taint) (xs ys : List Taint) → has_taint m t ys ≡ true → has_taint m t (xs ++ ys) ≡ true
  unfolding has_taint
  has-append_right t [] ys h = h
  has-append_right t (x ∷ xs) ys h = ground (arith, has-append_right t xs ys h)

  has-append_left :
      (t : Taint) (xs ys : List Taint) → has_taint m t xs ≡ true → has_taint m t (xs ++ ys) ≡ true
  unfolding has_taint
  has-append_left t [] ys h = ground arith
  has-append_left t (x ∷ xs) ys h = ground (arith, has-append_left t xs ys)

  has_self : (t : Taint) → has_taint m t (t ∷ []) ≡ true
  unfolding has_taint
  has_self t = rw m_refl

  has-add :
      (t : Taint) (ts xs : List Taint)
      → has_taint m t xs ≡ true
      → has_taint m t (add_taints m ts xs) ≡ true
  unfolding add_taints
  has-add t [] xs h = h
  has-add t (u ∷ ts) xs h = elim (Bool-cases (has_taint m u xs)) [
    | inl e ↦ rw e (has-add t ts xs h)
    | inr e ↦ rw e (has-add t ts (xs ++ (u ∷ [])) (has-append_left t xs (u ∷ []) h))
  ]

  has_after :
      (t : Taint) (xs : List Taint)
      → has_taint m t (if has_taint m t xs then xs else xs ++ (t ∷ [])) ≡ true
  has_after t xs =
      if-cases (λ ys. has_taint m t ys ≡ true) (has_taint m t xs) xs (xs ++ (t ∷ [])) (λ e. e)
        (λ _. has-append_right t xs (t ∷ []) (has_self t))

  pub add_taints_complete :
      (ts xs : List Taint) → All (λ t. has_taint m t (add_taints m ts xs) ≡ true) ts
  unfolding add_taints
  add_taints_complete [] xs = tt
  add_taints_complete (t ∷ ts) xs = (has-add t ts _ (has_after t xs), add_taints_complete ts _)

  -- A second launch with the same taints adds nothing.
  pub add_taints_idem :
      (ts xs : List Taint) → add_taints m ts (add_taints m ts xs) ≡ add_taints m ts xs
  unfolding add_taints
  add_taints_idem ts xs = present ts (add_taints m ts xs) (add_taints_complete ts xs)
    where
      present :
          (us ys : List Taint) → All (λ t. has_taint m t ys ≡ true) us → add_taints m us ys ≡ ys
      present [] ys h = refl
      present (u ∷ us) ys h = rw h.0 (present us ys h.1)
