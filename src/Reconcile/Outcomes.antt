-- ===== src/Reconcile/Outcomes.antt =====
-- What status a launch or a removal ends with.
use nodedeploy_controller.Prelude.{
  ℕ, String, Bool, true, false, ◌≡◌, refl, ◌≢◌, ◌⊎◌, inl, inr, arith, ◌∙◌, sym, ap, subst,
}
use nodedeploy_controller.Duration.{ℤ, pos}
use nodedeploy_controller.Api.{NodeStatus, unknown}
use nodedeploy_controller.Machine.{Error, Outcome, ok, err, panic, State, pure, ◌>>=◌, ◌>>◌}
use nodedeploy_controller.Env.{Env}
use nodedeploy_controller.Env.Laws.{IsRetry}
use nodedeploy_controller.Env.Attempts.{do_retry_rule}
use nodedeploy_controller.Phases.{Result, done, to_uint, retry_delay, prepare, finalize}
use nodedeploy_controller.Reconcile.{attempt, drive}
use nodedeploy_controller.Reconcile.Branches.{IsInt32, to_uint_pos}

-- `drive` behind its attempts.
module _ (E : Env) where
  abbrev pub conclude : State E.World → Outcome Result × State E.World
  conclude u = (finalize E u.outcome >> pure done) u

  -- What `drive` does with what the attempts return.
  abbrev pub concluded : Outcome Unit × State E.World → Outcome Result × State E.World
  concluded (ok x, u) = conclude u
  concluded (err e, u) = conclude u
  concluded (panic m, u) = (panic m, u)

  pub drive-concluded :
      (m : ℤ) (body : State E.World → Outcome Unit × State E.World) (s : State E.World)
      (r : Outcome Unit) (u : State E.World)
      → E.retry.do_retry (to_uint m) retry_delay body (record s { outcome = unknown }) ≡ (r, u)
      → drive E m body s ≡ concluded (r, u)
  unfolding drive ◌>>=◌
  drive-concluded m body s (ok x) u e = rw e
  drive-concluded m body s (err x) u e = rw e
  drive-concluded m body s (panic x) u e = rw e

  prepare_outcome : (x : NodeStatus) (s : State E.World) → (prepare E x s).1.outcome ≡ s.outcome
  unfolding prepare ◌>>=◌
  prepare_outcome x s = ground arith

module _ (E : Env) (law : IsRetry E.retry) (start : NodeStatus) (name : String)
    (good bad : NodeStatus) (work : State E.World → Outcome Bool × State E.World) where
  refused_attempt :
      (s : State E.World) (e : Error)
      → (prepare E start s).0 ≡ err e
      → attempt E start name good bad work s ≡ (err e, (prepare E start s).1)
  unfolding attempt ◌>>=◌
  refused_attempt s e p = rw p

  module _ (Down : E.World → Type 0)
      (fails : (s : State E.World)
        → Down s.world
        → (e : Error) × ((prepare E start s).0 ≡ err e) × Down (prepare E start s).1.world)
      (stays : (d : ℕ) (w : E.World) → Down w → Down (law.pause d w)) where
    abbrev IsUnset : State E.World → Type 0
    IsUnset s = Down s.world × (s.outcome ≡ unknown)

    abbrev IsLost : Outcome Unit × State E.World → Type 0
    IsLost (ok x, u) = ⊥
    IsLost (err e, u) = IsUnset u
    IsLost (panic m, u) = ⊥

    IsLost-attempt : (s : State E.World) → IsUnset s → IsLost (attempt E start name good bad work s)
    IsLost-attempt s (down, out) =
        let (e, refused, down') = fails s down in
        rw (refused_attempt s e refused) (down', prepare_outcome E start s ∙ out)

    lost_drive :
        (m : ℤ) (s : State E.World) (r : Outcome Unit × State E.World)
        → IsLost r
        → E.retry.do_retry
            (to_uint m)
            retry_delay
            (attempt E start name good bad work)
            (record s { outcome = unknown })
          ≡ r
        → (u : State E.World) × Down u.world
          × (drive E m (attempt E start name good bad work) s ≡ (finalize E unknown >> pure done) u)
    lost_drive m s (ok x, u) lost e = absurd lost
    lost_drive m s (panic x, u) lost e = absurd lost
    lost_drive m s (err x, u) (down, out) e =
        (u, down, drive-concluded E m _ s (err x) u e ∙ ap (λ o. (finalize E o >> pure done) u) out)

    -- While the server refuses every update that `prepare` makes, as `Down` describes, no attempt
    -- reaches the work, and at the end `finalize` is called with the zero value of the variable `status`:
    -- it asks for the unknown status, whatever the target was. `retry.Do` is as documented, and the number of
    -- attempts is not 0.
    pub drive_while_down :
        (m : ℤ)
        → IsInt32 m
        → m ≢ pos 0
        → (s : State E.World) → Down s.world
        → (u : State E.World) × Down u.world
          × (drive E m (attempt E start name good bad work) s ≡ (finalize E unknown >> pure done) u)
    drive_while_down m int32 nonzero s down =
        let (n, attempts) = to_uint_pos m int32 nonzero in
        lost_drive m s _
          (do_retry_rule law retry_delay (attempt E start name good bad work) IsUnset IsLost
            IsLost-attempt (λ e u (down', out). (stays retry_delay u.world down', out))
            (λ x y u q. q) n (record s { outcome = unknown }) (down, refl))
          (ap
            (λ k.
              E.retry.do_retry k retry_delay (attempt E start name good bad work)
                (record s { outcome = unknown }))
            attempts)

  -- What `drive` ends with: the status asked for is `good` only behind an attempt whose work succeeded.
  pub data Ended : Outcome Result × State E.World → Type 0 where
    reached :
        (t : State E.World)
        → (work t).0 ≡ ok true
        → Ended ((finalize E good >> pure done) (record (work t).1 { outcome = good }))
    missed :
        (x : NodeStatus) (u : State E.World)
        → (x ≡ unknown) ⊎ (x ≡ bad)
        → Ended ((finalize E x >> pure done) u)
    crashed : (m : String) (u : State E.World) → Ended (panic m, u)

  abbrev IsMissed : State E.World → Type 0
  IsMissed s = (s.outcome ≡ unknown) ⊎ (s.outcome ≡ bad)

  abbrev Reported : Outcome Unit × State E.World → Type 0
  Reported (ok x, u) =
      ((t : State E.World) × ((work t).0 ≡ ok true) × (u ≡ record (work t).1 { outcome = good }))
      ⊎ IsMissed u
  Reported (err e, u) = IsMissed u
  Reported (panic m, u) = Unit

  -- By what `prepare` and the work return.
  attempt_cases :
      (s t u : State E.World) (p : Outcome Unit) (r : Outcome Bool)
      → prepare E start s ≡ (p, t)
      → work t ≡ (r, u)
      → IsMissed t
      → Reported (attempt E start name good bad work s)
  unfolding attempt ◌>>=◌
  attempt_cases s t u (err e) r prepared worked missed_so_far = rw prepared missed_so_far
  attempt_cases s t u (panic m) r prepared worked missed_so_far = rw prepared tt
  attempt_cases s t u (ok x) (ok true) prepared worked missed_so_far = rw prepared (
      rw worked
        (inl (t, ap (λ a. a.0) worked, ap (λ a. record a.1 { outcome = good }) (sym worked))))
  attempt_cases s t u (ok x) (ok false) prepared worked missed_so_far =
      rw prepared (rw worked (inr (inr refl)))
  attempt_cases s t u (ok x) (err e) prepared worked missed_so_far =
      rw prepared (rw worked (inr refl))
  attempt_cases s t u (ok x) (panic m) prepared worked missed_so_far = rw prepared (rw worked tt)

  Reported-attempt :
      (s : State E.World) → IsMissed s → Reported (attempt E start name good bad work s)
  Reported-attempt s missed_so_far =
      attempt_cases s (prepare E start s).1 (work (prepare E start s).1).1 (prepare E start s).0
        (work (prepare E start s).1).0 refl refl (rw (prepare_outcome E start s) missed_so_far)

  conclude-Ended : (u : State E.World) → IsMissed u → Ended (conclude E u)
  conclude-Ended u missed_so_far = missed u.outcome u missed_so_far

  concluded-Ended : (a : Outcome Unit × State E.World) → Reported a → Ended (concluded E a)
  concluded-Ended (ok x, u) (inl (t, succeeded, e)) =
      subst (λ v. Ended (conclude E v)) (sym e) (reached t succeeded)
  concluded-Ended (ok x, u) (inr missed_so_far) = conclude-Ended u missed_so_far
  concluded-Ended (err e, u) missed_so_far = conclude-Ended u missed_so_far
  concluded-Ended (panic m, u) q = crashed m u

  -- With one attempt or more, the run ends in one of three ways. An attempt's work succeeded, and
  -- `finalize` is asked for the good status in the state that this work left. Or none did, and it is
  -- asked for the bad status or for the zero value of the variable `status`. Or an attempt panicked,
  -- and `finalize` does not run.
  pub drive_outcomes :
      (m : ℤ)
      → IsInt32 m
      → m ≢ pos 0
      → (s : State E.World) → Ended (drive E m (attempt E start name good bad work) s)
  drive_outcomes m int32 nonzero s =
      let (n, attempts) = to_uint_pos m int32 nonzero in
      let body = attempt E start name good bad work in
      let from = record s { outcome = unknown } in
      let end = E.retry.do_retry (to_uint m) retry_delay body from in
      subst Ended (sym (drive-concluded E m body s end.0 end.1 refl)) (
        concluded-Ended end (
          subst (λ k. Reported (E.retry.do_retry k retry_delay body from)) (sym attempts)
            (do_retry_rule law retry_delay body IsMissed Reported Reported-attempt (λ e u q. q)
              (λ x y u q. q) n from (inl refl))))
