-- ===== src/Machine/Keeps.antt =====
-- Predicates that an action keeps, with one rule for each way to build an action.
use nodedeploy_controller.Prelude.{Bool, true, false, ◌∷◌, if◌then◌else◌}
use nodedeploy_controller.Machine.{
  Error, Outcome, ok, err, panic, Effect, write_secret, IsRemote, IsSecretWrite, State, Action,
  pure, fail, crash, gets, call, perform, catch, or_else, recover, from_outcome, emit, continue,
  ◌>>=◌,
}

-- `m` keeps `P`, however it ends.
pub record Keeps {W A : Type 0} (P : State W → Type 0) (m : State W → Outcome A × State W)
    : Type 0 where
  pub at : (s : State W) → P s → P (m s).1

-- What happens in the world, and effects of the class `Q`, do not disturb `P`.
pub record IsRobust {W : Type 0} (Q : Effect → Type 0) (P : State W → Type 0) : Type 0 where
  pub world : (s : State W) (w : W) → P s → P (record s { world = w })
  pub effect : (s : State W) (e : Effect) → Q e → P s → P (record s { trace = e ∷ s.trace })

module _ {W A : Type 0} {P : State W → Type 0} where
  pub Keeps-pure : (a : A) → Keeps P (pure a)
  unfolding pure
  Keeps-pure a = record { at = λ s h. h }

  pub Keeps-fail : (e : Error) → Keeps P (fail {A = A} e)
  unfolding fail
  Keeps-fail e = record { at = λ s h. h }

  pub Keeps-crash : (m : _) → Keeps P (crash {A = A} m)
  unfolding crash
  Keeps-crash m = record { at = λ s h. h }

  pub Keeps-gets : (f : State W → A) → Keeps P (gets f)
  unfolding gets
  Keeps-gets f = record { at = λ s h. h }

  pub Keeps-from_outcome : (r : Outcome A) → Keeps P (from_outcome r)
  Keeps-from_outcome r = record { at = λ s h. h }

  pub Keeps-or_else :
      (r : Outcome A) (h : Error → Action W A)
      → ((e : Error) → Keeps P (h e))
      → Keeps P (or_else r h)
  Keeps-or_else (ok a) h kh = record { at = λ s p. p }
  Keeps-or_else (err e) h kh = kh e
  Keeps-or_else (panic m) h kh = record { at = λ s p. p }

  pub Keeps-catch :
      (m : Action W A) (h : Error → Action W A)
      → Keeps P m
      → ((e : Error) → Keeps P (h e))
      → Keeps P (catch m h)
  unfolding catch
  Keeps-catch m h km kh = record {
    at = λ s p. let (r, t) = m s in (Keeps-or_else r h kh).at t (km.at s p);
  }

  pub Keeps-recover : (b : A) (m : Action W A) → Keeps P m → Keeps P (recover b m)
  unfolding recover
  Keeps-recover b m km = record { at = km.at }

  pub Keeps-if :
      (b : Bool) (m n : Action W A) → Keeps P m → Keeps P n → Keeps P (if b then m else n)
  Keeps-if true m n km kn = km
  Keeps-if false m n km kn = kn

module _ {W A : Type 0} {Q : Effect → Type 0} {P : State W → Type 0} where
  pub Keeps-call : IsRobust Q P → (f : W → Outcome A × W) → Keeps P (call f)
  unfolding call
  Keeps-call r f = record { at = λ s h. r.world s (f s.world).1 h }

  pub Keeps-perform :
      IsRobust Q P → (e : Effect) (f : W → Outcome A × W) → Q e → Keeps P (perform e f)
  unfolding perform
  Keeps-perform r e f q = record {
    at = λ s h. r.effect (record s { world = (f s.world).1 }) e q (r.world s (f s.world).1 h);
  }

module _ {W : Type 0} {Q : Effect → Type 0} {P : State W → Type 0} where
  pub Keeps-emit : IsRobust Q P → (e : Effect) → Q e → Keeps P (emit e)
  unfolding emit
  Keeps-emit r e q = record { at = λ s h. r.effect s e q h }

module _ {W A B : Type 0} {P : State W → Type 0} where
  pub Keeps-continue :
      (r : Outcome A) (f : A → Action W B) → ((a : A) → Keeps P (f a)) → Keeps P (continue r f)
  Keeps-continue (ok a) f kf = kf a
  Keeps-continue (err e) f kf = record { at = λ s p. p }
  Keeps-continue (panic m) f kf = record { at = λ s p. p }

  pub Keeps-bind :
      (m : Action W A) (f : A → Action W B)
      → Keeps P m
      → ((a : A) → Keeps P (f a))
      → Keeps P (m >>= f)
  unfolding ◌>>=◌
  Keeps-bind m f km kf = record {
    at = λ s p. let (r, t) = m s in (Keeps-continue r f kf).at t (km.at s p);
  }

pub ruleset keeps_rules = (
  Keeps-pure, Keeps-fail, Keeps-crash, Keeps-gets, Keeps-from_outcome, Keeps-catch, Keeps-recover,
  Keeps-if, Keeps-call, Keeps-perform, Keeps-emit, Keeps-bind,
)

module _ {W : Type 0} {Q Q' : Effect → Type 0} {P : State W → Type 0} where
  -- A smaller class of effects disturbs no more.
  pub IsRobust-mono : ((e : Effect) → Q' e → Q e) → IsRobust Q P → IsRobust Q' P
  IsRobust-mono widen r = record { world = r.world; effect = λ s e q. r.effect s e (widen e q) }

secret_writes-IsRemote : (e : Effect) → IsSecretWrite e → IsRemote e
secret_writes-IsRemote (write_secret name) q = q
secret_writes-IsRemote _ q = elim q [ ]

module _ {W : Type 0} {P : State W → Type 0} where
  pub secret-IsRobust : IsRobust IsRemote P → IsRobust IsSecretWrite P
  secret-IsRobust = IsRobust-mono secret_writes-IsRemote

module _ {W A B : Type 0} {P K : State W → Type 0} where
  -- What the first action leads to, the rest may keep.
  pub bind_leads :
      (m : Action W A) (f : A → Action W B)
      → ((s : State W) → P s → K (m s).1)
      → ((a : A) → Keeps K (f a))
      → (s : State W) → P s
      → K ((m >>= f) s).1
  unfolding ◌>>=◌
  bind_leads m f pm kf s p = let (r, t) = m s in (Keeps-continue r f kf).at t (pm s p)

module _ {W A B : Type 0} {K L : State W → Type 0} where
  continue_leads :
      (r : Outcome A) (f : A → Action W B)
      → ((a : A) (s : State W) → K s → L (f a s).1)
      → ((s : State W) → K s → L s)
      → (s : State W) → K s
      → L (continue r f s).1
  continue_leads (ok a) f kf weaken s k = kf a s k
  continue_leads (err e) f kf weaken s k = weaken s k
  continue_leads (panic m) f kf weaken s k = weaken s k

module _ {W A B : Type 0} (P K L : State W → Type 0) where
  -- Two actions in sequence; where the first ends early, `L` holds already.
  pub bind_seq :
      (m : Action W A) (f : A → Action W B)
      → ((s : State W) → P s → K (m s).1)
      → ((a : A) (s : State W) → K s → L (f a s).1)
      → ((s : State W) → K s → L s)
      → (s : State W) → P s
      → L ((m >>= f) s).1
  unfolding ◌>>=◌
  bind_seq m f pm kf weaken s p =
      let (r, t) = m s in continue_leads {K = K} {L = L} r f kf weaken t (pm s p)

module _ {W A : Type 0} (P K : State W → Type 0) where
  pub catch_leads :
      (m : Action W A) (h : Error → Action W A)
      → ((s : State W) → P s → K (m s).1)
      → ((e : Error) → Keeps K (h e))
      → (s : State W) → P s
      → K (catch m h s).1
  unfolding catch
  catch_leads m h pm kh s p = let (r, t) = m s in (Keeps-or_else r h kh).at t (pm s p)
