-- ===== src/Machine.antt =====
-- How the Go functions of the controller run. They share one `*NodeDeploy`, call the outside world,
-- and return an error as a value; a nil dereference or an index out of range panics.
pub mod Keeps
pub mod Gives
pub mod Plans
pub mod Success
use nodedeploy_controller.Prelude.{String, List, ◌∷◌}
use nodedeploy_controller.Api.{NodeDeploy, NodeDeployStatus, NodeStatus, Node, EventType, Reason}

-- The classes of API errors that the code tells apart.
pub data Cause : Type 0 where
  not_found already_exists conflict other : Cause

pub record Error : Type 0 where
  pub cause : Cause
  pub message : String

-- `fmt.Errorf` and `errors.Errorf`
abbrev pub errorf : String → Error
errorf m = record { cause = other; message = m }

pub data Outcome (A : Type 0) : Type 0 where
  ok : A → Outcome A
  err : Error → Outcome A
  panic : String → Outcome A

-- What a run has done outside the process, apart from reading.
pub data Effect : Type 0 where
  event : EventType → Reason → String → Effect
  write_status : NodeDeployStatus → Effect
  update_node : Node → Effect
  delete_node : String → Effect
  cordon_node : String → Effect
  evict_pods : List String → Effect
  dial : String → Effect
  exec : String → Effect
  upload : String → String → Effect
  write_secret : String → Effect

-- Events, and what bringing a node up or taking it down over SSH does.
abbrev pub IsRemote : Effect → Type 0
IsRemote (event t r m) = Unit
IsRemote (dial server) = Unit
IsRemote (exec cmd) = Unit
IsRemote (upload src dest) = Unit
IsRemote (write_secret name) = Unit
IsRemote _ = ⊥

-- A write of a secret, the one thing that reading the information for a join does outside.
abbrev pub IsSecretWrite : Effect → Type 0
IsSecretWrite (write_secret name) = Unit
IsSecretWrite _ = ⊥

-- `object` is what the pointer `nodeDeploy` leads to. `outcome` is the variable `status` of
-- `Reconcile`, which the functions given to `retry.Do` assign. The trace has the newest effect first.
pub record State (W : Type 0) : Type 0 where
  pub object : NodeDeploy
  pub world : W
  pub outcome : NodeStatus
  pub trace : List Effect

abbrev pub Action : Type 0 → Type 0 → Type 0
Action W A = State W → Outcome A × State W

abbrev pub or_recover : {A : Type 0} → Outcome A → A → Outcome A
or_recover (ok a) b = ok a
or_recover (err e) b = err e
or_recover (panic m) b = ok b

module _ {W A : Type 0} where
  unfoldable pub pure : A → Action W A
  pure a s = (ok a, s)

  unfoldable pub fail : Error → Action W A
  fail e s = (err e, s)

  unfoldable pub crash : String → Action W A
  crash m s = (panic m, s)

  unfoldable pub gets : (State W → A) → Action W A
  gets f s = (ok (f s), s)

  -- A call into the world.
  unfoldable pub call : (W → Outcome A × W) → Action W A
  call f s = let (r, w) = f s.world in (r, record s { world = w })

  -- A call that the trace records.
  unfoldable pub perform : Effect → (W → Outcome A × W) → Action W A
  perform e f s = let (r, w) = f s.world in (r, record s { world = w; trace = e ∷ s.trace })

  abbrev pub or_else : Outcome A → (Error → Action W A) → Action W A
  or_else (ok a) h s = (ok a, s)
  or_else (err e) h s = h e s
  or_else (panic m) h s = (panic m, s)

  -- `if err != nil { … }` behind a call.
  unfoldable pub catch : Action W A → (Error → Action W A) → Action W A
  catch m h s = let (r, t) = m s in or_else r h t

  -- `defer func() { recover() }()`: a panic becomes the zero values of the results.
  unfoldable pub recover : A → Action W A → Action W A
  recover b m s = let (r, t) = m s in (or_recover r b, t)

  abbrev pub from_outcome : Outcome A → Action W A
  from_outcome r s = (r, s)

module _ {W : Type 0} where
  -- `recorder.Event`
  unfoldable pub emit : Effect → Action W Unit
  emit e s = (ok tt, record s { trace = e ∷ s.trace })

  -- An assignment through the pointer `nodeDeploy`.
  unfoldable pub assign : (NodeDeploy → NodeDeploy) → Action W Unit
  assign f s = (ok tt, record s { object = f s.object })

  -- An assignment to the variable `status` of `Reconcile`.
  unfoldable pub set_outcome : NodeStatus → Action W Unit
  set_outcome x s = (ok tt, record s { outcome = x })

module _ {W A B : Type 0} where
  abbrev pub continue : Outcome A → (A → Action W B) → Action W B
  continue (ok a) f s = f a s
  continue (err e) f s = (err e, s)
  continue (panic m) f s = (panic m, s)

  infixl 10 ◌>>=◌ ◌>>◌
  -- An error or a panic ends the function. Opening this opens the actions above.
  unfoldable pub ◌>>=◌ : Action W A → (A → Action W B) → Action W B
  unfolding pure fail crash gets call perform catch recover emit assign set_outcome
  ◌>>=◌ m f s = let (r, t) = m s in continue r f t

  abbrev pub ◌>>◌ : Action W A → Action W B → Action W B
  m >> n = m >>= λ _. n
