-- ===== src/Env/Laws.antt =====
-- Documented behaviour of the parameters, as named hypotheses.
use nodedeploy_controller.Prelude.{
  ◌*◌, ◌/◌, String, ◌≢◌, ℕ, suc, ◌≤◌, ◌≡◌, List, Option, none, some,
}
use nodedeploy_controller.Api.{NodeDeploy, NodeDeployStatus}
use nodedeploy_controller.Machine.{Error, Outcome, ok, err, panic, State}
use nodedeploy_controller.Env.{Cluster, Retry, Ssh}

-- A deadline as the API server keeps it: `metav1.Time` is written in whole seconds.
abbrev pub kept_deadline : Option ℕ → Option ℕ
kept_deadline none = none
kept_deadline (some t) = some (t / 1000000000 * 1000000000)

abbrev pub as_kept : NodeDeployStatus → NodeDeployStatus
as_kept st = record st { deadline = kept_deadline st.deadline }

-- A successful update of the status returns the object with the status sent, its deadline in whole
-- seconds, and the same spec.
pub record IsFaithful {W : Type 0} (C : Cluster W) : Type 0 where
  pub keeps_status :
      (d d' : NodeDeploy) (w : W) → (C.update_status d w).0 ≡ ok d' → d'.status ≡ as_kept d.status
  pub keeps_spec : (d d' : NodeDeploy) (w : W) → (C.update_status d w).0 ≡ ok d' → d'.spec ≡ d.spec

-- The clock does not go back while the status is updated.
pub record IsMonotonic {W : Type 0} (C : Cluster W) : Type 0 where
  pub update_later :
      (d : NodeDeploy) (w : W) → (C.now w).0 ≤ (C.now (C.update_status d (C.now w).1).1).0

-- The SSH library reports its failures as errors: its session calls do not panic.
pub record IsCalm {W : Type 0} (S : Ssh W) : Type 0 where
  pub new_session_calm : (c : S.Conn) (w : W) (m : String) → (S.new_session c w).0 ≢ panic m
  pub stdin_pipe_calm : (x : S.Session) (w : W) (m : String) → (S.stdin_pipe x w).0 ≢ panic m

-- Where the list of the pods on a node comes with errors, they add up to an error.
pub record IsListing {W : Type 0} (C : Cluster W) (aggregate : List Error → Option Error)
    : Type 0 where
  pub reports :
      (name : String) (w : W) (pods : List String) (errs : List Error)
      → (C.get_pods_for_deletion name w).0 ≡ ok (pods, some errs)
      → aggregate errs ≢ none

-- Two runs that end alike, up to the text of an error.
pub data Alike {W : Type 0} : Outcome Unit × State W → Outcome Unit × State W → Type 0 where
  same : (r : Outcome Unit × State W) → Alike r r
  errors : (x y : Error) (u : State W) → Alike (err x, u) (err y, u)

module _ {W : Type 0} where
  abbrev pub pausing : (ℕ → W → W) → ℕ → State W → State W
  pausing pause d s = record s { world = pause d s.world }

-- retry-go's `Do` with a fixed delay: the function is called until it succeeds or the attempts are
-- used up, 0 for no end, with a pause between two calls; a panic passes through. `Do` and
-- `RetryOnConflict` do nothing but call the function and let time pass.
pub record IsRetry {W : Type 0} (R : Retry W) : Type 1 where
  pub pause : ℕ → W → W
  pub at_success :
      (n d : ℕ) (f : State W → Outcome Unit × State W) (s t : State W)
      → f s ≡ (ok tt, t)
      → R.do_retry n d f s ≡ (ok tt, t)
  pub at_panic :
      (n d : ℕ) (f : State W → Outcome Unit × State W) (s t : State W) (m : _)
      → f s ≡ (panic m, t)
      → R.do_retry n d f s ≡ (panic m, t)
  pub at_last :
      (d : ℕ) (f : State W → Outcome Unit × State W) (s t : State W) (e : Error)
      → f s ≡ (err e, t)
      → (x : Error) × (R.do_retry 1 d f s ≡ (err x, t))
  pub at_failure :
      (n d : ℕ) (f : State W → Outcome Unit × State W) (s t : State W) (e : Error)
      → f s ≡ (err e, t)
      → Alike (R.do_retry (suc (suc n)) d f s) (R.do_retry (suc n) d f (pausing pause d t))
  pub only_calls :
      (P : State W → Type 0) (f : State W → Outcome Unit × State W)
      → ((s : State W) (w : W) → P s → P (record s { world = w }))
      → ((s : State W) → P s → P (f s).1)
      → (n d : ℕ) (s : State W) → P s
      → P (R.do_retry n d f s).1
  pub only_calls_on_conflict :
      (P : State W → Type 0) (f : State W → Outcome Unit × State W)
      → ((s : State W) (w : W) → P s → P (record s { world = w }))
      → ((s : State W) → P s → P (f s).1)
      → (s : State W) → P s
      → P (R.retry_on_conflict f s).1

-- Where `RetryOnConflict` succeeds, its last call of the function has succeeded.
pub record IsConflictRetry {W : Type 0} (R : Retry W) : Type 0 where
  pub at_end :
      (f : State W → Outcome Unit × State W) (s t : State W)
      → R.retry_on_conflict f s ≡ (ok tt, t)
      → (u : State W) × (f u ≡ (ok tt, t))
