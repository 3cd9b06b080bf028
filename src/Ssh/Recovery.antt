-- ===== src/Ssh/Recovery.antt =====
-- What the `recover` of `Client.Exec` does.
use nodedeploy_controller.Prelude.{String, ◌≡◌, refl, ◌≢◌, Option, none}
use nodedeploy_controller.Machine.{Outcome, ok, err, panic, State, or_recover, ◌>>=◌}
use nodedeploy_controller.Env.{Env}
use nodedeploy_controller.Ssh.{Client, exec_cmd, exec_body}

no_panic : {A : Type 0} (r : Outcome A) (a : A) (m : String) → or_recover r a ≢ panic m
no_panic (ok x) a m = λ e. cc
no_panic (err x) a m = λ e. cc
no_panic (panic x) a m = λ e. cc

module _ (E : Env) where
  pub exec_total :
      (c : Option (Client E)) (cmd : String) (s : State E.World) (m : String)
      → (exec_cmd E c cmd s).0 ≢ panic m
  unfolding exec_cmd ◌>>=◌
  exec_total c cmd s m = no_panic (exec_body E c cmd s).0 "" m

  pub exec_nil : (cmd : String) (s : State E.World) → exec_cmd E none cmd s ≡ (ok "", s)
  unfolding exec_cmd exec_body ◌>>=◌
  exec_nil cmd s = refl
