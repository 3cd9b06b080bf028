-- ===== src/Ssh/Commands.antt =====
-- `Exec` and `Upload` as steps of a plan.
use nodedeploy_controller.Prelude.{
  ℕ, String, ◌<>◌, [], ◌∷◌, ◌≡◌, refl, ◌≢◌, Option, none, some, subst,
}
use nodedeploy_controller.Text.{octal}
use nodedeploy_controller.Machine.{
  Error, Outcome, ok, err, panic, Effect, exec, upload, State, Action, continue, or_recover, pure,
  fail, call, perform, recover, ◌>>=◌,
}
use nodedeploy_controller.Machine.Plans.{Plan, must, Performs, Does, is_ok}
use nodedeploy_controller.Machine.Plans.Rules.{
  Performs-pure, Performs-fail, Performs-call, Performs-perform, Performs-bind,
}
use nodedeploy_controller.Machine.Plans.Errors.{Performs-catch, Quits-fail}
use nodedeploy_controller.Env.{Env, RunResult, finished, cancelled}
use nodedeploy_controller.Env.Laws.{IsCalm}
use nodedeploy_controller.Ssh.{Client, exec_result, exec_body, exec_cmd, copy_result, upload_file}

-- The run of a command under sudo, and the copy of a file.
abbrev pub Command : String → Effect → Type 0
Command cmd e = e ≡ exec ("sudo -S " <> cmd)

abbrev pub Copy : String → String → Effect → Type 0
Copy src dest e = e ≡ upload src dest

-- `chmod` with any mode
abbrev pub Chmod : String → Effect → Type 0
Chmod dest e = (mode : ℕ) × Command ("chmod " <> octal mode <> " " <> dest) e

-- An action that does not panic.
record IsCalmAction {W A : Type 0} (m : State W → Outcome A × State W) : Type 0 where
  at : (s : State W) (t : String) → (m s).0 ≢ panic t

module _ {W A B : Type 0} where
  calm_continue :
      (r : Outcome A) (f : A → Action W B) (s : State W)
      → ((t : String) → r ≢ panic t)
      → ((a : A) → IsCalmAction (f a))
      → (t : String) → (continue r f s).0 ≢ panic t
  calm_continue (ok a) f s calm next t = (next a).at s t
  calm_continue (err e) f s calm next t = λ p. cc
  calm_continue (panic m) f s calm next t = absurd (calm m refl)

  bind-IsCalmAction :
      (m : Action W A) (f : A → Action W B)
      → IsCalmAction m
      → ((a : A) → IsCalmAction (f a))
      → IsCalmAction (m >>= f)
  unfolding ◌>>=◌
  bind-IsCalmAction m f calm next = record {
    at = λ s t. calm_continue (m s).0 f (m s).1 (calm.at s) next t;
  }

recovered :
    {A : Type 0} (r : Outcome A) (b : A)
    → ((m : String) → r ≢ panic m)
    → is_ok r ≡ is_ok (or_recover r b)
recovered (ok a) b calm = refl
recovered (err e) b calm = refl
recovered (panic m) b calm = absurd (calm m refl)

Performs-recover :
    {W A : Type 0} {p : Plan} (b : A) (m : State W → Outcome A × State W)
    → IsCalmAction m
    → Performs p m
    → Performs p (recover b m)
unfolding recover
Performs-recover {p} b m calm d = record {
  at = λ s. subst (λ k. Does p k s (m s).1) (recovered (m s).0 b (calm.at s)) (d.at s);
}

module _ (E : Env) (calm : IsCalm E.ssh) (c : Client E) where
  exec_result-IsCalmAction : (r : RunResult) → IsCalmAction (exec_result E r)
  unfolding exec_result pure fail
  exec_result-IsCalmAction (finished none out err_out) = record { at = λ s t p. cc }
  exec_result-IsCalmAction (finished (some e) out err_out) = record { at = λ s t p. cc }
  exec_result-IsCalmAction (cancelled e) = record { at = λ s t p. cc }

  exec_body-IsCalmAction : (cmd : String) → IsCalmAction (exec_body E (some c) cmd)
  unfolding exec_body call perform
  exec_body-IsCalmAction cmd =
      bind-IsCalmAction _ _ (record { at = λ s t. calm.new_session_calm c.conn s.world t })
        λ session.
          bind-IsCalmAction _ _ (record { at = λ s t. calm.stdin_pipe_calm session s.world t })
            λ _. bind-IsCalmAction _ _ (record { at = λ s t p. cc }) exec_result-IsCalmAction

  exec_result-Performs : (r : RunResult) → Performs [] (exec_result E r)
  unfolding exec_result
  exec_result-Performs (finished none out err_out) = Performs-pure _
  exec_result-Performs (finished (some e) out err_out) = Performs-fail _ _
  exec_result-Performs (cancelled e) = Performs-fail _ _

  exec_body-Performs :
      (K : Effect → Type 0) (cmd : String)
      → K (exec ("sudo -S " <> cmd))
      → Performs (must K ∷ []) (exec_body E (some c) cmd)
  unfolding exec_body
  exec_body-Performs K cmd k = Performs-bind _ _ (Performs-call _) λ session.
      Performs-bind _ _ (Performs-call _)
        λ _. Performs-bind _ _ (Performs-perform K _ _ (λ es. refl) k) exec_result-Performs

  -- `Exec` runs its command, or fails before.
  pub exec_cmd-Performs :
      (K : Effect → Type 0) (cmd : String)
      → K (exec ("sudo -S " <> cmd))
      → Performs (must K ∷ []) (exec_cmd E (some c) cmd)
  unfolding exec_cmd
  exec_cmd-Performs K cmd k =
      Performs-recover "" _ (exec_body-IsCalmAction cmd) (exec_body-Performs K cmd k)

  copy_result-Performs :
      (src dest : String) (o : Option Error) → Performs [] (copy_result E src dest o)
  unfolding copy_result
  copy_result-Performs src dest none = Performs-pure tt
  copy_result-Performs src dest (some e) = Performs-fail _ _

  pub upload_file-Performs :
      (src dest : String)
      → Performs (must (Copy src dest) ∷ must (Chmod dest) ∷ []) (upload_file E (some c) src dest)
  unfolding upload_file
  upload_file-Performs src dest = Performs-bind _ _ (Performs-call _) λ _.
      Performs-bind _ _ (Performs-catch _ _ (Performs-call _) λ e. Quits-fail _) λ mode.
        Performs-bind _ _ (Performs-catch _ _ (Performs-call _) λ e. Quits-fail _) λ _.
          Performs-bind _ _ (Performs-catch _ _ (Performs-call _) λ e. Quits-fail _) λ _.
            Performs-bind _ _ (Performs-perform (Copy src dest) _ _ (λ es. refl) refl) λ copied.
              Performs-bind _ _ (copy_result-Performs src dest copied) λ _.
                Performs-catch _ _
                  (Performs-bind _ _ (exec_cmd-Performs (Chmod dest) _ (mode, refl))
                    λ _. Performs-pure tt)
                  λ e. Quits-fail _
