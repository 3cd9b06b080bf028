-- ===== src/Ssh/Pipe.antt =====
-- utils/ssh/ssh.go: `ExecPipe`.
use nodedeploy_controller.Prelude.{String, ◌≡◌, refl, Option, none, some}
use nodedeploy_controller.Machine.{
  Outcome, ok, panic, State, exec, fail, crash, call, perform, catch, recover, ◌>>=◌, ◌>>◌,
}
use nodedeploy_controller.Env.{Env}
use nodedeploy_controller.Ssh.{Client, wrapf}

module _ (E : Env) where
  -- `ExecPipe` behind its `defer`; `set_pipe` is the callback, which gets stdout and stderr.
  unfoldable pub exec_pipe_body :
      Option (Client E)
      → String
      → (E.ssh.Pipe → E.ssh.Pipe → State E.World → Outcome Unit × State E.World)
      → State E.World
      → Outcome Unit × State E.World
  exec_pipe_body none cmd set_pipe = crash "nil pointer dereference"
  exec_pipe_body (some c) cmd set_pipe = do
    session ←
        catch (call (E.ssh.new_session c.conn)) λ e. fail (wrapf E e (E.library.sprintf c.server))
    err_out ← call (E.ssh.stderr_pipe session)
    out ← call (E.ssh.stdout_pipe session)
    set_pipe out err_out
    perform (exec cmd) (E.ssh.run_piped session cmd)

  -- `Client.ExecPipe`
  unfoldable pub exec_pipe :
      Option (Client E)
      → String
      → (E.ssh.Pipe → E.ssh.Pipe → State E.World → Outcome Unit × State E.World)
      → State E.World
      → Outcome Unit × State E.World
  unfolding exec_pipe_body
  exec_pipe c cmd set_pipe = recover tt (exec_pipe_body c cmd set_pipe)

  -- Where the callback of `ExecPipe` panics, it reports success, although the command has not run: after
  -- the callback nothing happens.
  pub exec_pipe_swallows :
      (c : Client E) (cmd : String)
      (set_pipe : E.ssh.Pipe → E.ssh.Pipe → State E.World → Outcome Unit × State E.World)
      (s t : State E.World) (session : E.ssh.Session) (out err_out : E.ssh.Pipe) (u v w : E.World)
      (m : String)
      → E.ssh.new_session c.conn s.world ≡ (ok session, u)
      → E.ssh.stderr_pipe session u ≡ (ok err_out, v)
      → E.ssh.stdout_pipe session v ≡ (ok out, w)
      → set_pipe out err_out (record s { world = w }) ≡ (panic m, t)
      → exec_pipe (some c) cmd set_pipe s ≡ (ok tt, t)
  unfolding exec_pipe exec_pipe_body ◌>>=◌
  exec_pipe_swallows c cmd set_pipe s t session out err_out u v w m opened errors outputs crashed =
      rw opened (rw errors (rw outputs (rw crashed refl)))
