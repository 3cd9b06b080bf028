-- ===== src/Ssh.antt =====
-- utils/ssh/ssh.go: the SSH client. A client that could not be made is nil, `none`.
pub mod Frames
pub mod Recovery
pub mod Commands
pub mod Pipe
use nodedeploy_controller.Prelude.{String, ◌<>◌, Option, none, some, str_eq, if◌then◌else◌}
use nodedeploy_controller.Text.{trim_space, octal}
use nodedeploy_controller.Machine.{
  Error, Outcome, ok, State, dial, exec, upload, pure, fail, crash, call, perform, catch, recover,
  ◌>>=◌, ◌>>◌,
}
use nodedeploy_controller.Env.{Env, RunResult, finished, cancelled}

module _ (E : Env) where
  pub record Client : Type 0 where
    pub server : String
    pub conn : E.ssh.Conn
    pub passwd : String

  abbrev pub password_auth : String → Option String
  password_auth password = if str_eq password "" then none else some password

  -- `NewClient`
  unfoldable pub new_client :
      String → String → String → String → State E.World → Outcome Client × State E.World
  new_client host port user password = do
    let server = host <> ":" <> port
    conn ← perform (dial server) (E.ssh.dial server user (password_auth password))
    pure (record { server = server; conn = conn; passwd = password })

  -- `errors.Wrapf(err, format)`
  abbrev pub wrapf : Error → String → Error
  wrapf e text = record e { message = text <> ": " <> e.message }

  -- What a goroutine delivers: the deferred function of its starter does not see a panic of it.
  abbrev pub in_goroutine : {A : Type 0} → (E.World → A × E.World) → E.World → Outcome A × E.World
  in_goroutine f w = let (a, v) = f w in (ok a, v)

  -- The `select` in `Exec`.
  exec_result : RunResult → State E.World → Outcome String × State E.World
  exec_result (finished none out err_out) = pure (trim_space (out <> err_out))
  exec_result (finished (some e) out err_out) = fail (wrapf e (E.library.sprintf (out <> err_out)))
  exec_result (cancelled e) = fail e

  -- `Exec` behind its `defer`: `c.conn` of a nil client panics.
  exec_body : Option Client → String → State E.World → Outcome String × State E.World
  unfolding exec_result
  exec_body none cmd = crash "nil pointer dereference"
  exec_body (some c) cmd = do
    session ← call (E.ssh.new_session c.conn)
    call (E.ssh.stdin_pipe session)
    let line = "sudo -S " <> cmd
    result ← perform (exec line) (in_goroutine (E.ssh.run session (c.passwd <> "\n") line))
    exec_result result

  -- `Client.Exec`
  unfoldable pub exec_cmd : Option Client → String → State E.World → Outcome String × State E.World
  unfolding exec_body
  exec_cmd c cmd = recover "" (exec_body c cmd)

  -- The `select` in `Upload`.
  copy_result : String → String → Option Error → State E.World → Outcome Unit × State E.World
  copy_result src dest none = pure tt
  copy_result src dest (some e) = fail (wrapf e ("io copy src:" <> src <> ", dest:" <> dest))

  -- `Client.Upload`, which has no recover.
  unfoldable pub upload_file :
      Option Client → String → String → State E.World → Outcome Unit × State E.World
  unfolding copy_result
  upload_file none src dest = crash "nil pointer dereference"
  upload_file (some c) src dest = do
    call (E.ssh.sftp_client c.conn)
    mode ← catch (call (E.ssh.stat_mode src)) λ e. fail (wrapf e ("stat file:" <> src))
    catch (call (E.ssh.sftp_create dest)) λ e. fail (wrapf e ("create dest file:" <> dest))
    catch (call (E.ssh.open_file src)) λ e. fail (wrapf e ("open src file:" <> src))
    copied ← perform (upload src dest) (in_goroutine (E.ssh.copy src dest))
    copy_result src dest copied
    let cmd = "chmod " <> octal mode <> " " <> dest
    catch (exec_cmd (some c) cmd >> pure tt) λ e. fail (wrapf e ("cmd:" <> cmd))
