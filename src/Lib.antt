-- ===== src/Lib.antt =====
-- Verification of the node deploy controller: a Kubernetes controller that reconciles NodeDeploy objects,
-- brings the node that an object describes into the cluster over SSH, and takes it out again.
--
-- The parts, from the top:
--   controllers/nodedeploy_controller.go  `Reconcile` reads an object, tests the guards, checks the
--     specification (`preflight`) and runs a launch or a removal under `retry.Do`, with `prepare` before
--     each attempt and `finalize` at the end: Reconcile.antt. The functions that it calls, `launchNode`
--     and `deprecateNode` among them: Phases.antt.
--   controllers/utils.go, and `watchNode` and the update of a new node: Node.antt.
--   pkg/nodemanager/manager.go  `LaunchByCmd` and `Deprecate`: Manager.antt. They call one of two
--     implementations of the interface `NodeJoin` of join.go and disjoin.go: NodeJoin.antt, and
--     NodeJoin/Work.antt for `WorkNode`, NodeJoin/KubeEdge.antt for `KubEdgeNode`.
--   pkg/nodemanager/token.go  bootstrap tokens: Token.antt; the information for joining: JoinInfo.antt.
--   pkg/nodemanager/progress.go and utils.go: Progress.antt and Arch.antt.
--   utils/ssh/ssh.go  the SSH client: Ssh.antt, and its `ExecPipe`, which nothing calls: Ssh/Pipe.antt.
--   api/v1/nodedeploy_types.go and pkg/types  the data: Api.antt.
--   api/v1/zz_generated.deepcopy.go  the deep copies: DeepCopy.antt, with the structs as they lie in
--     memory, which is a list of cells; what it means that a copy is deep is in DeepCopy/Laws.antt.
--   main.go, `SetupWithManager` and the registration of the API group (api/v1/groupversion_info.go):
--     Start.antt, over a small runtime of its own (the record `Runtime`), in which a call ends by going
--     on, by the exit of the process or by a panic; `flag.Parse` may end the process too.
--
-- How the code is read. A function with effects is a function on a state (Machine.antt): the object
-- behind the shared `*NodeDeploy`, the world, the variable `status` of `Reconcile`, and a trace of what
-- was done outside, the newest first. It returns a value, an error or a panic, so that error paths and
-- panics are values. Do blocks follow the statements of the source, `catch` is an `if err != nil`
-- with its body, and `recover` the deferred function of `Exec`. Function literals and loop bodies are
-- definitions of their own. Machine/Keeps.antt has the rules by which an invariant passes through such a
-- function, and the files named Frames.antt apply them: what a function does at all.
--
-- What is outside the repository is a parameter, the record `Env` of Env.antt: controller-runtime and
-- client-go, kubectl's drain helper, SSH and SFTP, the clock, semver, the token library, retry-go. It
-- may answer anything at any call. Where a theorem needs more, it takes documented behaviour as a
-- hypothesis (Env/Laws.antt): that the server keeps what it is sent, which is that an update returns the
-- status and the spec sent, the deadline in whole seconds, that the clock does not go back,
-- how `retry.Do` calls its function, that the session calls of the SSH library do not panic, and that a
-- list of pods that comes with errors leads to an error, and that a success of `RetryOnConflict` is one of
-- its last call. Tests/World.antt has functions that satisfy all of them, by Tests/Laws.antt.
--
-- Specifications beside the code. Machine/Plans.antt says what it means that a function carries out a
-- plan, a list of effects that have to come or may come next; its rules are in Machine/Plans/Rules.antt
-- and Machine/Plans/Errors.antt. The plan of an installation is put together in NodeJoin/Steps.antt, which
-- is the interface between the two implementations of `NodeJoin` and Manager/Plan.antt. Reconcile/Diagram.antt
-- has the life cycle of an object, and Reconcile/History.antt the versions of an object over many calls,
-- also calls that overlap or read an old version. Reconcile/Restart.antt joins a call that ends the work of
-- another with the call behind it.
--
-- Numbers. Instants and durations are nanoseconds. The conversion of `MaxRetry` to `uint` is written out
-- on 64 bits (`to_uint`). The loops are structural recursion, on a list or on a counter. The two loops on
-- fuel are in Text.antt, for the digits of a number and for `strings.Replace`; their fuel is the
-- number or the length of the text, and one more, and each turn makes the number or the text smaller.
-- Text/Decimal.antt reads the digits back.
--
-- Not modelled: log lines; the time that a call takes; goroutines other than through what they deliver
-- (the end of a command, or of the context), and a panic in one of them, which ends the
-- process; shell scripts and charts. Maps are lists
-- in the order in which they are read. A `NodeStatus` is one of the constants of the source.
pub mod Prelude
pub mod Text
pub mod Duration
pub mod Api
pub mod DeepCopy
pub mod Machine
pub mod Env
pub mod Progress
pub mod Arch
pub mod Ssh
pub mod Token
pub mod JoinInfo
pub mod NodeJoin
pub mod Manager
pub mod Node
pub mod Phases
pub mod Reconcile
pub mod Start
pub mod Tests
