-- ===== src/Lib.antt =====
-- The verification library of sandbox-mommy, a Kubernetes operator in Go that runs sandboxes: pods,
-- KubeVirt virtual machine instances or DVP virtual machines made from a template, with a time to live.
--
-- How the parts interact. The base reconciler (pkg/controller/reconciler) reads an object, hands a
-- copy to the controller's own reconciler and writes the copy's status and metadata back. The sandbox
-- controller (internal/controller/sandbox) reads the template, chooses a sandboxer by the template's
-- spec, and has it create or delete the children of the sandbox; it keeps a finalizer on the sandbox
-- and on the template (pkg/controller/util/protect.go) and reports a condition
-- (pkg/controller/condition). The webhooks (pkg/controller/validator, internal/controller/service)
-- decide which objects the controllers see at all.
--
-- The command line tool (internal/sandbox) creates sandboxes and attaches to them through the client
-- library (api/client/kubeclient), which opens a websocket to the aggregated API server
-- (internal/apiserver). That server finds the pod or the machine of a sandbox that is ready, and
-- streams the bytes of the connection to it.
--
-- Which file models what:
--   Api/Meta, Api/Workload    the parts of the Kubernetes types that the code reads or writes
--   Api/Resource              api/core/v1alpha1: sandbox_types.go, sandboxtemplate_types.go,
--                             finalizers.go and the two packages of conditions
--   Common, FeatureGate       internal/common, internal/featuregate
--   Condition                 pkg/controller/condition/condition.go
--   Patch, Protect, Updater   pkg/patch/patch.go, pkg/controller/util/protect.go,
--                             pkg/controller/reconciler/meta_updater.go and status_updater.go
--   Validator, Webhook        pkg/controller/validator/validator.go,
--                             internal/controller/service/volume_validator.go, sandbox_webhook.go,
--                             sandboxtemplate_validator.go
--   Reconciler                pkg/controller/reconciler/base_reconciler.go
--   Sandboxer and below       internal/controller/sandbox: sandboxer.go, pvc.go, pod.go, kubevirt.go,
--                             dvp.go
--   Controller/Sandbox        internal/controller/sandbox/sandbox_reconciler.go
--   Controller/Template       internal/controller/sandboxtemplate/sandboxtemplate_reconciler.go
--   Stream, Stream/Copy       what the streaming code uses of Go's package io, and what io.Copy brings
--   Kubeclient and below      api/client/kubeclient: websocket.go (Kubeclient, Reader, Delivery),
--                             request.go and async.go (Request, Attempts), sandbox.go (Attach,
--                             Attempts); the option type of api/subresources/v1alpha1/types.go
--   Kubeclient/Client         config.go, client.go and streamer.go; internal/sandbox/clientconfig
--   Apiserver/Stream, Relay   internal/apiserver/registry/sandbox/rest/stream.go, with the client's
--                             copier at the other end
--   Apiserver/Secrets         rest/secrets.go and pkg/controller/util/secrets.go
--   Apiserver/Attach, Guard,  rest/attach.go and client/client.go: where a request is sent
--     Pods
--   Apiserver/Serving         rest/attach.go and stream.go: serving a request; storage/storage.go and
--                             server/config.go
--   Cli/Console, Sessions     internal/sandbox/cmds/attach/attach.go
--   Cli/Commands              internal/sandbox/cmds: create.go, delete.go, dryrun.go
--   Controller/Watches        the watches of sandbox_reconciler.go
--   Controller/Sandbox/       the creation of a sandbox, the steady state of one that runs and the
--     Creation, Steady,       clean-up of a deleted one, with what each relies on of a sandboxer
--     Cleanup
--   Controller/Sandbox/       the three sandboxers as implementations of that
--     Creators, Cleaners
--   Controller/Sandbox/       the base reconciler around the sandbox reconciler, at a sandbox that is
--     Deletion                being deleted
--   Process/Manager           cmd/controller/app/app.go, and SetupController of both controllers
--   Process/Aggregated        cmd/apiserver/app, internal/apiserver/server and api/install.go
--   Settings                  pkg/config/flags.go and pkg/logging/logging.go
--   Loop, Text                a Go `for` without a condition, on fuel; Go's package strings
--   Exec                      Go functions that return an error, over a state
--   Env, Env/Store,           what the program uses and does not implement, and its documented
--     Env/Writable            behaviour
--   Memory, Tests             a cluster in memory that behaves so, and the theorems at it
--
-- State and operations. A function of the source keeps its name, in snake case; a method that changes
-- a cluster is `Exec World`, and a step of the sandbox reconciler is `Exec (Sandbox × World)`, since it
-- also changes the copy it was given: the state comes back beside an error too. The calls on
-- `client.Client` are one `KindClient` for each kind. A method of the condition builder becomes a
-- function `with_...`, and the pointer that the source passes around becomes the builder returned.
--
-- The streaming code is over the states of a connection, a writer and a terminal, which are parameters
-- (`Socket`, `Sender`, `Connection`, `Writer`, `Net`, `Timer`, `Terminal`); the records `Delivers`,
-- `Sends`, `Receives`, `Takes`, `Source` and `Clock` say what the websocket library, io.Reader,
-- io.Writer and package time document of them. Goroutines are modelled by what their channels hand on.
--
-- What the theorems assume of the cluster is the record `Store` of Env/Store.antt: no call fails for a
-- reason of its own, there is one object for a key, a listing of a namespace holds exactly its objects,
-- a creation is refused where the key is taken, and a deletion leaves the object gone or with a
-- deletion timestamp. `Apart` says that writes to one kind leave another. `Writable` of Env/Writable.antt
-- says that a JSON patch is applied to the metadata as RFC 6902 says, that a patch which takes the last
-- finalizer off a deleted object removes it, and that a write of the status takes nothing else.
--
-- Bounds. The loops of the controllers run over a list and are recursion on it. The loops without a
-- condition (the reader of a connection, io.Copy, the attempts to attach, the console) are `Loop.loop`
-- on fuel, and each has a theorem that a stated amount of fuel is enough: a round more than the bytes
-- to copy, than the messages to read, than the seconds of the timeout, than the connections that end
-- without an error.
-- Times and durations are integers without bound: the saturation of Go's `time.Sub` at about 292 years
-- is left out.
--
-- Not modelled: log records, the flags, usage texts and construction of commands, the registration of
-- types in schemes, and generated code. In the modelled files:
-- the arguments of error messages that are not names; the difference of a nil slice and an empty one;
-- that the objects made from a template share slices and pointers with its spec, through which the full
-- names are written into that spec, for an inline template into the spec of the copy of the sandbox (no
-- update sends that spec on); resource quantities and the other fields that the code passes on unread (`rest`, `Opaque`).
pub mod Base
pub mod Loop
pub mod Text
pub mod Exec
pub mod Api
pub mod Patch
pub mod Env
pub mod Condition
pub mod Protect
pub mod Common
pub mod FeatureGate
pub mod Sandboxer
pub mod Validator
pub mod Webhook
pub mod Updater
pub mod Reconciler
pub mod Controller
pub mod Memory
pub mod Stream
pub mod Kubeclient
pub mod Apiserver
pub mod Cli
pub mod Settings
pub mod Process
pub mod Tests
