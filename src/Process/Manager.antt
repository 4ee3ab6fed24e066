-- ===== src/Process/Manager.antt =====
-- cmd/controller/app/app.go, with SetupController of both controllers and Setup of their reconcilers.
use sandbox_mommy.Base.{String, Bool, true, false, List, [], ◌∷◌, ◌==◌, string_eq, if◌then◌else◌}
use sandbox_mommy.Exec.{wrapped, Exec, pure, ◌>>=◌, ◌>>◌, or_wrap}
use sandbox_mommy.Settings.{BaseOpts}
use sandbox_mommy.Controller.Watches.{Watch, watches}
use sandbox_mommy.Apiserver.Secrets.{get_namespace_from_fs}

abbrev pub app_name : String
app_name = "sandbox-controller"

-- `manager.Options`, less the scheme.
pub record ManagerOptions : Type 0 where
  pub leader_election : Bool
  pub leader_election_namespace : String
  pub leader_election_id : String
  pub leader_election_resource_lock : String
  pub metrics_bind_address : String
  pub pprof_bind_address : String

-- What is registered with a manager: a controller for a kind with the children it watches, or the
-- webhooks of a kind.
pub data Registration : Type 0 where
  controller : (name kind : String) (owns : List Watch) (recover_panic : Bool) → Registration
  webhook : (kind : String) (validates defaults : Bool) → Registration

-- What the process uses of its libraries, over a world `W`, with configurations `C` and managers `M`.
pub record Host (W C M : Type 0) : Type 0 where
  pub schemes : List (Exec W Unit)
  pub read_file : String → Exec W String
  pub get_config : Exec W C
  pub new_clientset : C → Exec W Unit
  pub new_manager : ManagerOptions → C → Exec W M
  pub register : Registration → M → Exec W Unit
  pub start : M → Exec W Unit
  pub gates : List String

pub record ControllerOptions : Type 0 where
  pub base : BaseOpts
  pub leader_election : Bool

module _ {W C M : Type 0} (H : Host W C M) where
  -- The loop over the schemes.
  abbrev pub add_schemes : List (Exec W Unit) → Exec W Unit
  add_schemes [] = pure tt
  add_schemes (f ∷ fs) = or_wrap f (wrapped "failed to setup scheme: %w" []) >> add_schemes fs

  abbrev pub namespace_of : String → Exec W String
  namespace_of namespace =
      if namespace == "" then get_namespace_from_fs H.read_file else pure namespace

  abbrev pub manager_options : ControllerOptions → String → ManagerOptions
  manager_options opts namespace = record {
    leader_election = opts.leader_election;
    leader_election_namespace = namespace;
    leader_election_id = app_name;
    leader_election_resource_lock = "leases";
    metrics_bind_address = opts.base.metrics_bind_address;
    pprof_bind_address = opts.base.pprof_bind_address;
  }

  -- `Setup` of the two reconcilers.
  abbrev pub setup_sandbox : M → Exec W Unit
  setup_sandbox mgr =
      H.register (controller "sandbox-controller" "Sandbox" (watches H.gates) true) mgr

  abbrev pub setup_template : M → Exec W Unit
  setup_template mgr =
      H.register (controller "sandboxtemplate-controller" "SandboxTemplate" [] true) mgr

  -- `SetupController` of each.
  abbrev pub setup_sandbox_controller : M → Exec W Unit
  setup_sandbox_controller mgr =
      or_wrap (setup_sandbox mgr) (wrapped "failed to setup %q: %w" ("sandbox-controller" ∷ []))
      >> H.register (webhook "Sandbox" true true) mgr

  abbrev pub setup_template_controller : M → Exec W Unit
  setup_template_controller mgr =
      or_wrap (setup_template mgr)
        (wrapped "failed to setup %q: %w" ("sandboxtemplate-controller" ∷ []))
      >> H.register (webhook "SandboxTemplate" true false) mgr

  -- `runCommand`
  abbrev pub run_command : ControllerOptions → Exec W Unit
  run_command opts = do
    add_schemes H.schemes
    namespace ← namespace_of opts.base.namespace
    cfg ← H.get_config
    H.new_clientset cfg
    mgr ← H.new_manager (manager_options opts namespace) cfg
    or_wrap (setup_sandbox_controller mgr) (wrapped "failed to setup Sandbox controller %w" [])
    or_wrap (setup_template_controller mgr)
        (wrapped "failed to setup SandboxTemplate controller %w" [])
    H.start mgr
