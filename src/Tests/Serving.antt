-- ===== src/Tests/Serving.antt =====
-- An API server with one sandbox that is ready, and the theorems on attaching to it; with an update
-- that the controller does not see.
use sandbox_mommy.Base.{String, string_eq, ◌≡◌, refl, true, false, none, [], ◌∷◌}
use sandbox_mommy.Base.Int.{pos}
use sandbox_mommy.Exec.{ok, err, message}
use sandbox_mommy.Exec.Holds.{Holds}
use sandbox_mommy.Api.{Sandbox, SandboxType, Pod, PodPhase, Container, condition_true}
use sandbox_mommy.Condition.{get_condition}
use sandbox_mommy.Apiserver.Attach.{Backend, exec, pod_handler, connect}
use sandbox_mommy.Apiserver.Guard.{Guarded, connect-Guarded}
use sandbox_mommy.Apiserver.Pods.{connect_pod}
use sandbox_mommy.Controller.Watches.{
  pod_update, before_update, after_update, Same, dropped-Same, PodPhase-discrete, pod_phase_eq,
}
use sandbox_mommy.Tests.Cluster.{cluster, sandbox, meta}

abbrev ready_sandbox : Sandbox
ready_sandbox = record sandbox {
  status = record {
    type = SandboxType.pod;
    conditions =
        record {
          type = "Ready";
          status = condition_true;
          observed_generation = pos 1;
          last_transition_time = pos 60;
          reason = "Ready";
          message = "";
        }
        ∷ [];
  };
}

abbrev container : String → Container
container name = record { name = name; volume_mounts = []; rest = "" }

-- The annotation names the second container.
abbrev two_containers : Pod
two_containers = record {
  type_meta = record { kind = "Pod"; api_version = "v1" };
  metadata = record (meta "sandbox-42" "7") {
    annotations = ("kubectl.kubernetes.io/default-container", "work") ∷ [];
  };
  spec = record { volumes = []; containers = container "side" ∷ container "work" ∷ []; rest = "" };
  status = record { phase = PodPhase.running; message = "" };
}

abbrev backend : Backend (Unit {0})
backend = record {
  get_sandbox = λ namespace name w. (ok ready_sandbox, w);
  get_pod = λ key w. (ok two_containers, w);
  get_vmi = λ key w. (err (message "no machine" []), w);
  get_vm = λ key w. (err (message "no machine" []), w);
  read_file = λ path w. (ok path, w);
  gates = [];
  config = record {
    host = "https://api";
    group_version = "";
    api_path = "";
    content_type = "";
    user_agent = "";
  };
  dvp_group_version = "subresources.virtualization.deckhouse.io/v1alpha2";
  default_user_agent = "agent";
  rest_client_for = λ c. none;
  append_certs = λ ca. true;
}

connect-Guarded_example :
    Holds
      (Guarded backend "default" "box" (record { ca = ""; token = "" }, tt))
      (connect backend "default" "box" (record { ca = ""; token = "" }, tt))
connect-Guarded_example =
    connect-Guarded backend "default" "box" (record { ca = ""; token = "" }, tt)

connect_pod_example :
    connect backend "default" "box" (record { ca = "ca"; token = "token" }, tt) ≡ (
      ok (pod_handler (exec "default" "sandbox-42" "side" ("/bin/bash" ∷ []) true true false true)),
      (record { ca = "ca"; token = "token" }, tt),
    )
unfolding string_eq get_condition
connect_pod_example =
    connect_pod backend "default" "box" (record { ca = "ca"; token = "token" })
      (record { ca = "ca"; token = "token" }) tt tt tt tt ready_sandbox two_containers
      (container "side") (container "work" ∷ []) refl refl refl refl refl refl

abbrev renamed_pod : Pod
renamed_pod = record two_containers {
  status = record { phase = PodPhase.running; message = "warm" };
}

dropped-Same_example :
    Same
      (before_update cluster (pod_update two_containers renamed_pod))
      (after_update cluster (pod_update two_containers renamed_pod))
unfolding pod_phase_eq PodPhase-discrete
dropped-Same_example = dropped-Same cluster (pod_update two_containers renamed_pod) refl
