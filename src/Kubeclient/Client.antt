-- ===== src/Kubeclient/Client.antt =====
-- api/client/kubeclient: config.go, client.go and streamer.go; with clientconfig.go and sandbox.go of
-- internal/sandbox.
use sandbox_mommy.Base.{String, Bool, true, Option, none, some, [], ◌==◌, string_eq, if◌then◌else◌}
use sandbox_mommy.Exec.{Error, message, Result, ok, err}
use sandbox_mommy.Stream.{IoError}
use sandbox_mommy.Apiserver.Attach.{RestConfig}
use sandbox_mommy.Kubeclient.Attach.{SandboxClient}

-- The libraries that make a REST client and a client set of a configuration.
pub record Clients : Type 0 where
  pub default_user_agent : String
  pub rest_client_for : RestConfig → Option Error
  pub new_for_config : RestConfig → Option Error

-- `client`: the caller's configuration, and the copy that its clients are made of.
pub record KubeClient : Type 0 where
  pub config : RestConfig
  pub shallow_copy : RestConfig

abbrev pub copy_of : RestConfig → RestConfig
copy_of config = record {
  host = config.host;
  group_version = "sandbox.io/v1alpha1";
  api_path = "/apis";
  content_type = "application/json";
  user_agent = config.user_agent;
}

module _ (E : Clients) where
  -- The default goes to the caller's configuration, after it was copied.
  abbrev pub with_user_agent : RestConfig → RestConfig
  with_user_agent config = record config {
    user_agent = if config.user_agent == "" then E.default_user_agent else config.user_agent;
  }

  abbrev pub made : RestConfig → Option Error → Option Error → Result KubeClient
  made config (some e) _ = err e
  made config none (some e) = err e
  made config none none =
      ok (record { config = with_user_agent config; shallow_copy = copy_of config })

  abbrev pub get_client_from_rest_config : RestConfig → Result KubeClient
  get_client_from_rest_config config =
      made config (E.rest_client_for (copy_of config)) (E.new_for_config (copy_of config))

  -- `GetClientFromClientConfig`, where the kubeconfig gives a configuration or an error.
  abbrev pub get_client_from_client_config : Result RestConfig → Result KubeClient
  get_client_from_client_config (err e) = err e
  get_client_from_client_config (ok config) = get_client_from_rest_config config

  -- `ClientAndNamespaceFromContext`: the context may hold no kubeconfig; its configuration and its
  -- namespace are read from it.
  abbrev pub with_namespace : Result KubeClient → Result String → Result (KubeClient × String)
  with_namespace (err e) _ = err e
  with_namespace (ok c) (err e) = err e
  with_namespace (ok c) (ok namespace) = ok (c, namespace)

  abbrev pub client_and_namespace_from_context :
      Option (Result RestConfig × Result String) → Result (KubeClient × String)
  client_and_namespace_from_context none =
      err (message "unable to get client config from context" [])
  client_and_namespace_from_context (some (config, namespace)) =
      with_namespace (get_client_from_client_config config) namespace

-- `Sandboxes`
abbrev pub sandboxes : KubeClient → String → SandboxClient
sandboxes c namespace = record {
  host = c.config.host;
  resource = "sandboxes";
  namespace = namespace;
}

-- A stream over a connection: whether the round tripper that keeps it open was told to end.
pub record Streamer : Type 0 where
  pub done : Bool

abbrev pub stream_done : Streamer → Streamer
stream_done ws = record { done = true }

-- Which of the two copiers of `Stream` ends first.
pub data First : Type 0 where
  input_first output_first : First

abbrev pub first_error : First → Option IoError → Option IoError → Option IoError
first_error input_first sent received = sent
first_error output_first sent received = received

-- `Stream`, by the errors of its copiers: it returns the first, and ends the round tripper.
abbrev pub stream : First → Option IoError → Option IoError → Streamer → Option IoError × Streamer
stream first sent received ws = (first_error first sent received, stream_done ws)
