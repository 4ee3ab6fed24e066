-- ===== src/Apiserver/Serving.antt =====
-- internal/apiserver/registry/sandbox/rest/attach.go and stream.go: serving a request to attach; with
-- storage/storage.go and server/config.go.
use sandbox_mommy.Base.{
  String, ◌<>◌, Bool, true, false, ◌&&◌, ◌||◌, Option, none, some, List, [], ◌∷◌, ◌==◌, string_eq,
  if◌then◌else◌,
}
use sandbox_mommy.Text.{codes, equal_codes, lower_codes, contains_codes}
use sandbox_mommy.Exec.{Error, message, wrapped, Result, ok, err, Exec, ◌>>=◌, or_wrap, pure}
use sandbox_mommy.Api.{TypeMeta, ObjectMeta}
use sandbox_mommy.Apiserver.Secrets.{PodSecrets}
use sandbox_mommy.Apiserver.Attach.{Backend, Location}

-- The name and the namespace of a service account.
pub record NamespacedName : Type 0 where
  pub namespace : String
  pub name : String

abbrev pub upgradeable_methods : List String
upgradeable_methods = "GET" ∷ "POST" ∷ []

-- The headers of a request, by their canonical names; one that is not set is empty.
abbrev pub Headers : Type 0
Headers = String → String

abbrev pub set_header : String → String → Headers → Headers
set_header key value headers k = if k == key then value else headers k

abbrev pub set_headers : NamespacedName → PodSecrets → Headers → Headers
set_headers account secrets headers = set_header "X-Remote-Group" "system:serviceaccounts" (
    set_header "X-Remote-User"
      ("system:serviceaccount:" <> account.namespace <> ":" <> account.name)
      (set_header "Authorization" ("Bearer " <> secrets.token) headers))

abbrev pub is_web_socket_request : Headers → Bool
is_web_socket_request headers =
    equal_codes (lower_codes (headers "Upgrade")) (codes "websocket")
    && contains_codes (lower_codes (headers "Connection")) (codes "upgrade")

-- What the handler tells the responder.
pub data Refusal : Type 0 where
  bad_request : String → Refusal
  internal_error : Error → Refusal

-- The websocket library and the remote command executor, over a world `W`: `N` are connections and
-- `X` executors.
pub record Streams (W N X : Type 0) : Type 0 where
  pub upgrade : Headers → Exec W N
  pub new_executor : String → Location → Exec W X
  pub stream : X → N → Exec W Unit
  pub close : N → W → W

module _ {W N X : Type 0} (S : Streams W N X) where
  abbrev pub stream_on : N → X → Exec W Unit
  stream_on conn x = S.stream x conn

  abbrev pub spdy_stream : N → Location → Exec W Unit
  spdy_stream conn l =
      or_wrap (S.new_executor "POST" l) (λ e. message "failed to create SPDY executor: %v" [])
      >>= stream_on conn

  -- The deferred close of the connection, and the report of an error.
  abbrev pub streamed : N → Result (Unit {0}) × W → Option Refusal × W
  streamed conn (ok _, w) = (none, S.close conn w)
  streamed conn (err e, w) =
      (some (internal_error (message "failed to stream to kube-apiserver %s" [])), S.close conn w)

  abbrev pub upgraded : Location → Result N × W → Option Refusal × W
  upgraded l (err e, w) =
      (some (internal_error (wrapped "failed to upgrade to websocket: %w" [] e)), w)
  upgraded l (ok conn, w) = streamed conn (spdy_stream conn l w)

  abbrev pub serve_headers : Location → Headers → W → Option Refusal × W
  serve_headers l headers w =
      if is_web_socket_request headers
      then upgraded l (S.upgrade headers w)
      else (some (bad_request "WebSocket upgrade required"), w)

  -- What `podHandler` does with a request.
  abbrev pub serve_pod : NamespacedName → PodSecrets → Location → Headers → W → Option Refusal × W
  serve_pod account secrets l headers w = serve_headers l (set_headers account secrets headers) w

  -- What `kubevirtVMIHandler` does with a request; nothing calls it.
  abbrev pub serve_kubevirt_vmi :
      NamespacedName → PodSecrets → Location → Headers → W → Option Refusal × W
  serve_kubevirt_vmi account secrets l headers w =
      serve_headers l (set_headers account secrets headers) w

-- What `proxyHandler` does with a request, where `handle` is the proxy that the handler makes for a
-- location and a transport.
abbrev pub serve_proxy :
    {A : Type 0}
    → (Location → String → Headers → A)
    → NamespacedName
    → PodSecrets
    → Location
    → String
    → Headers
    → A
serve_proxy handle account secrets l transport headers =
    handle l transport (set_headers account secrets headers)

-- The sandbox of the subresource API.
pub record SubSandbox : Type 0 where
  pub type_meta : TypeMeta
  pub metadata : ObjectMeta

-- `Storage.Get`
abbrev pub get_storage : {W : Type 0} → Backend W → String → String → Exec W SubSandbox
get_storage B namespace name = do
  sandbox ← B.get_sandbox namespace name
  pure (record {
    type_meta = record { kind = "Sandbox"; api_version = "subresources.sandbox.io/v1alpha1" };
    metadata = sandbox.metadata;
  })

-- `Config`: whether its parts are there, and the service account.
pub record Config : Type 0 where
  pub apiserver : Bool
  pub rest : Bool
  pub service_account : NamespacedName

abbrev pub config_invalid : Error
config_invalid = message "configuration is invalid" []

abbrev pub required : String → Option Error
required what = some (wrapped "%w: %s" (what ∷ []) config_invalid)

abbrev pub validate_account : NamespacedName → Option Error
validate_account account =
    if account.name == "" || account.namespace == ""
    then required "ServiceAccount is required"
    else none

abbrev pub validate : Bool → Bool → NamespacedName → Option Error
validate false _ account = required "Apiserver is required"
validate true false account = required "Rest is required"
validate true true account = validate_account account

abbrev pub validate_config : Config → Option Error
validate_config c = validate c.apiserver c.rest c.service_account
