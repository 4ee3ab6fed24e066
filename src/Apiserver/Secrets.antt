-- ===== src/Apiserver/Secrets.antt =====
-- pkg/controller/util/secrets.go and internal/apiserver/registry/sandbox/rest/secrets.go: the files
-- of the service account.
use sandbox_mommy.Base.{String, [], ◌==◌, string_eq, if◌then◌else◌}
use sandbox_mommy.Exec.{message, wrapped, Result, ok, Exec, ◌>>=◌, ◌>>◌, or_wrap}

abbrev pub namespace_path : String
namespace_path = "/var/run/secrets/kubernetes.io/serviceaccount/namespace"

abbrev pub token_path : String
token_path = "/var/run/secrets/kubernetes.io/serviceaccount/token"

abbrev pub ca_path : String
ca_path = "/var/run/secrets/kubernetes.io/serviceaccount/ca.crt"

-- What is kept of the files, empty until it is read.
pub record PodSecrets : Type 0 where
  pub ca : String
  pub token : String

-- `os.ReadFile`, over a world `W`.
module _ {W : Type 0} (read_file : String → Exec W String) where
  abbrev pub get_namespace_from_fs : Exec W String
  get_namespace_from_fs = read_file namespace_path

  abbrev pub get_service_account_token : Exec W String
  get_service_account_token =
      or_wrap (read_file token_path) (wrapped "failed to read service account token: %w" [])

  abbrev pub get_ca : Exec W String
  get_ca = or_wrap (read_file ca_path) (λ e. message "failed to read CA certificate: %v" [])

  -- A call on the world, from a state that holds the secrets too.
  abbrev pub beside : {A : Type 0} → PodSecrets → Result A × W → Result A × (PodSecrets × W)
  beside k (r, w) = (r, (k, w))

  abbrev pub outside : {A : Type 0} → Exec W A → Exec (PodSecrets × W) A
  outside m (k, w) = beside k (m w)

  abbrev pub put_token : String → Exec (PodSecrets × W) Unit
  put_token token (k, w) = (ok tt, (record { ca = k.ca; token = token }, w))

  abbrev pub put_ca : String → Exec (PodSecrets × W) Unit
  put_ca ca (k, w) = (ok tt, (record { ca = ca; token = k.token }, w))

  abbrev pub load_token : Exec (PodSecrets × W) Unit
  load_token s =
      if s.0.token == "" then (outside get_service_account_token >>= put_token) s else (ok tt, s)

  abbrev pub load_ca : Exec (PodSecrets × W) Unit
  load_ca s = if s.0.ca == "" then (outside get_ca >>= put_ca) s else (ok tt, s)

  -- `podSecrets.load`
  abbrev pub load : Exec (PodSecrets × W) Unit
  load = load_token >> load_ca
