-- ===== src/Process/Aggregated.antt =====
-- cmd/apiserver/app: options.go and app.go, with internal/apiserver/server: config.go and server.go,
-- and api/install.go.
use sandbox_mommy.Base.{String, Bool, true, false, Option, none, some, List, [], ◌∷◌, if◌then◌else◌}
use sandbox_mommy.Exec.{Error, wrapped, Result, ok, Exec, pure, raise, ◌>>=◌, ◌>>◌, or_wrap}
use sandbox_mommy.Apiserver.Serving.{NamespacedName, validate_config}

-- The options that the code looks into.
pub record ServerOptions : Type 0 where
  pub service_account : NamespacedName
  pub show_version : Bool
  pub disable_auth_for_testing : Bool

-- What the process uses of its libraries, over a world `W`: `C` are configurations of the generic
-- server, `R` those of the REST client, `F` factories of informers, `G` generic servers. `sandbox_clients` makes the
-- clients of Kubernetes, KubeVirt and DVP.
pub record Machinery (W C R F G : Type 0) : Type 0 where
  pub print_version : W → W
  pub validate_logging : Exec W Unit
  pub default_certificates : Exec W Unit
  pub new_config : Exec W C
  pub apply_secure_serving : C → Exec W C
  pub apply_authentication : C → Exec W C
  pub apply_authorization : C → Exec W C
  pub apply_audit : C → Exec W C
  pub describe_api : C → C
  pub get_config : Exec W R
  pub set_defaults : R → Exec W R
  pub informer_factory : R → Exec W F
  pub new_server : C → Exec W G
  pub new_kubernetes : R → Exec W Unit
  pub new_kubevirt : R → Exec W Unit
  pub new_dvp : R → Exec W Unit
  pub install_group : List String → G → Exec W Unit
  pub run_informer : F → W → W
  pub wait_for_sync : F → W → Bool × W
  pub run_server : G → Exec W Unit

module _ {W C R F G : Type 0} (H : Machinery W C R F G) (o : ServerOptions) where
  abbrev pub apply_auth : C → Exec W C
  apply_auth c =
      if o.disable_auth_for_testing
      then pure c
      else (H.apply_authentication c >>= H.apply_authorization)

  -- `ApiserverConfig`
  abbrev pub apiserver_config : Exec W C
  apiserver_config = do
    or_wrap H.default_certificates (wrapped "error creating self-signed certificates: %w" [])
    fresh ← H.new_config
    served ← H.apply_secure_serving fresh
    guarded ← apply_auth served
    audited ← H.apply_audit guarded
    pure (H.describe_api audited)

  -- `RestConfig`
  abbrev pub rest_config : Exec W R
  rest_config = H.get_config >>= H.set_defaults

  abbrev pub validated : C × R → Option Error → Exec W (C × R)
  validated conf none = pure conf
  validated conf (some e) = raise e

  -- `ServerConfig`
  abbrev pub server_config : Exec W (C × R)
  server_config = do
    apiserver ← apiserver_config
    rest ← rest_config
    validated (apiserver, rest)
        (validate_config
          (record { apiserver = true; rest = true; service_account = o.service_account }))

  -- `NewGenericClientFromConfig`
  abbrev pub new_generic_client : R → Exec W Unit
  new_generic_client rest = H.new_kubernetes rest >> H.new_kubevirt rest >> H.new_dvp rest

  -- `sandboxInformerFactory`
  abbrev pub sandbox_informer_factory : R → Exec W F
  sandbox_informer_factory rest =
      or_wrap (H.informer_factory rest) (wrapped "unable to construct client: %w" [])

  -- `Build` and `Install`: the resources of the group.
  abbrev pub resources : List String
  resources = "sandboxes" ∷ "sandboxes/attach" ∷ []

  -- `Complete`
  abbrev pub complete : C × R → Exec W (F × G)
  complete (apiserver, rest) = do
    factory ← sandbox_informer_factory rest
    server ← H.new_server apiserver
    new_generic_client rest
    H.install_group resources server
    pure (factory, server)

  -- `Run`: without the cache in time the server does not run, and that is no error.
  abbrev pub synced : G → Bool × W → Result (Unit {0}) × W
  synced server (true, w) = H.run_server server w
  synced server (false, w) = (ok tt, w)

  abbrev pub run_synced : F × G → Exec W Unit
  run_synced (factory, server) w =
      synced server (H.wait_for_sync factory (H.run_informer factory w))

  -- `runCommand`
  abbrev pub run_server_command : Exec W Unit
  run_server_command w =
      if o.show_version
      then (ok tt, H.print_version w)
      else (H.validate_logging >> server_config >>= complete >>= run_synced) w
