-- ===== src/Cli/Commands.antt =====
-- internal/sandbox/cmds: the commands that create and delete a sandbox.
use sandbox_mommy.Base.{
  String, Bool, true, false, none, List, [], ◌∷◌, ◌==◌, string_eq, if◌then◌else◌,
}
use sandbox_mommy.Base.Int.{ℤ, pos}
use sandbox_mommy.Exec.{message, Result, ok, err, Exec, raise, lift, ◌>>=◌, ◌>>◌}
use sandbox_mommy.Api.{Sandbox, ObjectMeta, sandbox_kind, unset}

-- The client library, its `Create` and `Delete` with the values of `DryRun`, and what the commands
-- print.
pub record Client (W : Type 0) : Type 0 where
  pub create : List String → Sandbox → Exec W Sandbox
  pub delete : List String → String → Exec W Unit
  pub print : String → W → W
  pub marshal : Sandbox → Result String

-- `ClientAndNamespaceFromContext`, the flag of the dry run, and the flags of `create`.
pub record Options (W : Type 0) : Type 0 where
  pub client : Result (Client W × String)
  pub dry_run : Bool
  pub template : String
  pub ttl : ℤ
  pub print : Bool

abbrev pub get_dry_run : Bool → List String
get_dry_run true = "All" ∷ []
get_dry_run false = []

-- The zero value of the metadata with the name and the namespace.
abbrev pub named_meta : String → String → ObjectMeta
named_meta name namespace = record {
  name = name;
  namespace = namespace;
  uid = "";
  generation = pos 0;
  creation_timestamp = pos 0;
  deletion_timestamp = none;
  finalizers = [];
  annotations = [];
  labels = [];
  owner_references = [];
}

-- The time to live is the duration itself, as the type of the field wants it.
abbrev pub new_sandbox : String → String → String → ℤ → Sandbox
new_sandbox name namespace template ttl = record {
  type_meta = record { kind = sandbox_kind; api_version = "v1alpha1" };
  metadata = named_meta name namespace;
  spec = record { template = template; template_spec = none; ttl = ttl };
  status = record { type = unset; conditions = [] };
}

abbrev pub print_text : {W : Type 0} → Client W → Result String → Exec W Unit
print_text c (err e) w = (err e, w)
print_text c (ok text) w = (ok tt, c.print text w)

module _ {W : Type 0} (o : Options W) where
  abbrev pub note : Client W → String → Exec W Unit
  note c text w = if o.dry_run then (ok tt, c.print text w) else (ok tt, w)

  abbrev pub printed : Client W → Sandbox → Exec W Unit
  printed c sandbox w = if o.print then print_text c (c.marshal sandbox) w else (ok tt, w)

  abbrev pub create_with : String → Client W × String → Exec W Unit
  create_with name (c, namespace) = do
    note c "Dry run mode, no resources will be created."
    sandbox ← c.create (get_dry_run o.dry_run) (new_sandbox name namespace o.template o.ttl)
    printed c sandbox

  abbrev pub run_create : String → Exec W Unit
  run_create name =
      if o.template == ""
      then raise (message "--template is required" [])
      else (lift o.client >>= create_with name)

  abbrev pub delete_with : String → Client W × String → Exec W Unit
  delete_with name (c, namespace) = do
    note c "Dry run mode, no resources will be deleted."
    c.delete (get_dry_run o.dry_run) name

  abbrev pub run_delete : String → Exec W Unit
  run_delete name = lift o.client >>= delete_with name
