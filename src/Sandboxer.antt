-- ===== src/Sandboxer.antt =====
-- internal/controller/sandbox/sandboxer.go: what the reconciler asks of a sandbox type, and the
-- loops and builders that pod.go, kubevirt.go, dvp.go and pvc.go share.
pub mod Pvc
pub mod Pod
pub mod Kubevirt
pub mod Dvp
pub mod Names
pub mod Loops
pub mod Ownership
pub mod Ensure
pub mod Release
pub mod Settle
pub mod Collect
pub mod Ready
use sandbox_mommy.Base.{
  String, ◌<>◌, Bool, true, false, List, [], ◌∷◌, map, Option, none, some, contains, if◌then◌else◌,
}
use sandbox_mommy.Exec.{
  Exec, Result, ok, err, Error, wrapped, message, is_not_found, pure, or_wrap, ◌>>=◌, ◌>>◌,
}
use sandbox_mommy.Api.{
  Object, ObjectMeta, ObjectKey, object_key, object_key_eq, ConditionStatus, condition_true,
  condition_false, Reason, Sandbox, SandboxTemplateSpec, VmCondition, sandbox_kind,
  scheme_group_version,
}
use sandbox_mommy.Base.Int.{pos}
use sandbox_mommy.Common.{get_full_name}
use sandbox_mommy.Env.{Env, KindClient}
use sandbox_mommy.FeatureGate.{FeatureGate, gate_string}

-- The interface `Sandboxer`.
pub record Sandboxer (World : Type 0) : Type 0 where
  pub create : Sandbox → SandboxTemplateSpec → Exec World Unit
  pub delete : Sandbox → Exec World Unit
  pub status : Sandbox → Exec World (ConditionStatus × Reason × String)

abbrev pub label_sandbox_uid : String
label_sandbox_uid = "sandbox.io/uid"

-- `client.ObjectKeyFromObject(obj).String()`
abbrev pub key_string : ObjectKey → String
key_string key = key.namespace <> "/" <> key.name

-- The key of the pod or the virtual machine of a sandbox.
abbrev pub main_key : Sandbox → ObjectKey
main_key sandbox = record { namespace = sandbox.metadata.namespace; name = get_full_name sandbox }

-- The error of a sandbox type whose feature gate is not set.
abbrev pub gate_closed : FeatureGate → Error
gate_closed gate = message "featuregate %s is not enabled" (gate_string gate ∷ [])

module _ (E : Env) where
  -- The `ObjectMeta` that every created object gets.
  abbrev pub owned_meta : Sandbox → String → ObjectMeta
  owned_meta sandbox name = record {
    name = name;
    namespace = sandbox.metadata.namespace;
    uid = "";
    generation = pos 0;
    creation_timestamp = pos 0;
    deletion_timestamp = none;
    finalizers = [];
    annotations = [];
    labels = (label_sandbox_uid, sandbox.metadata.uid) ∷ [];
    owner_references = E.new_controller_ref sandbox.metadata sandbox_kind scheme_group_version ∷ [];
  }

module _ (E : Env) {Spec Status : Type 0} where
  -- The loop that keeps the listed objects which the sandbox controls.
  abbrev pub controlled : Sandbox → List (Object Spec Status) → List (Object Spec Status)
  controlled sandbox [] = []
  controlled sandbox (o ∷ os) =
      let rest = controlled sandbox os in
      if E.is_controlled_by o.metadata sandbox.metadata then o ∷ rest else rest

-- `if err != nil { if apierrors.IsNotFound(err) { return nil, nil }; return nil, fmt.Errorf(...) }`
abbrev pub found_or_nil : {W O : Type 0} → String → Result O × W → Result (Option O) × W
found_or_nil format (ok o, s) = (ok (some o), s)
found_or_nil format (err e, s) =
    if is_not_found e then (ok none, s) else (err (wrapped format [] e), s)

module _ (E : Env) {Spec Status : Type 0} (c : KindClient E.World (Object Spec Status)) where
  -- List the namespace of the sandbox and keep what the sandbox controls.
  unfoldable pub list_controlled : String → Sandbox → Exec E.World (List (Object Spec Status))
  list_controlled format sandbox = do
    items ← or_wrap (c.list sandbox.metadata.namespace) (wrapped format [])
    pure (controlled E sandbox items)

  -- `Get`, where an object that is not found is nil and no error.
  unfoldable pub find : String → ObjectKey → Exec E.World (Option (Object Spec Status))
  find format key s = found_or_nil format (c.get key s)

  -- The loop that creates the objects whose key is not among `existing`.
  unfoldable pub create_missing :
      String → List ObjectKey → List (Object Spec Status) → Exec E.World Unit
  create_missing format existing [] = pure tt
  create_missing format existing (o ∷ os) =
      (if contains existing (object_key o)
        then pure tt
        else or_wrap (c.create o) (λ _. message format (key_string (object_key o) ∷ [])))
      >> create_missing format existing os

  -- The loop that deletes every object of a list.
  unfoldable pub delete_all : String → List (Object Spec Status) → Exec E.World Unit
  delete_all format [] = pure tt
  delete_all format (o ∷ os) =
      or_wrap (c.delete o) (λ _. message format (key_string (object_key o) ∷ []))
      >> delete_all format os

  -- `if obj != nil { Delete }`
  abbrev pub delete_found : String → Option (Object Spec Status) → Exec E.World Unit
  delete_found format none = pure tt
  delete_found format (some o) =
      or_wrap (c.delete o) (λ _. message format (key_string (object_key o) ∷ []))

-- `condition.Message != ""`, appended to the messages.
abbrev pub messages : List VmCondition → List String
messages [] = []
messages (c ∷ cs) = elim c.message [
  | String.[] ↦ messages cs
  | String.◌∷◌ a m ↦ c.message ∷ messages cs
]

-- The `switch` on the reason in `Status`: only a failure has a message.
abbrev pub outcome_of : Reason → String → ConditionStatus × Reason × String
outcome_of Reason.ready failure = (condition_true, Reason.ready, "")
outcome_of Reason.failed failure = (condition_false, Reason.failed, failure)
outcome_of Reason.pending failure = (condition_false, Reason.pending, "")
outcome_of Reason.terminating failure = (condition_false, Reason.terminating, "")

-- `pod.Name` and the like, from which the loops build their maps of names.
abbrev pub name_of : {Spec Status : Type 0} → Object Spec Status → String
name_of o = o.metadata.name

-- `strings.Join`
abbrev pub join : List String → String → String
join [] sep = ""
join (m ∷ []) sep = m
join (m ∷ n ∷ ms) sep = m <> sep <> join (n ∷ ms) sep
