-- ===== src/Tests/Reconciling.antt =====
-- `Reconcile`, the base reconciler and the time to live at concrete sandboxes.
use sandbox_mommy.Base.{
  string_eq, Bool, true, false, [], ◌∷◌, map, none, some, ◌≡◌, ◌≢◌, ◌↔◌, refl, arith, inr,
  if◌then◌else◌,
}
use sandbox_mommy.Base.Int.{ℤ, pos, ◌+ℤ◌, ◌<ℤ◌}
use sandbox_mommy.Exec.{ok, err, wrapped, Exec, message}
use sandbox_mommy.Api.{
  object_key, object_key_eq, Sandbox, SandboxStatus, SandboxType, dvp_vm, pod, unset,
}
use sandbox_mommy.Validator.{
  validate_create, validate_update, validate_delete, need_create_validate, need_update_validate,
  need_delete_validate,
}
use sandbox_mommy.Validator.Runs.{validate-eq-verdict, verdict}
use sandbox_mommy.Webhook.{sandbox_validator}
use sandbox_mommy.FeatureGate.{dvp, enabled}
use sandbox_mommy.Sandboxer.{gate_closed}
use sandbox_mommy.Env.{KindClient}
use sandbox_mommy.Reconciler.{ReconcileResult, no_requeue, reconcile as base_reconcile}
use sandbox_mommy.Reconciler.Quiet.{reconcile_quiet, reconcile_writes_status}
use sandbox_mommy.Controller.Sandbox.Steps.{
  is_ttl_expired, next_sync, initial_builder, handle_template_spec, handle_terminating,
  new_sandboxer, put_condition, missing_template, TemplateSpec, fetch_template,
}
use sandbox_mommy.Controller.Sandbox.{reconcile, put_type}
use sandbox_mommy.Controller.Sandbox.Ttl.{next_sync_exact, ttl_zero_expires}
use sandbox_mommy.Controller.Sandbox.Finalizers.{
  Drops, reconcile_deleted-Drops, reconcile_live-protected, protected_if, is_run,
}
use sandbox_mommy.Controller.Sandbox.Closed.{closed_gate_blocks}
use sandbox_mommy.Controller.Sandbox.Waiting.{reconcile-Waits}
use sandbox_mommy.Memory.{client}
use sandbox_mommy.Tests.Cluster.{World, empty_world, cluster, sandbox, sandbox_of}

abbrev hour : ℤ
hour = pos 3600000000000

hour_set : sandbox.spec.ttl ≢ pos 0
hour_set e = ground (arith, e)

next_sync_exact_example :
    (is_ttl_expired (pos 7200000000000) sandbox ≡ true)
    ↔ ((pos 100 +ℤ next_sync (pos 100) sandbox) <ℤ pos 7200000000000)
next_sync_exact_example = next_sync_exact (pos 100) (pos 7200000000000) sandbox hour_set

-- A sandbox with no time to live.
abbrev endless : Sandbox
endless = record sandbox { spec = record sandbox.spec { ttl = pos 0 } }

later : pos 50 <ℤ pos 100
later = ground arith

ttl_zero_expires_example :
    (is_ttl_expired (pos 100) endless ≡ true) × (next_sync (pos 100) endless ≡ pos 0)
ttl_zero_expires_example = ttl_zero_expires (pos 100) endless refl later

validate-eq-verdict_example :
    (validate_create (sandbox_validator []) (some sandbox) ≡ (
      if need_create_validate (sandbox_validator []).predicate sandbox
      then verdict (map (λ f. f sandbox) (sandbox_validator []).create)
      else ok []))
    × (validate_delete (sandbox_validator []) (some sandbox) ≡ (
        if need_delete_validate (sandbox_validator []).predicate sandbox
        then verdict (map (λ f. f sandbox) (sandbox_validator []).delete)
        else ok []))
    × (validate_update (sandbox_validator []) (some sandbox) (some endless) ≡ (
        if need_update_validate (sandbox_validator []).predicate sandbox endless
        then verdict (map (λ f. f sandbox endless) (sandbox_validator []).update)
        else ok []))
validate-eq-verdict_example = validate-eq-verdict (sandbox_validator []) sandbox endless

-- A sandbox that is being deleted.
abbrev going : Sandbox
going = record sandbox { metadata = record sandbox.metadata { deletion_timestamp = some (pos 90) } }

reconcile_deleted-Drops_example : Drops cluster going (reconcile cluster (going, empty_world))
reconcile_deleted-Drops_example = reconcile_deleted-Drops cluster going empty_world refl

reconcile_live-protected_example :
    (reconcile cluster (sandbox, empty_world)).1.0.metadata
    ≡ (protected_if cluster
        (is_run cluster
          (handle_template_spec cluster (initial_builder cluster sandbox) (sandbox, empty_world)))
        sandbox).metadata
reconcile_live-protected_example = reconcile_live-protected cluster sandbox empty_world refl

dvp_off : enabled cluster.gates dvp ≡ false
unfolding enabled
dvp_off = refl

closed_gate_blocks_example :
    handle_terminating cluster none (new_sandboxer cluster dvp_vm) (going, empty_world)
    ≡ (err (wrapped "failed to delete sandbox: %w" [] (gate_closed dvp)), (going, empty_world))
closed_gate_blocks_example =
    closed_gate_blocks cluster dvp_vm dvp none going empty_world refl dvp_off

-- A sandbox whose template is nowhere.
abbrev lonely : Sandbox
lonely = sandbox_of "base" none

abbrev after_read : Sandbox
after_read =
    put_condition cluster (missing_template cluster (initial_builder cluster lonely)) lonely

abbrev waiting : TemplateSpec
waiting = record {
  template = none;
  spec = none;
  terminating = false;
  cb = missing_template cluster (initial_builder cluster lonely);
}

template_missing :
    handle_template_spec cluster (initial_builder cluster lonely) (lonely, empty_world)
    ≡ (ok waiting, (after_read, empty_world))
unfolding handle_template_spec fetch_template client
template_missing = refl

not_expired : is_ttl_expired (cluster.now empty_world).0 after_read ≡ false
unfolding is_ttl_expired ◌+ℤ◌
not_expired = refl

reconcile-Waits_example :
    reconcile cluster (lonely, empty_world)
    ≡ (ok no_requeue, (put_type cluster none after_read, empty_world))
reconcile-Waits_example =
    reconcile-Waits cluster lonely after_read empty_world empty_world waiting refl template_missing
      (inr refl) not_expired

-- The base reconciler over the sandboxes of the cluster, with a reconciler that only fails and one
-- that sets the type before it fails.
abbrev sandboxes : KindClient World Sandbox
sandboxes = cluster.sandboxes

abbrev with_sandbox : World
with_sandbox = record empty_world { sandboxes = sandbox ∷ [] }

abbrev equal_types : SandboxType → SandboxType → Bool
equal_types unset unset = true
equal_types pod pod = true
equal_types _ _ = false

abbrev same_type : SandboxStatus → SandboxStatus → Bool
same_type s t = equal_types s.type t.type

abbrev fails : Exec (Sandbox × World) ReconcileResult
fails st = (err (message "no" []), st)

abbrev typed : Sandbox
typed = record sandbox { status = record sandbox.status { type = pod } }

abbrev sets_type : Exec (Sandbox × World) ReconcileResult
sets_type (s, w) = (err (message "no" []), (typed, w))

found : sandboxes.get (object_key sandbox) with_sandbox ≡ (ok sandbox, with_sandbox)
unfolding client string_eq object_key_eq
found = refl

reconcile_quiet_example :
    base_reconcile sandboxes same_type fails (object_key sandbox) with_sandbox
    ≡ (err (message "no" []), with_sandbox)
reconcile_quiet_example =
    reconcile_quiet sandboxes same_type fails (object_key sandbox) with_sandbox with_sandbox
      with_sandbox sandbox sandbox (err (message "no" [])) tt tt found refl refl (refl, refl, refl)

written :
    sandboxes.update_status typed with_sandbox
    ≡ (ok typed, record with_sandbox { sandboxes = typed ∷ sandbox ∷ [] })
unfolding client string_eq object_key_eq
written = refl

reconcile_writes_status_example :
    base_reconcile sandboxes same_type sets_type (object_key sandbox) with_sandbox
    ≡ (err (message "no" []), record with_sandbox { sandboxes = typed ∷ sandbox ∷ [] })
reconcile_writes_status_example =
    reconcile_writes_status sandboxes same_type sets_type (object_key sandbox) with_sandbox
      with_sandbox with_sandbox (record with_sandbox { sandboxes = typed ∷ sandbox ∷ [] }) sandbox
      typed typed (err (message "no" [])) tt tt found refl refl written (refl, refl, refl)
