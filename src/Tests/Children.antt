-- ===== src/Tests/Children.antt =====
-- The claims and the pod of a sandbox in the cluster.
use sandbox_mommy.Base.{
  String, string_eq, ◌==◌, true, false, [], ◌∷◌, All, Distinct, ◌≡◌, refl, arith, inl, inr,
}
use sandbox_mommy.Base.{some, none, Option, ◌≢◌}
use sandbox_mommy.Base.Int.{pos, ◌+ℤ◌}
use sandbox_mommy.Api.{
  PersistentVolumeClaim, object_key, object_key_eq, Sandbox, Pod, PodPhase, protect_finalizer,
}
use sandbox_mommy.Exec.{ok}
use sandbox_mommy.Sandboxer.{main_key}
use sandbox_mommy.Sandboxer.Ownership.{NoForeign}
use sandbox_mommy.Sandboxer.Loops.{Ensured}
use sandbox_mommy.Sandboxer.Release.{Freed}
use sandbox_mommy.Sandboxer.Settle.{Settled}
use sandbox_mommy.Sandboxer.Pvc.{new_pvc, get_full_pvc_name, make_persistent_volume_claims}
use sandbox_mommy.Sandboxer.Pod.{pod_condition, new_pod_sandboxer, new_pod, create_pod, delete_pod}
use sandbox_mommy.Sandboxer.Pod.Laws.{
  create_pod-Settled, delete_pod-Freed, is_failed_pod, wanted_pod,
}
use sandbox_mommy.Webhook.Names.{names}
use sandbox_mommy.Env.Store.{IsReleased}
use sandbox_mommy.Controller.Sandbox.{reconcile}
use sandbox_mommy.Controller.Sandbox.Steps.{is_ttl_expired, initial_builder}
use sandbox_mommy.Controller.Sandbox.Cleaners.{pod_steady}
use sandbox_mommy.Controller.Sandbox.Creation.{reconcile-Creates, prepared, told}
use sandbox_mommy.Controller.Sandbox.Creators.{pod_creates}
use sandbox_mommy.Controller.Sandbox.Steady.{reconcile-Steady, reported, requeue}
use sandbox_mommy.Sandboxer.Pod.Steady.{Running}
use sandbox_mommy.Memory.Laws.{client_store}
use sandbox_mommy.Tests.Cluster.{
  World, empty_world, cluster, pod_store, pvc_store, claims-Apart, pods-Apart, template_spec,
  pod_spec, sandbox,
}

abbrev home : String
home = "home"

abbrev data_name : String
data_name = "data"

differs : (home == data_name) ≡ false
unfolding string_eq
differs = refl

test_true : (m n : String) → m ≡ n → (m == n) ≡ true
test_true m n e = ground arith

home_ne_data : ¬ Path String "home" "data"
home_ne_data e = cc (differs, test_true "home" "data" e)

names-Distinct : Distinct (names template_spec.volumes)
names-Distinct = (elim [ inl e ↦ home_ne_data e | inr m ↦ m ], (λ m. m, tt))

nothing_foreign :
    All
      (NoForeign cluster pvc_store sandbox empty_world)
      (make_persistent_volume_claims cluster sandbox template_spec)
unfolding client_store
nothing_foreign = (λ p e. cc e, (λ p e. cc e, tt))

-- A world in which the sandbox runs.
abbrev pub running_world : World
running_world = record empty_world {
  pods = new_pod cluster sandbox pod_spec ∷ [];
  pvcs = make_persistent_volume_claims cluster sandbox template_spec;
}

create_pod-Settled_example :
    ((create_pod cluster sandbox template_spec empty_world).0 ≡ ok tt)
    × Settled cluster pod_store
        (main_key sandbox)
        is_failed_pod
        (wanted_pod cluster sandbox template_spec)
        empty_world
        (create_pod cluster sandbox template_spec empty_world).1
    × Ensured cluster pvc_store empty_world
        (create_pod cluster sandbox template_spec empty_world).1
        (make_persistent_volume_claims cluster sandbox template_spec)
create_pod-Settled_example =
    create_pod-Settled cluster pod_store pvc_store claims-Apart pods-Apart sandbox template_spec
      empty_world names-Distinct nothing_foreign

delete_pod-Freed_example :
    ((delete_pod cluster sandbox running_world).0 ≡ ok tt)
    × IsReleased (pod_store.lookup (delete_pod cluster sandbox running_world).1 (main_key sandbox))
    × Freed cluster pvc_store sandbox running_world (delete_pod cluster sandbox running_world).1
delete_pod-Freed_example =
    delete_pod-Freed cluster pod_store pvc_store claims-Apart pods-Apart sandbox running_world

-- The sandbox under the program's finalizer, with its pod running.
abbrev held : Sandbox
held = record sandbox { metadata = record sandbox.metadata { finalizers = protect_finalizer ∷ [] } }

abbrev busy_pod : Pod
busy_pod = record (new_pod cluster held pod_spec) {
  status = record { phase = PodPhase.running; message = "" };
}

abbrev busy_world : World
busy_world = record running_world { pods = busy_pod ∷ [] }

abbrev claim_of : String → PersistentVolumeClaim
claim_of name = new_pvc cluster held name (record { text = "1Gi" })

module _ {o : PersistentVolumeClaim} {x : Option PersistentVolumeClaim} where
  found_ne : x ≡ some o → x ≢ none
  found_ne e n = cc (e, n)

  found_own :
      x ≡ some o
      → cluster.is_controlled_by o.metadata held.metadata ≡ true
      → (p : PersistentVolumeClaim) → x ≡ some p
      → cluster.is_controlled_by p.metadata held.metadata ≡ true
  found_own e own p there = cc (e, own, there)

home_found : pvc_store.lookup busy_world (object_key (claim_of "home")) ≡ some (claim_of "home")
unfolding client_store string_eq object_key_eq get_full_pvc_name
home_found = refl

data_found : pvc_store.lookup busy_world (object_key (claim_of "data")) ≡ some (claim_of "data")
unfolding client_store string_eq object_key_eq get_full_pvc_name
data_found = refl

pod_found : pod_store.lookup busy_world (main_key held) ≡ some busy_pod
unfolding client_store string_eq object_key_eq
pod_found = refl

held-Running : Running cluster pod_store pvc_store held template_spec busy_world
unfolding string_eq
held-Running = record {
  distinct = names-Distinct;
  claimed = (found_ne home_found, (found_ne data_found, tt));
  free = (found_own home_found refl, (found_own data_found refl, tt));
  pod = busy_pod;
  found = pod_found;
  phase = refl;
}

held_fresh : is_ttl_expired (pos 100) held ≡ false
unfolding is_ttl_expired ◌+ℤ◌
held_fresh = refl

reconcile-Steady_example :
    reconcile cluster (held, busy_world)
    ≡ (ok (requeue cluster held busy_world), (reported cluster template_spec held, busy_world))
unfolding string_eq
reconcile-Steady_example =
    reconcile-Steady cluster held busy_world template_spec (new_pod_sandboxer cluster)
      (pod_steady cluster pod_store pvc_store) refl held_fresh refl refl refl refl held-Running

nothing_foreign_then :
    All
      (NoForeign cluster pvc_store (prepared cluster template_spec sandbox) empty_world)
      (make_persistent_volume_claims cluster (prepared cluster template_spec sandbox) template_spec)
unfolding client_store
nothing_foreign_then = (λ p e. cc e, (λ p e. cc e, tt))

sandbox_fresh : is_ttl_expired (pos 100) sandbox ≡ false
unfolding is_ttl_expired ◌+ℤ◌
sandbox_fresh = refl

reconcile-Creates_example :
    (w' : World) × (Settled cluster pod_store
        (main_key (prepared cluster template_spec sandbox))
        is_failed_pod
        (wanted_pod cluster (prepared cluster template_spec sandbox) template_spec)
        empty_world
        w'
      × Ensured cluster pvc_store empty_world w' (
          make_persistent_volume_claims cluster
            (prepared cluster template_spec sandbox)
            template_spec))
    × (reconcile cluster (sandbox, empty_world) ≡ (
      ok (requeue cluster sandbox w'),
      (
        told cluster
            (pod_condition cluster
              (pod_store.lookup w' (main_key (prepared cluster template_spec sandbox))))
            (initial_builder cluster sandbox)
            (prepared cluster template_spec sandbox),
        w',
      ),
    ))
reconcile-Creates_example =
    reconcile-Creates cluster sandbox empty_world template_spec (new_pod_sandboxer cluster)
      (pod_creates cluster pod_store pvc_store claims-Apart pods-Apart) refl sandbox_fresh refl
      (λ v. refl) refl (names-Distinct, nothing_foreign_then)
