-- ===== src/Sandboxer/Pod/Renames.antt =====
-- pod.go: what `mutatePodPVCs` does to the volumes and the mounts of a pod.
use mathlib.Core.Path.{fun_ext}
use sandbox_mommy.Base.{
  String, string_eq, true, List, [], ◌∷◌, map, Option, none, some, ◌≡◌, refl, ap, arith, Elem,
  if◌then◌else◌,
}
use sandbox_mommy.Api.{
  Pod, PodVolume, PvcSource, Container, VolumeMount, Sandbox, SandboxTemplateSpec,
}
use sandbox_mommy.Env.{Env}
use sandbox_mommy.Sandboxer.{name_of}
use sandbox_mommy.Sandboxer.Pvc.{get_full_pvc_name, make_persistent_volume_claims}
use sandbox_mommy.Sandboxer.Pod.{
  mutate_claim, mutate_mount, mutate_volume, mutate_container, mutate_pod_pvcs,
}
use sandbox_mommy.Sandboxer.Names.{declares_claim, contains-claims}

module _ (sandbox : Sandbox) (template : SandboxTemplateSpec) where
  -- A name that the template declares as a claim becomes the full name; any other stays.
  abbrev pub renamed : String → String
  renamed name =
      if declares_claim template.volumes name then get_full_pvc_name name sandbox else name

  abbrev renamed_source : Option PvcSource → Option PvcSource
  renamed_source none = none
  renamed_source (some source) = some (record source { claim_name = renamed source.claim_name })

  abbrev pub renamed_volume : PodVolume → PodVolume
  renamed_volume v = record v { persistent_volume_claim = renamed_source v.persistent_volume_claim }

  abbrev renamed_mount : VolumeMount → VolumeMount
  renamed_mount mount = record mount { name = renamed mount.name }

  abbrev pub renamed_container : Container → Container
  renamed_container ctr = record ctr { volume_mounts = map renamed_mount ctr.volume_mounts }

module _ (E : Env) (sandbox : Sandbox) (template : SandboxTemplateSpec) where
  abbrev pvcs_map : List String
  pvcs_map = map name_of (make_persistent_volume_claims E sandbox template)

  mutate_claim-eq-renamed :
      (c : Option PvcSource) → mutate_claim pvcs_map sandbox c ≡ renamed_source sandbox template c
  mutate_claim-eq-renamed none = refl
  mutate_claim-eq-renamed (some c) =
      ground (arith, contains-claims E sandbox template.volumes c.claim_name)

  mutate_volume-eq-renamed :
      (v : PodVolume) → mutate_volume pvcs_map sandbox v ≡ renamed_volume sandbox template v
  mutate_volume-eq-renamed v = cc (mutate_claim-eq-renamed v.persistent_volume_claim)

  mutate_mount-eq-renamed :
      (m : VolumeMount) → mutate_mount pvcs_map sandbox m ≡ renamed_mount sandbox template m
  mutate_mount-eq-renamed m = ground (arith, contains-claims E sandbox template.volumes m.name)

  mutate_container-eq-renamed :
      (c : Container) → mutate_container pvcs_map sandbox c ≡ renamed_container sandbox template c
  mutate_container-eq-renamed c =
      rw (ap (λ f. map f c.volume_mounts) (fun_ext mutate_mount-eq-renamed))

  -- In the pod of a sandbox exactly the claim names and the mount names that the template declares
  -- as claims become full names. Nothing else of the pod changes.
  pub mutate_pod_pvcs-eq-renamed :
      (pod : Pod)
      → mutate_pod_pvcs sandbox pod (make_persistent_volume_claims E sandbox template)
        ≡ record pod {
          spec = record pod.spec {
            volumes = map (renamed_volume sandbox template) pod.spec.volumes;
            containers = map (renamed_container sandbox template) pod.spec.containers;
          };
        }
  mutate_pod_pvcs-eq-renamed pod = rw (
    ap (λ f. map f pod.spec.volumes) (fun_ext mutate_volume-eq-renamed),
    ap (λ f. map f pod.spec.containers) (fun_ext mutate_container-eq-renamed),
  )

  names-mutate_volume :
      (vs : List PodVolume)
      → map (λ (v : PodVolume). v.name) (map (mutate_volume pvcs_map sandbox) vs)
        ≡ map (λ v. v.name) vs
  names-mutate_volume [] = refl
  names-mutate_volume (v ∷ vs) = ap (λ r. v.name ∷ r) (names-mutate_volume vs)

  name-mutate_mount :
      (mount : VolumeMount)
      → declares_claim template.volumes mount.name ≡ true
      → (mutate_mount pvcs_map sandbox mount).name ≡ get_full_pvc_name mount.name sandbox
  name-mutate_mount mount declared =
      ground (arith, contains-claims E sandbox template.volumes mount.name)

  -- A mount whose name the template declares as a claim gets a name that no volume of the pod has,
  -- unless the pod had a volume of that full name before: the volumes keep their own names.
  pub mounts-dangle :
      (pod : Pod) (mount : VolumeMount)
      → declares_claim template.volumes mount.name ≡ true
      → ¬ Elem (get_full_pvc_name mount.name sandbox) (map (λ v. v.name) pod.spec.volumes)
      → ¬ Elem (mutate_mount pvcs_map sandbox mount).name (
          map
            (λ v. v.name)
            (mutate_pod_pvcs sandbox pod
              (make_persistent_volume_claims E sandbox template)).spec.volumes)
  mounts-dangle pod mount declared fresh =
      rw (names-mutate_volume pod.spec.volumes, name-mutate_mount mount declared) fresh
