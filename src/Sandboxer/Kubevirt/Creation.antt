-- ===== src/Sandboxer/Kubevirt/Creation.antt =====
-- kubevirt.go over stores: `Create` behind an open feature gate.
use mathlib.Core.Path.{subst}
use sandbox_mommy.Base.{
  Bool, true, List, [], ◌∷◌, map, Option, none, some, All, Distinct, ◌≡◌, refl, sym, ap, ◌∙◌, inl,
  inr, Bool-cases, Option-cases, ◌!=◌, not,
}
use sandbox_mommy.Exec.{ok}
use sandbox_mommy.Exec.Laws.{bind_ok, or_wrap_ok}
use sandbox_mommy.Api.{
  object_key, VirtualMachineInstance, Sandbox, SandboxTemplateSpec, SandboxVolumeSpec, Reason,
  reason_eq,
}
use sandbox_mommy.FeatureGate.{kubevirt, enabled}
use sandbox_mommy.Env.{Env}
use sandbox_mommy.Sandboxer.{main_key, create_missing}
use sandbox_mommy.Sandboxer.Names.{get_full_dv_name_inj}
use sandbox_mommy.Sandboxer.Collect.{collect, collect-Distinct, All-collect, made_eq}
use sandbox_mommy.Sandboxer.Ensure.{All-Agrees, IsWanted, create_owned-Runs}
use sandbox_mommy.Sandboxer.Loops.{Ensured}
use sandbox_mommy.Sandboxer.Ownership.{owned, NoForeign}
use sandbox_mommy.Sandboxer.Pvc.{make_persistent_volume_claims, create_pvcs}
use sandbox_mommy.Sandboxer.Pvc.Laws.{create_pvcs_step, claims-IsWanted, create_pvcs-Ensured}
use sandbox_mommy.Sandboxer.Kubevirt.{
  get_reason_from_kubevirt_vmi_phase, vmi_of, get_vmi, get_dvs, ensure_vmi, create_vmi,
  data_volumes_of, make_data_volumes, new_data_volume,
}
use sandbox_mommy.Sandboxer.Release.{Untouched, create_missing-Untouched}
use sandbox_mommy.Sandboxer.Settle.{
  wanted_of, wanted_of-keyed, Settled, settled, settled-Settled, Settled-before, settled-Untouched,
  Ensured-after, Ensured-before,
}
use sandbox_mommy.Sandboxer.Kubevirt.Laws.{VmiStores, get_vmi_lem, get_dvs_lem}
use sandbox_mommy.Webhook.Names.{names}

abbrev pub is_failed_vmi : VirtualMachineInstance → Bool
is_failed_vmi vmi = not (get_reason_from_kubevirt_vmi_phase vmi.status.phase != Reason.failed)

-- The machine that the template asks for.
abbrev pub wanted_vmi : Env → Sandbox → SandboxTemplateSpec → Option VirtualMachineInstance
wanted_vmi E sandbox template = wanted_of (vmi_of E sandbox template) template.kubevirt_vmi_spec

module _ (E : Env) (sandbox : Sandbox) where
  data_volumes-collect :
      (vs : List SandboxVolumeSpec)
      → data_volumes_of E sandbox vs
        ≡ collect (λ v. v.data_volume_spec) (new_data_volume E sandbox) vs
  data_volumes-collect [] = refl
  data_volumes-collect (v ∷ vs) =
      made_eq (λ v'. v'.data_volume_spec) (new_data_volume E sandbox) v v.data_volume_spec
        (data_volumes_of E sandbox vs) _ (data_volumes-collect vs)

  pub data_volumes-Distinct :
      (vs : List SandboxVolumeSpec)
      → Distinct (names vs)
      → Distinct (map object_key (data_volumes_of E sandbox vs))
  data_volumes-Distinct vs d =
      subst (λ os. Distinct (map object_key os)) (sym (data_volumes-collect vs))
        (collect-Distinct (λ v. v.data_volume_spec) (new_data_volume E sandbox)
          (λ m n s t e. get_full_dv_name_inj m n sandbox (ap (λ k. k.name) e)) vs d)

  pub data_volumes-here :
      (vs : List SandboxVolumeSpec)
      → All (λ o. o.metadata.namespace ≡ sandbox.metadata.namespace) (data_volumes_of E sandbox vs)
  data_volumes-here vs =
      subst (All (λ o. o.metadata.namespace ≡ sandbox.metadata.namespace))
        (sym (data_volumes-collect vs))
        (All-collect (λ v. v.data_volume_spec) (new_data_volume E sandbox) _ (λ n s. refl) vs)

module _ (E : Env) (c : VmiStores E) (sandbox : Sandbox)
    (open_gate : enabled E.gates kubevirt ≡ true) (template : SandboxTemplateSpec) where
  ensure_found :
      (vmi : VirtualMachineInstance) (w : E.World)
      → c.vmis.lookup w (object_key vmi) ≡ some vmi
      → ensure_vmi E sandbox template (some vmi) w
        ≡ (ok tt, settled E c.vmis is_failed_vmi (wanted_vmi E sandbox template) (some vmi) w)
  ensure_found vmi w there =
      elim (Bool-cases (get_reason_from_kubevirt_vmi_phase vmi.status.phase != Reason.failed)) [
        | inl good ↦ rw good refl
        | inr bad ↦ rw bad (c.vmis.delete_found vmi vmi w there)
      ]

  ensure_vmi_lem :
      (w : E.World) (found : Option VirtualMachineInstance)
      → c.vmis.lookup w (main_key sandbox) ≡ found
      → ensure_vmi E sandbox template found w
        ≡ (ok tt, settled E c.vmis is_failed_vmi (wanted_vmi E sandbox template) found w)
  ensure_vmi_lem w none absent = elim (Option-cases template.kubevirt_vmi_spec) [
    | inl e ↦ rw e refl
    | inr (spec, e) ↦ rw e (
        or_wrap_ok (E.vmis.create (vmi_of E sandbox template spec)) _
          (c.vmis.create_new (vmi_of E sandbox template spec) w absent))
  ]
  ensure_vmi_lem w (some vmi) e =
      let (same, m) = c.vmis.found-items w (main_key sandbox) vmi e in
      ensure_found vmi w (ap (c.vmis.lookup w) same ∙ e)

  -- The world after the data volumes, and then after the claims.
  abbrev with_volumes : E.World → E.World
  with_volumes w =
      (create_missing E E.data_volumes "failed to create data volume %q"
        (map object_key (owned E c.volumes sandbox w)) (make_data_volumes E sandbox template) w).1

  abbrev with_claims : E.World → E.World
  with_claims w = (create_pvcs E sandbox (make_persistent_volume_claims E sandbox template) w).1

  All-NoForeign :
      (w w' : E.World) (os : List _)
      → Untouched E c.claims w w'
      → All (NoForeign E c.claims sandbox w) os
      → All (NoForeign E c.claims sandbox w') os
  All-NoForeign w w' [] same h = tt
  All-NoForeign w w' (o ∷ os) same (f, h) =
      (λ p there. f p (sym (same (object_key o)) ∙ there), All-NoForeign w w' os same h)

  module _ (w : E.World) (distinct : Distinct (names template.volumes))
      (volumes_free : All (NoForeign E c.volumes sandbox w) (make_data_volumes E sandbox template))
      (claims_free : All
        (NoForeign E c.claims sandbox w)
        (make_persistent_volume_claims E sandbox template)) where
    volumes-IsWanted : IsWanted E c.volumes sandbox w (make_data_volumes E sandbox template)
    volumes-IsWanted = record {
      distinct = data_volumes-Distinct E sandbox template.volumes distinct;
      here = data_volumes-here E sandbox template.volumes;
      free = volumes_free;
    }

    with_volumes-leaves :
        Untouched E c.vmis w (with_volumes w) × Untouched E c.claims w (with_volumes w)
    with_volumes-leaves =
        let agree =
          All-Agrees E c.volumes sandbox w (make_data_volumes E sandbox template)
            volumes-IsWanted.here volumes-IsWanted.free in
        (
          create_missing-Untouched E c.volumes c.vmis c.volumes_vmis _ _ _ w
              volumes-IsWanted.distinct agree,
          create_missing-Untouched E c.volumes c.claims c.volumes_claims _ _ _ w
              volumes-IsWanted.distinct agree,
        )

    still_free :
        All
          (NoForeign E c.claims sandbox (with_volumes w))
          (make_persistent_volume_claims E sandbox template)
    still_free = All-NoForeign w (with_volumes w) _ (with_volumes-leaves.1) claims_free

    with_claims-leaves :
        Untouched E c.vmis (with_volumes w) (with_claims (with_volumes w))
        × Untouched E c.volumes (with_volumes w) (with_claims (with_volumes w))
    with_claims-leaves =
        let i = claims-IsWanted E c.claims sandbox template (with_volumes w) distinct still_free in
        let agree = All-Agrees E c.claims sandbox (with_volumes w) _ i.here i.free in
        let step = sym (
          create_pvcs_step E c.claims sandbox (make_persistent_volume_claims E sandbox template)
            (with_volumes w)) in
        (
          subst (λ r. Untouched E c.vmis (with_volumes w) r.1) step
              (create_missing-Untouched E c.claims c.vmis c.claims_vmis _ _ _ (with_volumes w)
                i.distinct agree),
          subst (λ r. Untouched E c.volumes (with_volumes w) r.1) step
              (create_missing-Untouched E c.claims c.volumes c.claims_volumes _ _ _ (with_volumes w)
                i.distinct agree),
        )

    abbrev ready_world : E.World
    ready_world = with_claims (with_volumes w)

    create_vmi_steps : create_vmi E sandbox template w ≡ (
      ok tt,
      settled E c.vmis is_failed_vmi
          (wanted_vmi E sandbox template)
          (c.vmis.lookup ready_world (main_key sandbox))
          ready_world,
    )
    unfolding create_vmi
    create_vmi_steps =
        let (made, e) =
          create_owned-Runs E c.volumes sandbox "failed to create data volume %q"
            (make_data_volumes E sandbox template) w volumes-IsWanted in
        let (done, e') =
          create_pvcs-Ensured E c.claims sandbox template (with_volumes w) distinct still_free in
        rw open_gate (
          bind_ok (get_dvs E sandbox) _ (get_dvs_lem E c sandbox open_gate w)
          ∙ bind_ok
              (create_missing E E.data_volumes "failed to create data volume %q"
                (map object_key (owned E c.volumes sandbox w))
                (make_data_volumes E sandbox template))
              _ (ap (λ r. (r, with_volumes w)) made)
          ∙ bind_ok (create_pvcs E sandbox (make_persistent_volume_claims E sandbox template)) _
              (ap (λ r. (r, ready_world)) done)
          ∙ bind_ok (get_vmi E sandbox) _ (get_vmi_lem E c sandbox open_gate ready_world)
          ∙ ensure_vmi_lem ready_world _ refl)

    -- Over stores of machine instances, data volumes and claims, of which each leaves the others
    -- alone, and with the feature gate set, `Create` of a KubeVirt sandbox, where the names of the
    -- template's volumes are distinct and a data volume or a claim under a wanted key belongs to the
    -- sandbox, returns no error. Every data volume and claim of the template is there then, and each
    -- that was there stays as it was. The machine of the template is made where there is none under
    -- its name; a machine that has not failed stays as it was, and one that has failed is deleted.
    pub create_vmi-Settled :
        ((create_vmi E sandbox template w).0 ≡ ok tt)
        × Settled E c.vmis
            (main_key sandbox)
            is_failed_vmi
            (wanted_vmi E sandbox template)
            w
            (create_vmi E sandbox template w).1
        × Ensured E c.volumes w
            (create_vmi E sandbox template w).1
            (make_data_volumes E sandbox template)
        × Ensured E c.claims w
            (create_vmi E sandbox template w).1
            (make_persistent_volume_claims E sandbox template)
    create_vmi-Settled =
        let (made, volumes_there) =
          create_owned-Runs E c.volumes sandbox "failed to create data volume %q"
            (make_data_volumes E sandbox template) w volumes-IsWanted in
        let (done, claims_there) =
          create_pvcs-Ensured E c.claims sandbox template (with_volumes w) distinct still_free in
        let key = main_key sandbox in
        let wanted = wanted_vmi E sandbox template in
        rw create_vmi_steps (
          refl,
          Settled-before E c.vmis key is_failed_vmi wanted w ready_world _
              (with_claims-leaves.0 key ∙ with_volumes-leaves.0 key)
              (settled-Settled E c.vmis key is_failed_vmi wanted
                (wanted_of-keyed (vmi_of E sandbox template) key (λ spec. refl)
                  template.kubevirt_vmi_spec)
                ready_world),
          Ensured-after E c.volumes w ready_world _ _
              (settled-Untouched E c.vmis c.volumes c.vmis_volumes is_failed_vmi wanted _
                ready_world)
              (Ensured-after E c.volumes w (with_volumes w) _ _ (with_claims-leaves.1)
                volumes_there),
          Ensured-after E c.claims w ready_world _ _
              (settled-Untouched E c.vmis c.claims c.vmis_claims is_failed_vmi wanted _ ready_world)
              (Ensured-before E c.claims w (with_volumes w) _ _ (with_volumes-leaves.1)
                claims_there),
        )
