-- ===== src/Sandboxer/Dvp/Laws.antt =====
-- dvp.go over a store: `Create` and `Delete` behind an open feature gate.
use mathlib.Core.Path.{subst}
use sandbox_mommy.Base.{
  Bool, true, List, [], ◌∷◌, map, Option, none, some, All, Distinct, ◌≡◌, refl, sym, ap, ◌∙◌, inl,
  inr, Bool-cases, Option-cases, ◌!=◌, not,
}
use sandbox_mommy.Exec.{ok}
use sandbox_mommy.Exec.Laws.{bind_ok, or_wrap_ok}
use sandbox_mommy.Api.{
  object_key, VirtualMachine, Sandbox, SandboxTemplateSpec, SandboxVolumeSpec, Reason, reason_eq,
}
use sandbox_mommy.FeatureGate.{dvp, enabled}
use sandbox_mommy.Env.{Env}
use sandbox_mommy.Env.Store.{Store, Apart, IsReleased}
use sandbox_mommy.Sandboxer.{main_key, create_missing, delete_all, delete_found}
use sandbox_mommy.Sandboxer.Names.{get_full_vd_name_inj}
use sandbox_mommy.Sandboxer.Collect.{collect, collect-Distinct, All-collect, made_eq}
use sandbox_mommy.Sandboxer.Ensure.{find_lem, All-Agrees, IsWanted, create_owned-Runs}
use sandbox_mommy.Sandboxer.Loops.{Ensured}
use sandbox_mommy.Sandboxer.Ownership.{owned, NoForeign, list_controlled_lem}
use sandbox_mommy.Sandboxer.Dvp.{
  get_reason_from_dvp_vm_phase, vm_of, get_vm, get_vds, ensure_vm, create_vm, delete_vm, disks_of,
  make_virtual_disks, new_virtual_disk,
}
use sandbox_mommy.Sandboxer.Release.{
  Freed, Freed-before, delete_owned-Freed, without, delete_found_lem, without-IsReleased, Untouched,
  create_missing-Untouched, delete_all-Untouched, without-Untouched,
}
use sandbox_mommy.Sandboxer.Settle.{
  wanted_of, wanted_of-keyed, Settled, settled, settled-Settled, Settled-before, settled-Untouched,
  Ensured-after,
}
use sandbox_mommy.Webhook.Names.{names}

abbrev pub is_failed_vm : VirtualMachine → Bool
is_failed_vm vm = not (get_reason_from_dvp_vm_phase vm.status.phase != Reason.failed)

-- The machine that the template asks for.
abbrev pub wanted_vm : Env → Sandbox → SandboxTemplateSpec → Option VirtualMachine
wanted_vm E sandbox template = wanted_of (vm_of E sandbox template) template.dvp_vm_spec

module _ (E : Env) (sandbox : Sandbox) where
  disks-collect :
      (vs : List SandboxVolumeSpec)
      → disks_of E sandbox vs ≡ collect (λ v. v.virtual_disk_spec) (new_virtual_disk E sandbox) vs
  disks-collect [] = refl
  disks-collect (v ∷ vs) =
      made_eq (λ v'. v'.virtual_disk_spec) (new_virtual_disk E sandbox) v v.virtual_disk_spec
        (disks_of E sandbox vs) _ (disks-collect vs)

  pub disks-Distinct :
      (vs : List SandboxVolumeSpec)
      → Distinct (names vs)
      → Distinct (map object_key (disks_of E sandbox vs))
  disks-Distinct vs d =
      subst (λ os. Distinct (map object_key os)) (sym (disks-collect vs))
        (collect-Distinct (λ v. v.virtual_disk_spec) (new_virtual_disk E sandbox)
          (λ m n s t e. get_full_vd_name_inj m n sandbox (ap (λ k. k.name) e)) vs d)

  pub disks-here :
      (vs : List SandboxVolumeSpec)
      → All (λ o. o.metadata.namespace ≡ sandbox.metadata.namespace) (disks_of E sandbox vs)
  disks-here vs =
      subst (All (λ o. o.metadata.namespace ≡ sandbox.metadata.namespace)) (sym (disks-collect vs))
        (All-collect (λ v. v.virtual_disk_spec) (new_virtual_disk E sandbox) _ (λ n s. refl) vs)

module _ (E : Env) (vms : Store E.vms) (disks : Store E.virtual_disks)
    (disks_apart : Apart disks vms) (vms_apart : Apart vms disks) (sandbox : Sandbox)
    (open_gate : enabled E.gates dvp ≡ true) where
  get_vm_lem : (w : E.World) → get_vm E sandbox w ≡ (ok (vms.lookup w (main_key sandbox)), w)
  unfolding get_vm
  get_vm_lem w = find_lem E vms "failed to get VirtualMachine %w" (main_key sandbox) w

  get_vds_lem : (w : E.World) → get_vds E sandbox w ≡ (ok (owned E disks sandbox w), w)
  unfolding get_vds
  get_vds_lem w = list_controlled_lem E disks sandbox "failed to list VirtualDisks %w" w

  delete_vm_steps :
      (w : E.World)
      → let between = without E vms (vms.lookup w (main_key sandbox)) w in
        delete_vm E sandbox w
        ≡ delete_all E E.virtual_disks "failed to delete virtual disk %q"
            (owned E disks sandbox between)
            between
  unfolding delete_vm
  delete_vm_steps w = rw open_gate (
      bind_ok (get_vm E sandbox) _ (get_vm_lem w)
      ∙ bind_ok
          (delete_found E E.vms "failed to delete virtual machine %q"
            (vms.lookup w (main_key sandbox)))
          _
          (delete_found_lem E vms "failed to delete virtual machine %q" (main_key sandbox) w _ refl)
      ∙ bind_ok (get_vds E sandbox) _ (get_vds_lem _))

  -- Over a store of virtual machines and a store of virtual disks, of which each leaves the other
  -- alone, and with the feature gate set, `Delete` of a DVP sandbox returns no error and leaves the
  -- machine of the sandbox gone or being deleted. Every disk in its namespace that the sandbox
  -- controls is gone or being deleted too, and every disk that the
  -- sandbox does not control stays as it was.
  pub delete_vm-Freed :
      (w : E.World)
      → ((delete_vm E sandbox w).0 ≡ ok tt)
        × IsReleased (vms.lookup (delete_vm E sandbox w).1 (main_key sandbox))
        × Freed E disks sandbox w (delete_vm E sandbox w).1
  delete_vm-Freed w =
      let found = vms.lookup w (main_key sandbox) in
      let between = without E vms found w in
      let (done, freed) =
        delete_owned-Freed E disks sandbox "failed to delete virtual disk %q" between in
      rw (delete_vm_steps w) (
        done,
        subst IsReleased
            (sym (
              delete_all-Untouched E disks vms disks_apart "failed to delete virtual disk %q"
                between sandbox (main_key sandbox)))
            (without-IsReleased E vms (main_key sandbox) w found refl),
        Freed-before E disks sandbox w between _ (without-Untouched E vms disks vms_apart w found)
            freed,
      )

  ensure_found :
      (template : SandboxTemplateSpec) (vm : VirtualMachine) (w : E.World)
      → vms.lookup w (object_key vm) ≡ some vm
      → ensure_vm E sandbox template (some vm) w
        ≡ (ok tt, settled E vms is_failed_vm (wanted_vm E sandbox template) (some vm) w)
  ensure_found template vm w there =
      elim (Bool-cases (get_reason_from_dvp_vm_phase vm.status.phase != Reason.failed)) [
        | inl good ↦ rw good refl
        | inr bad ↦ rw bad (vms.delete_found vm vm w there)
      ]

  ensure_vm_lem :
      (template : SandboxTemplateSpec) (w : E.World) (found : Option VirtualMachine)
      → vms.lookup w (main_key sandbox) ≡ found
      → ensure_vm E sandbox template found w
        ≡ (ok tt, settled E vms is_failed_vm (wanted_vm E sandbox template) found w)
  ensure_vm_lem template w none absent = elim (Option-cases template.dvp_vm_spec) [
    | inl e ↦ rw e refl
    | inr (spec, e) ↦ rw e (
        or_wrap_ok (E.vms.create (vm_of E sandbox template spec)) _
          (vms.create_new (vm_of E sandbox template spec) w absent))
  ]
  ensure_vm_lem template w (some vm) e =
      let (same, m) = vms.found-items w (main_key sandbox) vm e in
      ensure_found template vm w (ap (vms.lookup w) same ∙ e)

  module _ (template : SandboxTemplateSpec) (w : E.World)
      (distinct : Distinct (names template.volumes))
      (free : All (NoForeign E disks sandbox w) (make_virtual_disks E sandbox template)) where
    -- The world after the disks.
    abbrev with_disks : E.World
    with_disks =
        (create_missing E E.virtual_disks "failed to create pvc %q"
          (map object_key (owned E disks sandbox w)) (make_virtual_disks E sandbox template) w).1

    disks-IsWanted : IsWanted E disks sandbox w (make_virtual_disks E sandbox template)
    disks-IsWanted = record {
      distinct = disks-Distinct E sandbox template.volumes distinct;
      here = disks-here E sandbox template.volumes;
      free = free;
    }

    with_disks-leaves : Untouched E vms w with_disks
    with_disks-leaves =
        create_missing-Untouched E disks vms disks_apart _ _ _ w disks-IsWanted.distinct
          (All-Agrees E disks sandbox w _ disks-IsWanted.here disks-IsWanted.free)

    create_vm_steps : create_vm E sandbox template w ≡ (
      ok tt,
      settled E vms is_failed_vm
          (wanted_vm E sandbox template)
          (vms.lookup with_disks (main_key sandbox))
          with_disks,
    )
    unfolding create_vm
    create_vm_steps =
        let (done, e) =
          create_owned-Runs E disks sandbox "failed to create pvc %q"
            (make_virtual_disks E sandbox template) w disks-IsWanted in
        rw open_gate (
          bind_ok (get_vds E sandbox) _ (get_vds_lem w)
          ∙ bind_ok
              (create_missing E E.virtual_disks "failed to create pvc %q"
                (map object_key (owned E disks sandbox w)) (make_virtual_disks E sandbox template))
              _ (ap (λ r. (r, with_disks)) done)
          ∙ bind_ok (get_vm E sandbox) _ (get_vm_lem with_disks)
          ∙ ensure_vm_lem template with_disks _ refl)

    -- Over a store of virtual machines and a store of virtual disks, of which each leaves the other
    -- alone, and with the feature gate set, `Create` of a DVP sandbox, where the names of the
    -- template's volumes are distinct and a disk under a wanted key belongs to the sandbox, returns
    -- no error. Every disk of the template is there then, and every disk that was there stays as it
    -- was. The machine of the template is made where there is none under its name; a machine that
    -- has not failed stays as it was, and one that has failed is deleted.
    pub create_vm-Settled :
        ((create_vm E sandbox template w).0 ≡ ok tt)
        × Settled E vms
            (main_key sandbox)
            is_failed_vm
            (wanted_vm E sandbox template)
            w
            (create_vm E sandbox template w).1
        × Ensured E disks w
            (create_vm E sandbox template w).1
            (make_virtual_disks E sandbox template)
    create_vm-Settled =
        let (done, e) =
          create_owned-Runs E disks sandbox "failed to create pvc %q"
            (make_virtual_disks E sandbox template) w disks-IsWanted in
        rw create_vm_steps (
          refl,
          Settled-before E vms (main_key sandbox) is_failed_vm (wanted_vm E sandbox template) w
              with_disks _ (with_disks-leaves (main_key sandbox))
              (settled-Settled E vms (main_key sandbox) is_failed_vm (wanted_vm E sandbox template)
                (wanted_of-keyed (vm_of E sandbox template) (main_key sandbox) (λ spec. refl)
                  template.dvp_vm_spec)
                with_disks),
          Ensured-after E disks w with_disks _ _
              (settled-Untouched E vms disks vms_apart is_failed_vm (wanted_vm E sandbox template) _
                with_disks)
              e,
        )
