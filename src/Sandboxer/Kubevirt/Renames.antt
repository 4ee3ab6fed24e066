-- ===== src/Sandboxer/Kubevirt/Renames.antt =====
-- kubevirt.go: what `mutateKubevirtVMIVolumes` does to the volumes and the disks of an instance.
use mathlib.Core.Path.{fun_ext}
use sandbox_mommy.Base.{
  String, string_eq, List, map, Option, none, some, ◌≡◌, refl, ap, arith, if◌then◌else◌,
}
use sandbox_mommy.Api.{
  VirtualMachineInstance, VmiVolume, DataVolumeSource, Disk, Sandbox, SandboxTemplateSpec,
}
use sandbox_mommy.Env.{Env}
use sandbox_mommy.Sandboxer.{name_of}
use sandbox_mommy.Sandboxer.Pvc.{get_full_pvc_name, make_persistent_volume_claims}
use sandbox_mommy.Sandboxer.Kubevirt.{
  get_full_dv_name, make_data_volumes, mutate_data_volume, mutate_vmi_volume, mutate_disk,
  mutate_kubevirt_vmi_volumes,
}
use sandbox_mommy.Sandboxer.Names.{
  declares_claim, declares_data_volume, contains-claims, contains-data_volumes_of,
}

module _ (sandbox : Sandbox) (template : SandboxTemplateSpec) where
  abbrev renamed_source : Option DataVolumeSource → Option DataVolumeSource
  renamed_source none = none
  renamed_source (some source) = some (record source {
    name =
        if declares_data_volume template.volumes source.name
        then get_full_dv_name source.name sandbox
        else source.name;
  })

  -- Only the data volume of a volume is renamed; its claim is not.
  abbrev pub renamed_volume : VmiVolume → VmiVolume
  renamed_volume v = record v { data_volume = renamed_source v.data_volume }

  abbrev disk_name : String → String
  disk_name name =
      if declares_claim template.volumes name
      then get_full_pvc_name name sandbox
      else if declares_data_volume template.volumes name
      then get_full_dv_name name sandbox
      else name

  -- A disk is renamed after the claim of its name, or else after the data volume.
  abbrev pub renamed_disk : Disk → Disk
  renamed_disk d = elim d.disk [ none ↦ d | some _ ↦ record d { name = disk_name d.name } ]

module _ (E : Env) (sandbox : Sandbox) (template : SandboxTemplateSpec) where
  abbrev dvs_map : List String
  dvs_map = map name_of (make_data_volumes E sandbox template)

  abbrev pvcs_map : List String
  pvcs_map = map name_of (make_persistent_volume_claims E sandbox template)

  mutate_data_volume-eq-renamed :
      (s : Option DataVolumeSource)
      → mutate_data_volume dvs_map pvcs_map sandbox s ≡ renamed_source sandbox template s
  mutate_data_volume-eq-renamed none = refl
  mutate_data_volume-eq-renamed (some s) =
      ground (arith, contains-data_volumes_of E sandbox template.volumes s.name)

  mutate_vmi_volume-eq-renamed :
      (v : VmiVolume)
      → mutate_vmi_volume dvs_map pvcs_map sandbox v ≡ renamed_volume sandbox template v
  mutate_vmi_volume-eq-renamed v = cc (mutate_data_volume-eq-renamed v.data_volume)

  mutate_disk-eq-renamed :
      (d : Disk) → mutate_disk dvs_map pvcs_map sandbox d ≡ renamed_disk sandbox template d
  mutate_disk-eq-renamed d = ground (
    arith,
    contains-data_volumes_of E sandbox template.volumes d.name,
    contains-claims E sandbox template.volumes d.name,
  )

  -- In the instance of a sandbox exactly the data volumes that the template declares get their full
  -- names, and every disk that is attached is renamed after the claim, or else the data volume, of
  -- its name. The claim names of the volumes stay what the template says, also where the template
  -- declares the claim.
  pub mutate_kubevirt_vmi_volumes-eq-renamed :
      (vmi : VirtualMachineInstance)
      → mutate_kubevirt_vmi_volumes sandbox vmi
          (make_data_volumes E sandbox template)
          (make_persistent_volume_claims E sandbox template)
        ≡ record vmi {
          spec = record vmi.spec {
            volumes = map (renamed_volume sandbox template) vmi.spec.volumes;
            disks = map (renamed_disk sandbox template) vmi.spec.disks;
          };
        }
  mutate_kubevirt_vmi_volumes-eq-renamed vmi = rw (
    ap (λ f. map f vmi.spec.volumes) (fun_ext mutate_vmi_volume-eq-renamed),
    ap (λ f. map f vmi.spec.disks) (fun_ext mutate_disk-eq-renamed),
  )
