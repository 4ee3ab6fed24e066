-- ===== src/Sandboxer/Dvp/Renames.antt =====
-- dvp.go: what `mutateDVPVMVolumes` does to the block devices of a machine.
use mathlib.Core.Path.{fun_ext}
use sandbox_mommy.Base.{String, string_eq, map, ◌≡◌, ap, arith, if◌then◌else◌}
use sandbox_mommy.Api.{
  VirtualMachine, BlockDeviceRef, DeviceKind, virtual_disk, Sandbox, SandboxTemplateSpec,
}
use sandbox_mommy.Env.{Env}
use sandbox_mommy.Sandboxer.{name_of}
use sandbox_mommy.Sandboxer.Dvp.{
  get_full_vd_name, make_virtual_disks, mutate_ref, mutate_dvp_vm_volumes,
}
use sandbox_mommy.Sandboxer.Names.{declares_disk, contains-disks_of}

module _ (sandbox : Sandbox) (template : SandboxTemplateSpec) where
  abbrev ref_name : DeviceKind → String → String
  ref_name virtual_disk name =
      if declares_disk template.volumes name then get_full_vd_name name sandbox else name
  ref_name (DeviceKind.other _) name = name

  abbrev pub renamed_ref : BlockDeviceRef → BlockDeviceRef
  renamed_ref ref = record ref { name = ref_name ref.kind ref.name }

module _ (E : Env) (sandbox : Sandbox) (template : SandboxTemplateSpec) where
  mutate_ref-eq-renamed :
      (ref : BlockDeviceRef)
      → mutate_ref (map name_of (make_virtual_disks E sandbox template)) sandbox ref
        ≡ renamed_ref sandbox template ref
  mutate_ref-eq-renamed ref = ground (arith, contains-disks_of E sandbox template.volumes ref.name)

  -- In the machine of a sandbox exactly the references to virtual disks that the template declares
  -- get the full name of the disk; every other reference and the rest of the machine stay.
  pub mutate_dvp_vm_volumes-eq-renamed :
      (vm : VirtualMachine)
      → mutate_dvp_vm_volumes sandbox vm (make_virtual_disks E sandbox template) ≡ record vm {
        spec = record vm.spec {
          block_device_refs = map (renamed_ref sandbox template) vm.spec.block_device_refs;
        };
      }
  mutate_dvp_vm_volumes-eq-renamed vm =
      rw (ap (λ f. map f vm.spec.block_device_refs) (fun_ext mutate_ref-eq-renamed))
