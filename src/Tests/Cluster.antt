-- ===== src/Tests/Cluster.antt =====
-- A cluster in memory with its clock, as the environment of the program.
use sandbox_mommy.Base.{
  String, string_eq, ◌==◌, Bool, true, false, ◌&&◌, ◌||◌, List, [], ◌∷◌, ◌++◌, Option, none, some,
  refl, contains, if◌then◌else◌,
}
use sandbox_mommy.Base.Int.{pos}
use sandbox_mommy.Api.{
  virtual_disk, Time, ObjectMeta, OwnerReference, Condition, Pod, PersistentVolumeClaim, DataVolume,
  VirtualDisk, VirtualMachineInstance, VirtualMachine, Sandbox, SandboxTemplate,
  SandboxTemplateSpec, SandboxVolumeSpec, PodSpec, unset,
}
use sandbox_mommy.Env.{Env}
use sandbox_mommy.Env.Store.{Store, Apart}
use sandbox_mommy.Memory.{Shelf, client}
use sandbox_mommy.Memory.Laws.{client_store}
use sandbox_mommy.Protect.{drop_finalizer}

pub record World : Type 0 where
  pub pods : List Pod
  pub pvcs : List PersistentVolumeClaim
  pub vmis : List VirtualMachineInstance
  pub data_volumes : List DataVolume
  pub vms : List VirtualMachine
  pub virtual_disks : List VirtualDisk
  pub sandboxes : List Sandbox
  pub templates : List SandboxTemplate
  pub time : Time
  pub events : List String

abbrev pub empty_world : World
empty_world = record {
  pods = [];
  pvcs = [];
  vmis = [];
  data_volumes = [];
  vms = [];
  virtual_disks = [];
  sandboxes = [];
  templates = [];
  time = pos 100;
  events = [];
}

abbrev pub pod_shelf : Shelf World Pod
pod_shelf = record { view = λ w. w.pods; put = λ os w. record w { pods = os } }

abbrev pub pvc_shelf : Shelf World PersistentVolumeClaim
pvc_shelf = record { view = λ w. w.pvcs; put = λ os w. record w { pvcs = os } }

abbrev pub vmi_shelf : Shelf World VirtualMachineInstance
vmi_shelf = record { view = λ w. w.vmis; put = λ os w. record w { vmis = os } }

abbrev pub volume_shelf : Shelf World DataVolume
volume_shelf = record { view = λ w. w.data_volumes; put = λ os w. record w { data_volumes = os } }

abbrev pub vm_shelf : Shelf World VirtualMachine
vm_shelf = record { view = λ w. w.vms; put = λ os w. record w { vms = os } }

abbrev pub disk_shelf : Shelf World VirtualDisk
disk_shelf = record { view = λ w. w.virtual_disks; put = λ os w. record w { virtual_disks = os } }

abbrev pub box_shelf : Shelf World Sandbox
box_shelf = record { view = λ w. w.sandboxes; put = λ os w. record w { sandboxes = os } }

abbrev controls : List OwnerReference → String → Bool
controls [] uid = false
controls (r ∷ rs) uid = (r.controller && r.uid == uid) || controls rs uid

abbrev with_condition : List Condition → Condition → List Condition
with_condition [] c = c ∷ []
with_condition (d ∷ ds) c =
    let rest = with_condition ds c in if d.type == c.type then c ∷ ds else d ∷ rest

abbrev without_condition : List Condition → String → List Condition
without_condition [] type = []
without_condition (d ∷ ds) type =
    let rest = without_condition ds type in if d.type == type then rest else d ∷ rest

abbrev pub cluster_with : List String → Env
cluster_with gates = record {
  World = World;
  pods = client pod_shelf;
  pvcs = client pvc_shelf;
  vmis = client vmi_shelf;
  data_volumes =
      client (record { view = λ w. w.data_volumes; put = λ os w. record w { data_volumes = os } });
  vms = client vm_shelf;
  virtual_disks =
      client
        (record { view = λ w. w.virtual_disks; put = λ os w. record w { virtual_disks = os } });
  sandboxes = client box_shelf;
  templates =
      client (record { view = λ w. w.templates; put = λ os w. record w { templates = os } });
  now = λ w. (w.time, w);
  record_event = λ sandbox reason e w. record w { events = reason ∷ w.events };
  gates = gates;
  new_controller_ref = λ owner kind version. record {
    api_version = version;
    kind = kind;
    name = owner.name;
    uid = owner.uid;
    controller = true;
    block_owner_deletion = true;
  };
  is_controlled_by = λ o owner. controls o.owner_references owner.uid;
  set_status_condition = with_condition;
  remove_status_condition = without_condition;
  add_finalizer = λ fs f. if contains fs f then fs else fs ++ f ∷ [];
  remove_finalizer = λ fs f. drop_finalizer f fs;
  contains_finalizer = λ fs f. contains fs f;
}

abbrev pub cluster : Env
cluster = cluster_with []

abbrev pub pod_store : Store (client pod_shelf)
pod_store = client_store pod_shelf (λ os w. refl)

abbrev pub pvc_store : Store (client pvc_shelf)
pvc_store = client_store pvc_shelf (λ os w. refl)

abbrev pub box_store : Store (client box_shelf)
box_store = client_store box_shelf (λ os w. refl)

pub pods_boxes-Apart : Apart pod_store box_store
unfolding client_store
pods_boxes-Apart = record { created_apart = λ o w k. refl; deleted_apart = λ o w k. refl }

pub claims_boxes-Apart : Apart pvc_store box_store
unfolding client_store
claims_boxes-Apart = record { created_apart = λ o w k. refl; deleted_apart = λ o w k. refl }

pub claims-Apart : Apart pvc_store pod_store
unfolding client_store
claims-Apart = record { created_apart = λ o w k. refl; deleted_apart = λ o w k. refl }

pub pods-Apart : Apart pod_store pvc_store
unfolding client_store
pods-Apart = record { created_apart = λ o w k. refl; deleted_apart = λ o w k. refl }

-- The cluster of a controller that runs with the gate of DVP.
abbrev pub dvp_cluster : Env
dvp_cluster = cluster_with ("dvp" ∷ [])

abbrev pub vm_store : Store (client vm_shelf)
vm_store = client_store vm_shelf (λ os w. refl)

abbrev pub disk_store : Store (client disk_shelf)
disk_store = client_store disk_shelf (λ os w. refl)

pub disks-Apart : Apart disk_store vm_store
unfolding client_store
disks-Apart = record { created_apart = λ o w k. refl; deleted_apart = λ o w k. refl }

pub vms-Apart : Apart vm_store disk_store
unfolding client_store
vms-Apart = record { created_apart = λ o w k. refl; deleted_apart = λ o w k. refl }

abbrev pub meta : String → String → ObjectMeta
meta name uid = record {
  name = name;
  namespace = "default";
  uid = uid;
  generation = pos 1;
  creation_timestamp = pos 50;
  deletion_timestamp = none;
  finalizers = [];
  annotations = [];
  labels = [];
  owner_references = [];
}

abbrev pub pod_spec : PodSpec
pod_spec = record { volumes = []; containers = []; rest = "" }

abbrev pub volume : String → SandboxVolumeSpec
volume name = record {
  name = name;
  pvc_spec = some (record { text = "1Gi" });
  data_volume_spec = none;
  virtual_disk_spec = none;
}

abbrev pub template_spec : SandboxTemplateSpec
template_spec = record {
  pod_spec = some pod_spec;
  kubevirt_vmi_spec = none;
  dvp_vm_spec = none;
  volumes = volume "home" ∷ volume "data" ∷ [];
}

-- A sandbox of one hour, with the template it names or holds.
abbrev pub sandbox_of : String → Option SandboxTemplateSpec → Sandbox
sandbox_of template spec = record {
  type_meta = record { kind = "Sandbox"; api_version = "sandbox.io/v1alpha1" };
  metadata = meta "box" "42";
  spec = record { template = template; template_spec = spec; ttl = pos 3600000000000 };
  status = record { type = unset; conditions = [] };
}

abbrev pub sandbox : Sandbox
sandbox = sandbox_of "" (some template_spec)

abbrev pub disk_volume : String → SandboxVolumeSpec
disk_volume name = record {
  name = name;
  pvc_spec = none;
  data_volume_spec = none;
  virtual_disk_spec = some (record { text = "1Gi" });
}

abbrev pub vm_template : SandboxTemplateSpec
vm_template = record {
  pod_spec = none;
  kubevirt_vmi_spec = none;
  dvp_vm_spec = some (record {
    block_device_refs = record { kind = virtual_disk; name = "root" } ∷ [];
    rest = "";
  });
  volumes = disk_volume "root" ∷ [];
}
