-- ===== src/Api/Workload.antt =====
-- The specs and statuses of the objects that a sandbox is made of: k8s.io/api/core/v1,
-- kubevirt.io/api/core/v1, CDI and DVP. A field `rest` holds what the code passes on unread.
use sandbox_mommy.Base.{String, Bool, List, Option}
use sandbox_mommy.Api.Meta.{Object}

pub record PvcSource : Type 0 where
  pub claim_name : String
  pub read_only : Bool

pub record PodVolume : Type 0 where
  pub name : String
  pub persistent_volume_claim : Option PvcSource
  pub rest : String

pub record VolumeMount : Type 0 where
  pub name : String
  pub rest : String

pub record Container : Type 0 where
  pub name : String
  pub volume_mounts : List VolumeMount
  pub rest : String

pub record PodSpec : Type 0 where
  pub volumes : List PodVolume
  pub containers : List Container
  pub rest : String

pub data PodPhase : Type 0 where
  pending running succeeded failed unknown : PodPhase
  other : String → PodPhase

pub record PodStatus : Type 0 where
  pub phase : PodPhase
  pub message : String

abbrev pub Pod : Type 0
Pod = Object PodSpec PodStatus

-- Specs and statuses that the code never looks into.
pub record Opaque : Type 0 where
  pub text : String

abbrev pub PersistentVolumeClaim : Type 0
PersistentVolumeClaim = Object Opaque Opaque

abbrev pub DataVolume : Type 0
DataVolume = Object Opaque Opaque

abbrev pub VirtualDisk : Type 0
VirtualDisk = Object Opaque Opaque

pub record DataVolumeSource : Type 0 where
  pub name : String
  pub rest : String

pub record VmiVolume : Type 0 where
  pub name : String
  pub data_volume : Option DataVolumeSource
  pub persistent_volume_claim : Option PvcSource
  pub rest : String

-- `disk` is the disk's target, `Disk.Disk`.
pub record Disk : Type 0 where
  pub name : String
  pub disk : Option String
  pub rest : String

-- `disks` is `Domain.Devices.Disks`.
pub record VmiSpec : Type 0 where
  pub volumes : List VmiVolume
  pub disks : List Disk
  pub rest : String

pub data VmiPhase : Type 0 where
  phase_unset pending scheduling scheduled running succeeded failed unknown : VmiPhase
  other : String → VmiPhase

-- A condition of a virtual machine: the code reads its message.
pub record VmCondition : Type 0 where
  pub message : String

pub record VmiStatus : Type 0 where
  pub phase : VmiPhase
  pub conditions : List VmCondition

abbrev pub VirtualMachineInstance : Type 0
VirtualMachineInstance = Object VmiSpec VmiStatus

pub data DeviceKind : Type 0 where
  virtual_disk : DeviceKind
  other : String → DeviceKind

pub record BlockDeviceRef : Type 0 where
  pub kind : DeviceKind
  pub name : String

pub record VmSpec : Type 0 where
  pub block_device_refs : List BlockDeviceRef
  pub rest : String

pub data MachinePhase : Type 0 where
  pending running terminating stopped stopping starting migrating pause degraded : MachinePhase
  other : String → MachinePhase

pub record VmStatus : Type 0 where
  pub phase : MachinePhase
  pub conditions : List VmCondition

abbrev pub VirtualMachine : Type 0
VirtualMachine = Object VmSpec VmStatus
