-- ===== src/Env.antt =====
-- What the program uses and does not implement: the cluster behind the controller-runtime client,
-- the clock, the event recorder, the feature gates given on the command line, and the helpers of
-- apimachinery and controller-runtime.
pub mod Store
pub mod Writable
use sandbox_mommy.Base.{String, Bool, List}
use sandbox_mommy.Exec.{Exec, Error}
use sandbox_mommy.Api.{
  Time, ObjectMeta, OwnerReference, Condition, ObjectKey, Pod, PersistentVolumeClaim, DataVolume,
  VirtualDisk, VirtualMachineInstance, VirtualMachine, Sandbox, SandboxTemplate,
}
use sandbox_mommy.Patch.{JsonPatchOperation}

-- `client.Client` at one kind of object. A call that writes returns the object as the client
-- leaves it, with the server's answer decoded into it.
pub record KindClient (World O : Type 0) : Type 0 where
  pub get : ObjectKey → Exec World O
  pub list : String → Exec World (List O)
  pub create : O → Exec World Unit
  pub delete : O → Exec World Unit
  pub patch : List JsonPatchOperation → O → Exec World O
  pub update_status : O → Exec World O

pub record Env : Type 1 where
  pub World : Type 0
  pub pods : KindClient World Pod
  pub pvcs : KindClient World PersistentVolumeClaim
  pub vmis : KindClient World VirtualMachineInstance
  pub data_volumes : KindClient World DataVolume
  pub vms : KindClient World VirtualMachine
  pub virtual_disks : KindClient World VirtualDisk
  pub sandboxes : KindClient World Sandbox
  pub templates : KindClient World SandboxTemplate
  -- `time.Now`
  pub now : World → Time × World
  -- `recorder.Eventf` of a warning, with its reason and the error in its text
  pub record_event : Sandbox → String → Error → World → World
  -- the values of `--feature-gate`
  pub gates : List String
  -- `metav1.NewControllerRef` with the kind and the group version of the owner
  pub new_controller_ref : ObjectMeta → String → String → OwnerReference
  -- `metav1.IsControlledBy` on the metadata of the object and of the owner
  pub is_controlled_by : ObjectMeta → ObjectMeta → Bool
  -- `meta.SetStatusCondition` and `meta.RemoveStatusCondition`
  pub set_status_condition : List Condition → Condition → List Condition
  pub remove_status_condition : List Condition → String → List Condition
  -- `controllerutil.AddFinalizer`, `RemoveFinalizer` and `ContainsFinalizer` on the finalizers
  pub add_finalizer : List String → String → List String
  pub remove_finalizer : List String → String → List String
  pub contains_finalizer : List String → String → Bool
