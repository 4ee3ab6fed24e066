-- ===== src/Api.antt =====
-- The data of the program: the resources of api/core/v1alpha1 and the parts of the Kubernetes,
-- KubeVirt, CDI and DVP types that the code reads or writes.
mod Meta
mod Workload
mod Resource
unfoldable pub use Meta.*
pub use Workload.*
unfoldable pub use Resource.*
