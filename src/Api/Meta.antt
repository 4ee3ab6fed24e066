-- ===== src/Api/Meta.antt =====
-- k8s.io/apimachinery/pkg/apis/meta/v1: the parts of the metadata types that the code uses.
-- Times are in nanoseconds since Go's zero time; a nil slice and an empty one are one list.
use sandbox_mommy.Base.{String, Bool, true, List, Option, none, some, Eq, String-discrete}
use sandbox_mommy.Base.Int.{ℤ, pos, eqb_ℤ}

abbrev pub Time : Type 0
Time = ℤ

abbrev pub Duration : Type 0
Duration = ℤ

pub record TypeMeta : Type 0 where
  pub kind : String
  pub api_version : String

pub record OwnerReference : Type 0 where
  pub api_version : String
  pub kind : String
  pub name : String
  pub uid : String
  pub controller : Bool
  pub block_owner_deletion : Bool

abbrev pub StringMap : Type 0
StringMap = List (String × String)

pub record ObjectMeta : Type 0 where
  pub name : String
  pub namespace : String
  pub uid : String
  pub generation : ℤ
  pub creation_timestamp : Time
  pub deletion_timestamp : Option Time
  pub finalizers : List String
  pub annotations : StringMap
  pub labels : StringMap
  pub owner_references : List OwnerReference

-- `(*metav1.Time).IsZero`
abbrev pub is_zero : Option Time → Bool
is_zero none = true
is_zero (some t) = eqb_ℤ t (pos 0)

-- An object of the API: every kind has a spec and a status of its own.
pub record Object (Spec Status : Type 0) : Type 0 where
  pub type_meta : TypeMeta
  pub metadata : ObjectMeta
  pub spec : Spec
  pub status : Status

-- `types.NamespacedName`, which is `client.ObjectKey`
pub record ObjectKey : Type 0 where
  pub namespace : String
  pub name : String

unfoldable pub ObjectKey-discrete : Discrete ObjectKey
ObjectKey-discrete = hlevel String-discrete

instance unfoldable pub object_key_eq : Eq ObjectKey
unfolding ObjectKey-discrete
object_key_eq = record { dec = ObjectKey-discrete }

-- `client.ObjectKeyFromObject`
abbrev pub object_key : {Spec Status : Type 0} → Object Spec Status → ObjectKey
object_key o = record { namespace = o.metadata.namespace; name = o.metadata.name }

-- `metav1.ConditionStatus`; `condition_empty` is the empty string.
pub data ConditionStatus : Type 0 where
  condition_true condition_false condition_unknown condition_empty : ConditionStatus

pub record Condition : Type 0 where
  pub type : String
  pub status : ConditionStatus
  pub observed_generation : ℤ
  pub last_transition_time : Time
  pub reason : String
  pub message : String
