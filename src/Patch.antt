-- ===== src/Patch.antt =====
-- pkg/patch/patch.go: JSON patches and JSON pointers. The bytes that `json.Marshal` makes of the
-- operations stand for the list of operations itself.
pub mod Pointer
pub mod Apply
use Prim.Native.Char.{code}
use sandbox_mommy.Base.{◌≡◌, refl, ℕ, String, List, [], ◌∷◌, ◌++◌, length, if◌then◌else◌}
use sandbox_mommy.Base.Int.{eqb}
use sandbox_mommy.Exec.{Result, ok, err, message}
use sandbox_mommy.Api.{StringMap}

pub data PatchOp : Type 0 where
  replace add remove test : PatchOp

-- The values that the program puts into a patch; `null` is Go's nil.
pub data JsonValue : Type 0 where
  null : JsonValue
  strings : List String → JsonValue
  entries : StringMap → JsonValue

pub record JsonPatchOperation : Type 0 where
  pub op : PatchOp
  pub path : String
  pub value : JsonValue

pub record JsonPatch : Type 0 where
  pub ops : List JsonPatchOperation

abbrev pub new_json_patch : List JsonPatchOperation → JsonPatch
new_json_patch ops = record { ops = ops }

abbrev pub append : JsonPatch → List JsonPatchOperation → JsonPatch
append p ops = record { ops = p.ops ++ ops }

abbrev pub len : JsonPatch → ℕ
len p = length p.ops

abbrev payload_of : List JsonPatchOperation → Result (List JsonPatchOperation)
payload_of [] = err (message "list of operations is empty" [])
payload_of (o ∷ ops) = ok (o ∷ ops)

abbrev pub payload : JsonPatch → Result (List JsonPatchOperation)
payload p = payload_of p.ops

abbrev pub new_json_patch_operation : PatchOp → String → JsonValue → JsonPatchOperation
new_json_patch_operation op path value = record { op = op; path = path; value = value }

abbrev pub with_add_op : String → JsonValue → JsonPatchOperation
with_add_op path value = new_json_patch_operation PatchOp.add path value

abbrev pub with_remove_op : String → JsonPatchOperation
with_remove_op path = new_json_patch_operation PatchOp.remove path null

abbrev pub with_replace_op : String → JsonValue → JsonPatchOperation
with_replace_op path value = new_json_patch_operation PatchOp.replace path value

abbrev pub with_test_op : String → JsonValue → JsonPatchOperation
with_test_op path value = new_json_patch_operation PatchOp.test path value

abbrev tilde : ℕ
tilde = b'~'

abbrev slash : ℕ
slash = b'/'

-- `strings.NewReplacer("~", "~0", "/", "~1")` goes through the text once, from the left.
unfoldable pub escape_json_pointer : String → String
escape_json_pointer String.[] = String.[]
escape_json_pointer (String.◌∷◌ c s) =
    let rest = escape_json_pointer s in
    if eqb (code c) tilde
    then String.◌∷◌ "~" (String.◌∷◌ "0" rest)
    else if eqb (code c) slash
    then String.◌∷◌ "~" (String.◌∷◌ "1" rest)
    else String.◌∷◌ c rest

escape_test : escape_json_pointer "a/b~c" ≡ "a~1b~0c"
unfolding escape_json_pointer
escape_test = refl
