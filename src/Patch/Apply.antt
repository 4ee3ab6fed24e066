-- ===== src/Patch/Apply.antt =====
-- What RFC 6902 says of the operations that the program sends, on the metadata of an object: `test`
-- fails unless the value is the current one, `replace` puts the value. `none` is a failed patch.
-- A list or a map that is missing counts as the empty one here, as in the library that the API
-- server applies patches with.
use sandbox_mommy.Base.{String, string_eq, ◌==◌, List, [], ◌∷◌, Option, none, some, if◌then◌else◌}
use sandbox_mommy.Api.{ObjectMeta}
use sandbox_mommy.Patch.{PatchOp, JsonValue, strings, entries, JsonPatchOperation}
use sandbox_mommy.Updater.{slices_equal, maps_equal}

-- The member of the metadata that a path names.
pub data Member : Type 0 where
  finalizers annotations labels : Member

abbrev member : String → Option Member
member path =
    if path == "/metadata/finalizers"
    then some Member.finalizers
    else if path == "/metadata/annotations"
    then some Member.annotations
    else if path == "/metadata/labels"
    then some Member.labels
    else none

abbrev test_member : Member → JsonValue → ObjectMeta → Option ObjectMeta
test_member Member.finalizers (strings fs) m = if slices_equal m.finalizers fs then some m else none
test_member Member.annotations (entries es) m = if maps_equal m.annotations es then some m else none
test_member Member.labels (entries es) m = if maps_equal m.labels es then some m else none
test_member _ _ m = none

abbrev replace_member : Member → JsonValue → ObjectMeta → Option ObjectMeta
replace_member Member.finalizers (strings fs) m = some (record m { finalizers = fs })
replace_member Member.annotations (entries es) m = some (record m { annotations = es })
replace_member Member.labels (entries es) m = some (record m { labels = es })
replace_member _ _ m = none

abbrev at_member : PatchOp → Option Member → JsonValue → ObjectMeta → Option ObjectMeta
at_member PatchOp.test (some f) value m = test_member f value m
at_member PatchOp.replace (some f) value m = replace_member f value m
at_member _ _ value m = none

unfoldable pub apply_op : JsonPatchOperation → ObjectMeta → Option ObjectMeta
unfolding string_eq
apply_op o m = at_member o.op (member o.path) o.value m

unfoldable pub apply_all : List JsonPatchOperation → ObjectMeta → Option ObjectMeta
unfolding apply_op
apply_all [] m = some m
apply_all (o ∷ os) m = elim (apply_op o m) [ none ↦ none | some m' ↦ apply_all os m' ]
