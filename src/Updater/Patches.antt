-- ===== src/Updater/Patches.antt =====
-- meta_updater.go: what the patch of `metaUpdater.Update` does to the metadata.
use sandbox_mommy.Base.{
  String, Option, List, [], Bool-cases, inl, inr, refl, ◌∙◌, sym, ap, none, some, Distinct, ◌≡◌,
  ◌≢◌, arith, if◌then◌else◌,
}
use sandbox_mommy.Api.{ObjectMeta, StringMap}
use sandbox_mommy.Updater.{maps_equal, metadata_patch}
use sandbox_mommy.Updater.Maps.{slices_equal_refl, slices_equal_eq, maps_equal_refl, keys}
use sandbox_mommy.Patch.Apply.{apply_all}

-- The new map, unless it equals the old one as a map.
abbrev pub updated_map : StringMap → StringMap → StringMap
updated_map old new = if maps_equal old new then old else new

-- The patch sent for a change of the metadata, applied to the old metadata, succeeds and gives the
-- new finalizers, annotations and labels (maps that are equal as maps are left as they were), and
-- leaves every other field. The maps have distinct keys.
pub metadata_patch_applies :
    (old new : ObjectMeta)
    → Distinct (keys old.annotations)
    → Distinct (keys old.labels)
    → apply_all (metadata_patch old new).ops old
      ≡ some (record old {
        finalizers = new.finalizers;
        annotations = updated_map old.annotations new.annotations;
        labels = updated_map old.labels new.labels;
      })
unfolding metadata_patch apply_all
metadata_patch_applies old new da dl = ground (
  arith,
  slices_equal_refl old.finalizers,
  slices_equal_eq old.finalizers new.finalizers,
  maps_equal_refl old.annotations da,
  maps_equal_refl old.labels dl,
)

-- A change of the finalizers is not written over finalizers that somebody else has changed since
-- the object was read.
pub metadata_patch_conflicts :
    (old new now : ObjectMeta)
    → old.finalizers ≢ new.finalizers
    → now.finalizers ≢ old.finalizers
    → apply_all (metadata_patch old new).ops now ≡ none
unfolding metadata_patch apply_all
metadata_patch_conflicts old new now changed raced = ground (
  arith,
  slices_equal_eq old.finalizers new.finalizers,
  slices_equal_eq now.finalizers old.finalizers,
)

updated_map_self : (m : StringMap) → updated_map m m ≡ m
updated_map_self m = elim (Bool-cases (maps_equal m m)) [
  | inl same ↦ rw same refl
  | inr differ ↦ rw differ refl
]

-- A change of the finalizers alone.
module _ (m : ObjectMeta) (fs : List String) (da : Distinct (keys m.annotations))
    (dl : Distinct (keys m.labels)) where
  pub finalizers_patch_applies :
      apply_all (metadata_patch m (record m { finalizers = fs })).ops m
      ≡ some (record m { finalizers = fs })
  finalizers_patch_applies =
      metadata_patch_applies m (record m { finalizers = fs }) da dl
      ∙ rw (updated_map_self m.annotations, updated_map_self m.labels) refl

  pub finalizers_patch_filled :
      m.finalizers ≢ fs → (metadata_patch m (record m { finalizers = fs })).ops ≢ []
  unfolding apply_all
  finalizers_patch_filled changed empty = changed (
      ap (λ (o : Option ObjectMeta). elim o [ none ↦ [] | some n ↦ n.finalizers ])
        (ap (λ ops. apply_all ops m) (sym empty) ∙ finalizers_patch_applies))
