-- ===== src/Sandboxer/Pod/Laws.antt =====
-- pod.go over a store: `Create` and `Delete`.
use sandbox_mommy.Base.{
  Bool, Option, none, some, All, Distinct, ◌≡◌, refl, sym, ap, ◌∙◌, inl, inr, Bool-cases,
  Option-cases, ◌!=◌, not,
}
use mathlib.Core.Path.{subst}
use sandbox_mommy.Exec.{ok}
use sandbox_mommy.Exec.Laws.{bind_ok, or_wrap_ok}
use sandbox_mommy.Api.{Object, object_key, Pod, Sandbox, SandboxTemplateSpec, Reason, reason_eq}
use sandbox_mommy.Env.{Env, KindClient}
use sandbox_mommy.Env.Store.{Store, Apart, IsReleased}
use sandbox_mommy.Sandboxer.{main_key, delete_found}
use sandbox_mommy.Sandboxer.Ensure.{find_lem, All-Agrees}
use sandbox_mommy.Sandboxer.Loops.{Ensured}
use sandbox_mommy.Sandboxer.Ownership.{NoForeign}
use sandbox_mommy.Sandboxer.Pod.{
  get_reason_from_pod_phase, pod_of, get_pod, ensure_pod, create_pod, delete_pod,
}
use sandbox_mommy.Sandboxer.Pvc.{make_persistent_volume_claims, create_pvcs, delete_pvcs}
use sandbox_mommy.Sandboxer.Pvc.Laws.{
  create_pvcs_step, delete_pvcs_step, claims-IsWanted, create_pvcs-Ensured,
}
use sandbox_mommy.Sandboxer.Release.{
  Freed, Freed-before, delete_owned-Freed, without, delete_found_lem, without-IsReleased, Untouched,
  create_missing-Untouched, delete_all-Untouched, without-Untouched,
}
use sandbox_mommy.Sandboxer.Settle.{
  wanted_of, wanted_of-keyed, Settled, settled, settled-Settled, Settled-before, settled-Untouched,
  Ensured-after,
}
use sandbox_mommy.Webhook.Names.{names}

abbrev pub is_failed_pod : Pod → Bool
is_failed_pod pod = not (get_reason_from_pod_phase pod.status.phase != Reason.failed)

-- The pod that the template asks for.
abbrev pub wanted_pod : Env → Sandbox → SandboxTemplateSpec → Option Pod
wanted_pod E sandbox template = wanted_of (pod_of E sandbox template) template.pod_spec

module _ (E : Env) (pods : Store E.pods) (pvcs : Store E.pvcs) (claims_apart : Apart pvcs pods)
    (pods_apart : Apart pods pvcs) (sandbox : Sandbox) where
  get_pod_lem : (w : E.World) → get_pod E sandbox w ≡ (ok (pods.lookup w (main_key sandbox)), w)
  unfolding get_pod
  get_pod_lem w = find_lem E pods "failed to get pod %w" (main_key sandbox) w

  delete_pod_steps :
      (w : E.World)
      → delete_pod E sandbox w
        ≡ delete_pvcs E sandbox (without E pods (pods.lookup w (main_key sandbox)) w)
  unfolding delete_pod
  delete_pod_steps w =
      bind_ok (get_pod E sandbox) _ (get_pod_lem w)
      ∙ bind_ok (delete_found E E.pods "failed to delete pod %q" (pods.lookup w (main_key sandbox)))
          (λ _. delete_pvcs E sandbox)
          (delete_found_lem E pods "failed to delete pod %q" (main_key sandbox) w _ refl)

  delete_pvcs-leaves : (w : E.World) → Untouched E pods w (delete_pvcs E sandbox w).1
  delete_pvcs-leaves w =
      rw (delete_pvcs_step E pvcs sandbox w)
        (delete_all-Untouched E pvcs pods claims_apart "failed to delete pvc %q" w sandbox)

  -- `Delete` leaves what is apart from the pods and the claims.
  pub delete_pod-Untouched :
      {S T : Type 0} {d : KindClient E.World (Object S T)} (other : Store d)
      → Apart pods other
      → Apart pvcs other
      → (w : E.World) → Untouched E other w (delete_pod E sandbox w).1
  delete_pod-Untouched other a b w =
      let found = pods.lookup w (main_key sandbox) in
      let between = without E pods found w in
      subst (λ r. Untouched E other w r.1)
        (sym (delete_pod_steps w ∙ delete_pvcs_step E pvcs sandbox between))
        (λ k.
          delete_all-Untouched E pvcs other b "failed to delete pvc %q" between sandbox k
          ∙ without-Untouched E pods other a w found k)

  delete_pvcs-Freed :
      (w : E.World)
      → ((delete_pvcs E sandbox w).0 ≡ ok tt) × Freed E pvcs sandbox w (delete_pvcs E sandbox w).1
  delete_pvcs-Freed w =
      rw (delete_pvcs_step E pvcs sandbox w)
        (delete_owned-Freed E pvcs sandbox "failed to delete pvc %q" w)

  -- Over a store of pods and a store of claims, of which each leaves the other alone, `Delete` of a
  -- pod sandbox returns no error and leaves the pod of the sandbox gone or being deleted. Every
  -- claim in its namespace that the sandbox controls is gone or being deleted too, and every claim
  -- that the sandbox does not control stays as it was.
  pub delete_pod-Freed :
      (w : E.World)
      → ((delete_pod E sandbox w).0 ≡ ok tt)
        × IsReleased (pods.lookup (delete_pod E sandbox w).1 (main_key sandbox))
        × Freed E pvcs sandbox w (delete_pod E sandbox w).1
  delete_pod-Freed w =
      let found = pods.lookup w (main_key sandbox) in
      let between = without E pods found w in
      let (done, freed) = delete_pvcs-Freed between in
      rw (delete_pod_steps w) (
        done,
        subst IsReleased (sym (delete_pvcs-leaves between (main_key sandbox)))
            (without-IsReleased E pods (main_key sandbox) w found refl),
        Freed-before E pvcs sandbox w between _ (without-Untouched E pods pvcs pods_apart w found)
            freed,
      )

  failed_cases :
      (template : SandboxTemplateSpec) (p : Pod) (w : E.World)
      → pods.lookup w (object_key p) ≡ some p
      → ensure_pod E sandbox template (some p) w
        ≡ (ok tt, settled E pods is_failed_pod (wanted_pod E sandbox template) (some p) w)
  failed_cases template p w there =
      elim (Bool-cases (get_reason_from_pod_phase p.status.phase != Reason.failed)) [
        | inl good ↦ rw good refl
        | inr bad ↦ rw bad (pods.delete_found p p w there)
      ]

  ensure_missing :
      (template : SandboxTemplateSpec) (w : E.World)
      → pods.lookup w (main_key sandbox) ≡ none
      → ensure_pod E sandbox template none w
        ≡ (ok tt, settled E pods is_failed_pod (wanted_pod E sandbox template) none w)
  ensure_missing template w absent = elim (Option-cases template.pod_spec) [
    | inl e ↦ rw e refl
    | inr (spec, e) ↦ rw e (
        or_wrap_ok (E.pods.create (pod_of E sandbox template spec)) _
          (pods.create_new (pod_of E sandbox template spec) w absent))
  ]

  ensure_pod_lem :
      (template : SandboxTemplateSpec) (w : E.World) (found : Option Pod)
      → pods.lookup w (main_key sandbox) ≡ found
      → ensure_pod E sandbox template found w
        ≡ (ok tt, settled E pods is_failed_pod (wanted_pod E sandbox template) found w)
  ensure_pod_lem template w none e = ensure_missing template w e
  ensure_pod_lem template w (some p) e =
      let (same, m) = pods.found-items w (main_key sandbox) p e in
      failed_cases template p w (ap (pods.lookup w) same ∙ e)

  -- The world after the claims.
  abbrev with_claims : SandboxTemplateSpec → E.World → E.World
  with_claims template w =
      (create_pvcs E sandbox (make_persistent_volume_claims E sandbox template) w).1

  module _ (template : SandboxTemplateSpec) (w : E.World)
      (distinct : Distinct (names template.volumes))
      (free : All
        (NoForeign E pvcs sandbox w)
        (make_persistent_volume_claims E sandbox template)) where
    create_pvcs-leaves : Untouched E pods w (with_claims template w)
    create_pvcs-leaves =
        let i = claims-IsWanted E pvcs sandbox template w distinct free in
        subst (λ r. Untouched E pods w r.1)
          (sym
            (create_pvcs_step E pvcs sandbox (make_persistent_volume_claims E sandbox template) w))
          (create_missing-Untouched E pvcs pods claims_apart _ _ _ w i.distinct
            (All-Agrees E pvcs sandbox w _ i.here i.free))

    create_pod_steps : create_pod E sandbox template w ≡ (
      ok tt,
      settled E pods is_failed_pod
          (wanted_pod E sandbox template)
          (pods.lookup (with_claims template w) (main_key sandbox))
          (with_claims template w),
    )
    unfolding create_pod
    create_pod_steps =
        let (done, e) = create_pvcs-Ensured E pvcs sandbox template w distinct free in
        bind_ok (create_pvcs E sandbox (make_persistent_volume_claims E sandbox template)) _
          (ap (λ r. (r, with_claims template w)) done)
        ∙ bind_ok (get_pod E sandbox) _ (get_pod_lem (with_claims template w))
        ∙ ensure_pod_lem template (with_claims template w) _ refl

    -- Over a store of pods and a store of claims, of which each leaves the other alone, `Create` of
    -- a pod sandbox, where the names of the template's volumes are distinct and a claim
    -- under a wanted key belongs to the sandbox, returns no error. Every claim of the template is
    -- there then, and every claim that was there stays as it was. The pod of the template is made
    -- where there is none under its name; a pod that has not failed stays as it was, and one that
    -- has failed is deleted.
    pub create_pod-Settled :
        ((create_pod E sandbox template w).0 ≡ ok tt)
        × Settled E pods
            (main_key sandbox)
            is_failed_pod
            (wanted_pod E sandbox template)
            w
            (create_pod E sandbox template w).1
        × Ensured E pvcs w
            (create_pod E sandbox template w).1
            (make_persistent_volume_claims E sandbox template)
    create_pod-Settled =
        let (done, e) = create_pvcs-Ensured E pvcs sandbox template w distinct free in
        rw create_pod_steps (
          refl,
          Settled-before E pods (main_key sandbox) is_failed_pod (wanted_pod E sandbox template) w
              (with_claims template w) _ (create_pvcs-leaves (main_key sandbox))
              (settled-Settled E pods (main_key sandbox) is_failed_pod
                (wanted_pod E sandbox template)
                (wanted_of-keyed (pod_of E sandbox template) (main_key sandbox) (λ spec. refl)
                  template.pod_spec)
                (with_claims template w)),
          Ensured-after E pvcs w (with_claims template w) _ _
              (settled-Untouched E pods pvcs pods_apart is_failed_pod
                (wanted_pod E sandbox template) _ (with_claims template w))
              e,
        )
