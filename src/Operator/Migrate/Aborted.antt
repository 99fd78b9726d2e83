-- ===== src/Operator/Migrate/Aborted.antt =====
-- A migration that ends with an error.
use e_bpf_kubernetes_operato.Common.{
  ℕ, ◌+◌, Option, List, [], ◌∷◌, ◌≡◌, ◌≢◌, refl, arith, ap, ◌∙◌, sym, Option-cases, inl, inr,
}
use e_bpf_kubernetes_operato.Common.Text.{Text}
use e_bpf_kubernetes_operato.Operator.Calls.{
  err, Action, fetch, ◌>>=◌, Result-cases, bind_ok, bind_err,
}
use e_bpf_kubernetes_operato.Operator.Migrate.{
  Claim, Deployment, Pod, ClaimRef, Error, patch_failed, Client, new_claim, collect_refs,
  migrate_claim, migrate_ref, migrate_refs, migrate_deployment, find_deployment_owner, execute,
}

-- a part of the state, such as the deployments
module _ {S D : Type 0} (view : S → D) where
  -- whatever the result, the part stays
  abbrev Keeps : {A : Type 0} → Action S Error A → Type 0
  Keeps m = (s : S) → view (m s).1 ≡ view s

  -- the part stays where an error is returned, but for that of the last call
  abbrev Aborts : {A : Type 0} → Action S Error A → Type 0
  Aborts m = (s : S) (e : Error) → (m s).0 ≡ err e → e ≢ patch_failed → view (m s).1 ≡ view s

  bind-Keeps :
      {A B : Type 0} (m : Action S Error A) (f : A → Action S Error B)
      → Keeps m
      → ((a : A) → Keeps (f a))
      → Keeps (m >>= f)
  bind-Keeps m f h k s = elim (Result-cases (m s).0) [
    | inl (a, e) ↦ ap (λ r. view r.1) (bind_ok m f s a e) ∙ k a (m s).1 ∙ h s
    | inr (x, e) ↦ ap (λ r. view r.1) (bind_err m f s x e) ∙ h s
  ]

  bind-Aborts :
      {A B : Type 0} (m : Action S Error A) (f : A → Action S Error B)
      → Keeps m
      → ((a : A) → Aborts (f a))
      → Aborts (m >>= f)
  bind-Aborts m f h k s e out other = elim (Result-cases (m s).0) [
    | inl (a, e') ↦
        let step = bind_ok m f s a e' in
        ap (λ r. view r.1) step ∙ k a (m s).1 e (sym (ap (λ r. r.0) step) ∙ out) other ∙ h s
    | inr (x, e') ↦ ap (λ r. view r.1) (bind_err m f s x e') ∙ h s
  ]

  fetch-Keeps : {A : Type 0} (get : S → Option A) (x : Error) → Keeps (fetch get x)
  fetch-Keeps get x s = elim (Option-cases (get s)) [
    | inl e ↦ rw (e, fetch) refl
    | inr (a, e) ↦ rw (e, fetch) refl
  ]

  module _ (c : Client S) (class namespace : Text) (stamp : ℕ)
      (create-view : (s : S) (q : Claim) → view (c.create_claim s q).1 ≡ view s) where
    migrate_claim-Keeps :
        (idx : ℕ) (ref : ClaimRef) (old : Claim) (d : Deployment)
        → Keeps (migrate_claim c class namespace stamp idx ref old d)
    unfolding migrate_claim
    migrate_claim-Keeps idx ref old d s =
        ground (arith, create-view s (new_claim class namespace stamp idx ref old))

    migrate_ref-Keeps :
        (idx : ℕ) (ref : ClaimRef) (d : Deployment)
        → Keeps (migrate_ref c class namespace stamp idx ref d)
    unfolding migrate_ref
    migrate_ref-Keeps idx ref d s = elim (Option-cases (c.get_claim s ref.old_name namespace)) [
      | inl e ↦ ground (arith, e)
      | inr (old, e) ↦ ground (arith, e, migrate_claim-Keeps idx ref old d s)
    ]

    migrate_refs-Keeps :
        (refs : List ClaimRef) (idx : ℕ) (d : Deployment)
        → Keeps (migrate_refs c class namespace stamp idx refs d)
    unfolding migrate_refs
    migrate_refs-Keeps [] idx d s = refl
    migrate_refs-Keeps (ref ∷ refs) idx d s =
        bind-Keeps (migrate_ref c class namespace stamp idx ref d)
          (migrate_refs c class namespace stamp (idx + 1) refs) (migrate_ref-Keeps idx ref d)
          (migrate_refs-Keeps refs (idx + 1)) s

    migrate_deployment-Aborts :
        (d : Deployment) → Aborts (migrate_deployment c class namespace stamp d)
    unfolding migrate_deployment
    migrate_deployment-Aborts d s e out other =
        let refs = collect_refs 0 d.volumes in
        let keeps = migrate_refs-Keeps refs 0 d s in
        elim (Result-cases (migrate_refs c class namespace stamp 0 refs d s).0) [
          | inl (d', e') ↦ ground (arith, e', keeps)
          | inr (x, e') ↦ ground (arith, e', keeps)
        ]

    find_deployment_owner-state :
        (pod : Pod) (s : S) → (find_deployment_owner c class namespace stamp pod s).1 ≡ s
    unfolding find_deployment_owner
    find_deployment_owner-state pod s = ground arith

    -- If creating a claim leaves a part of the cluster's state as it is, such as the deployments,
    -- then so does every migration that ends with an error, unless that is the error of the patch.
    pub execute-aborted :
        (pod_name : Text) (s : S) (e : Error)
        → (execute c class namespace stamp pod_name s).0 ≡ err e
        → e ≢ patch_failed
        → view (execute c class namespace stamp pod_name s).1 ≡ view s
    unfolding execute
    execute-aborted pod_name s e out other = elim (Option-cases (c.get_pod s pod_name namespace)) [
      | inl no_pod ↦ ground (arith, no_pod)
      | inr (pod, p) ↦
          let same = find_deployment_owner-state pod s in
          elim (Result-cases (find_deployment_owner c class namespace stamp pod s).0) [
            | inr (x, o) ↦ ground (arith, p, o, same)
            | inl (name, o) ↦ elim (Option-cases (c.get_deployment s name namespace)) [
              | inl q ↦ ground (arith, p, o, same, q)
              | inr (d, q) ↦ ground (arith, p, o, same, q, migrate_deployment-Aborts d s e)
            ]
          ]
    ]
