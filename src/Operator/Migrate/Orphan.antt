-- ===== src/Operator/Migrate/Orphan.antt =====
-- A migration that stops after it has made a claim.
use e_bpf_kubernetes_operato.Common.{ℕ, Bool, true, false, some, List, ◌∷◌, ◌≡◌, refl, arith, ◌∙◌}
use e_bpf_kubernetes_operato.Common.Text.{Text}
use e_bpf_kubernetes_operato.Operator.Calls.{ok, err}
use e_bpf_kubernetes_operato.Operator.Migrate.{
  Claim, Deployment, ClaimRef, Volume, writable, Client, new_claim, new_claim_name, uses_class,
  pvc_used_read_only, collect_refs, set_claim_name, migrate_claim, migrate_ref, migrate_refs,
  migrate_deployment,
}

read_only-volumes :
    (p : Claim) (d : Deployment) (vs : List Volume) (vol : Text)
    → pvc_used_read_only p (record d { volumes = vs }) vol ≡ pvc_used_read_only p d vol
unfolding pvc_used_read_only
read_only-volumes p d vs vol = refl

module _ {S : Type 0} (c : Client S) (class namespace : Text) (stamp : ℕ) where
  abbrev created : ℕ → ClaimRef → Claim → S → Bool × S
  created idx ref old s = c.create_claim s (new_claim class namespace stamp idx ref old)

  migrate_ref_made :
      (idx : ℕ) (ref : ClaimRef) (old : Claim) (d : Deployment) (s : S)
      → c.get_claim s ref.old_name namespace ≡ some old
      → uses_class class old ≡ false
      → pvc_used_read_only old d ref.vol_name ≡ true
      → (created idx ref old s).0 ≡ true
      → migrate_ref c class namespace stamp idx ref d s ≡ (
        ok (record d {
          volumes = set_claim_name d.volumes ref.vol_index (new_claim_name ref.old_name stamp idx);
        }),
        (created idx ref old s).1,
      )
  unfolding migrate_ref migrate_claim
  migrate_ref_made idx ref old d s here other ro made = ground (arith, here, other, ro, made)

  migrate_ref_writable :
      (idx : ℕ) (ref : ClaimRef) (old : Claim) (d : Deployment) (s : S)
      → c.get_claim s ref.old_name namespace ≡ some old
      → uses_class class old ≡ false
      → pvc_used_read_only old d ref.vol_name ≡ false
      → migrate_ref c class namespace stamp idx ref d s ≡ (err writable, s)
  unfolding migrate_ref migrate_claim
  migrate_ref_writable idx ref old d s here other written = ground (arith, here, other, written)

  -- A deployment whose first two claims are of another class than the one to migrate to, the first
  -- one used for reading only and the second one written: if the new claim for the first one can be
  -- made, the migration ends with the error of the second one, and the new claim stays.
  pub migrate_deployment-orphan :
      (d : Deployment) (s : S) (one two : ClaimRef) (rest : List ClaimRef) (old old' : Claim)
      → collect_refs 0 d.volumes ≡ one ∷ two ∷ rest
      → c.get_claim s one.old_name namespace ≡ some old
      → uses_class class old ≡ false
      → pvc_used_read_only old d one.vol_name ≡ true
      → (created 0 one old s).0 ≡ true
      → c.get_claim (created 0 one old s).1 two.old_name namespace ≡ some old'
      → uses_class class old' ≡ false
      → pvc_used_read_only old' d two.vol_name ≡ false
      → migrate_deployment c class namespace stamp d s ≡ (err writable, (created 0 one old s).1)
  unfolding migrate_deployment migrate_refs
  migrate_deployment-orphan d s one two rest old old' refs here other ro made there other' written =
      let d1 = record d {
        volumes = set_claim_name d.volumes one.vol_index (new_claim_name one.old_name stamp 0);
      } in
      let first = migrate_ref_made 0 one old d s here other ro made in
      let second =
        migrate_ref_writable 1 two old' d1 (created 0 one old s).1 there other'
          (read_only-volumes old' d d1.volumes two.vol_name ∙ written) in
      ground (arith, refs, first, second)
