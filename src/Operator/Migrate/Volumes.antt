-- ===== src/Operator/Migrate/Volumes.antt =====
-- The volumes of a deployment whose migration succeeds.
use e_bpf_kubernetes_operato.Common.{
  ℕ, ◌+◌, none, some, List, [], ◌∷◌, ◌++◌, ◌≡◌, refl, arith, ◌∙◌, ap, sym, if◌then◌else◌, length,
  length-append, Bool-cases, Option-cases, inl, inr,
}
use mathlib.Core.List.{append_assoc}
use e_bpf_kubernetes_operato.Common.Text.{Text}
use e_bpf_kubernetes_operato.Operator.Calls.{ok, Result-cases}
use e_bpf_kubernetes_operato.Operator.Migrate.{
  Claim, Deployment, ClaimRef, Volume, Client, new_claim, new_claim_name, uses_class, collect_refs,
  set_claim_name, migrate_claim, migrate_ref, migrate_refs, migrate_deployment,
}

set_claim_name-append :
    (pre : List Volume) (v : Volume) (vs : List Volume) (name : Text)
    → set_claim_name (pre ++ v ∷ vs) (length pre) name
      ≡ pre ++ record v { claim_name = some name } ∷ vs
unfolding set_claim_name
set_claim_name-append [] v vs name = refl
set_claim_name-append (u ∷ pre) v vs name = ap (◌∷◌ u) (set_claim_name-append pre v vs name)

module _ {S : Type 0} (c : Client S) (class namespace : Text) (stamp : ℕ) where
  -- a volume after the migration, the n-th one with a claim, by the claims at the start
  abbrev pub moved : S → ℕ → Volume → Text → Volume
  moved s n v old = elim (c.get_claim s old namespace) [
    | none ↦ v
    | some p ↦
        if uses_class class p
        then v
        else record v { claim_name = some (new_claim_name old stamp n) }
  ]

  abbrev pub all_moved : S → ℕ → List Volume → List Volume
  all_moved s n [] = []
  all_moved s n (v ∷ vs) = elim v.claim_name [
    | none ↦ v ∷ all_moved s n vs
    | some old ↦ moved s n v old ∷ all_moved s (n + 1) vs
  ]

  -- each claim of the volumes exists
  abbrev pub HaveClaims : S → List Volume → Type 0
  HaveClaims s [] = Unit
  HaveClaims s (v ∷ vs) =
      ((old : Text)
        → v.claim_name ≡ some old
        → (p : Claim) × (c.get_claim s old namespace ≡ some p))
      × HaveClaims s vs

  module _
      (create-kept : (s : S) (q : Claim) (name : Text) (p : Claim)
        → c.get_claim s name namespace ≡ some p
        → c.get_claim (c.create_claim s q).1 name namespace ≡ some p) where
    migrate_ref-kept :
        (n : ℕ) (ref : ClaimRef) (d : Deployment) (s : S) (name : Text) (p : Claim)
        → c.get_claim s name namespace ≡ some p
        → c.get_claim (migrate_ref c class namespace stamp n ref d s).1 name namespace ≡ some p
    unfolding migrate_ref migrate_claim
    migrate_ref-kept n ref d s name p there =
        elim (Option-cases (c.get_claim s ref.old_name namespace)) [
          | inl e ↦ ground (arith, e, there)
          | inr (old, e) ↦
              ground
                (arith, e, there, create-kept s (new_claim class namespace stamp n ref old) name p)
        ]

    migrate_ref-ok :
        (n : ℕ) (ref : ClaimRef) (old : Claim) (d d' : Deployment) (s : S)
        → c.get_claim s ref.old_name namespace ≡ some old
        → (migrate_ref c class namespace stamp n ref d s).0 ≡ ok d'
        → d' ≡ (
            if uses_class class old then d else record d {
              volumes =
                  set_claim_name d.volumes ref.vol_index (new_claim_name ref.old_name stamp n);
            })
    unfolding migrate_ref migrate_claim
    migrate_ref-ok n ref old d d' s there done = ground (arith, there)

    migrate_ref-volumes :
        (pre vs : List Volume) (v : Volume) (old : Text) (p : Claim) (n i : ℕ) (d d' : Deployment)
        (s0 s : S)
        → i ≡ length pre
        → d.volumes ≡ pre ++ v ∷ vs
        → c.get_claim s0 old namespace ≡ some p
        → c.get_claim s old namespace ≡ some p
        → (migrate_ref c class namespace stamp n
            (record { vol_index = i; vol_name = v.name; old_name = old })
            d
            s).0
          ≡ ok d'
        → d' ≡ record d { volumes = pre ++ moved s0 n v old ∷ vs }
    migrate_ref-volumes pre vs v old p n i d d' s0 s at here then_there there done =
        let ref : ClaimRef = record { vol_index = i; vol_name = v.name; old_name = old } in
        let result = migrate_ref-ok n ref p d d' s there done in
        let name = new_claim_name old stamp n in
        elim (Bool-cases (uses_class class p)) [
          | inl e ↦ ground (arith, e, result, here, then_there)
          | inr e ↦
              let written : set_claim_name d.volumes i name
                  ≡ pre ++ record v { claim_name = some name } ∷ vs =
                rw (here, at) (set_claim_name-append pre v vs name) in
              ground (arith, e, result, then_there, written)
        ]

    migrate_refs-ok :
        (vs pre : List Volume) (n i : ℕ) (d d' : Deployment) (s0 s : S)
        → i ≡ length pre
        → d.volumes ≡ pre ++ vs
        → HaveClaims s0 vs
        → ((name : Text) (p : Claim)
            → c.get_claim s0 name namespace ≡ some p
            → c.get_claim s name namespace ≡ some p)
        → (migrate_refs c class namespace stamp n (collect_refs i vs) d s).0 ≡ ok d'
        → d' ≡ record d { volumes = pre ++ all_moved s0 n vs }
    unfolding migrate_refs collect_refs
    migrate_refs-ok [] pre n i d d' s0 s at here have kept done = ground (arith, here)
    migrate_refs-ok (v ∷ vs) pre n i d d' s0 s at here have kept done =
        elim (Option-cases v.claim_name) [
          | inl e ↦
              let rest =
                migrate_refs-ok vs (pre ++ v ∷ []) n (i + 1) d d' s0 s
                  (omega (arith, length-append pre (v ∷ [])))
                  (here ∙ sym (append_assoc pre (v ∷ []) vs)) have.1 kept (ground (arith, e)) in
              ground (arith, e, rest, append_assoc pre (v ∷ []) (all_moved s0 n vs))
          | inr (old, e) ↦
              let (p, there) = have.0 old e in
              let ref : ClaimRef = record { vol_index = i; vol_name = v.name; old_name = old } in
              elim (Result-cases (migrate_ref c class namespace stamp n ref d s).0) [
                | inr (x, r) ↦ absurd (ground (arith, e, r))
                | inl (d1, r) ↦
                    let mv = moved s0 n v old in
                    let s1 = (migrate_ref c class namespace stamp n ref d s).1 in
                    let first =
                      migrate_ref-volumes pre vs v old p n i d d1 s0 s at here there
                        (kept old p there) r in
                    let rest =
                      migrate_refs-ok vs (pre ++ mv ∷ []) (n + 1) (i + 1) d1 d' s0 s1
                        (omega (arith, length-append pre (mv ∷ [])))
                        (ap (λ (x : Deployment). x.volumes) first
                          ∙ sym (append_assoc pre (mv ∷ []) vs))
                        have.1 (λ name q h. migrate_ref-kept n ref d s name q (kept name q h))
                        (ground (arith, e, r)) in
                    ground
                      (arith, e, first, rest, append_assoc pre (mv ∷ []) (all_moved s0 (n + 1) vs))
              ]
        ]

    -- Where the claims of the deployment's volumes exist, and making a claim leaves those that exist
    -- as they are: a migration that succeeds ends with a patch to the deployment in which each
    -- volume with a claim of another class names the new claim for it, numbered in the order of the
    -- volumes with claims, and every other volume, the mounts and the name are as before.
    pub migrate_deployment-moved :
        (d : Deployment) (s : S)
        → HaveClaims s d.volumes
        → (migrate_deployment c class namespace stamp d s).0 ≡ ok tt
        → (s' : S) × ((migrate_deployment c class namespace stamp d s).1
            ≡ (c.patch_deployment s' (record d { volumes = all_moved s 0 d.volumes }) d).1)
    unfolding migrate_deployment
    migrate_deployment-moved d s have done =
        let refs = collect_refs 0 d.volumes in
        let r = migrate_refs c class namespace stamp 0 refs d s in
        elim (Result-cases r.0) [
          | inr (x, e) ↦ absurd (ground (arith, e))
          | inl (d', e) ↦
              let moved_to =
                migrate_refs-ok d.volumes [] 0 0 d d' s s refl refl have (λ name p h. h) e in
              (r.1, ground (arith, e, moved_to))
        ]
