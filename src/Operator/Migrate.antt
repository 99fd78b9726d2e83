-- ===== src/Operator/Migrate.antt =====
-- operator/pkg/action/migrate_storage.go: `Execute` of `MigrateStorageAction`. The client of the API
-- server is a parameter. What the action reads of the objects is in records; the resources of a
-- claim, which it copies, are opaque.
pub mod ReadOnly
pub mod Aborted
pub mod Orphan
pub mod Volumes
use e_bpf_kubernetes_operato.Common.{
  ℕ, zero, suc, ◌+◌, Bool, true, false, not, ◌&&◌, ◌||◌, Option, none, some, List, [], ◌∷◌, ◌++◌,
  if◌then◌else◌,
}
use e_bpf_kubernetes_operato.Common.Text.{Text, codes, text_eq}
use e_bpf_kubernetes_operato.Common.Decimal.{decimal}
use e_bpf_kubernetes_operato.Operator.Calls.{
  Result, ok, err, Action, pure, raise, fetch, raise_if, send, ◌>>=◌, ◌>>◌,
}

pub data AccessMode : Type 0 where
  read_write_once read_write_many read_write_once_pod read_only_many : AccessMode
  other_mode : Text → AccessMode

pub record Claim : Type 0 where
  pub name : Text
  pub namespace : Text
  pub migrated_from : Option Text
  pub access_modes : List AccessMode
  pub resources : Text
  pub storage_class_name : Option Text

pub record VolumeMount : Type 0 where
  pub name : Text
  pub read_only : Bool

-- a volume of the pod template, with the name of its claim if it has one
pub record Volume : Type 0 where
  pub name : Text
  pub claim_name : Option Text

-- the pod template of a deployment: its volumes, and the mounts of each container
pub record Deployment : Type 0 where
  pub name : Text
  pub volumes : List Volume
  pub containers : List (List VolumeMount)

pub record Owner : Type 0 where
  pub kind : Text
  pub name : Text

pub record Pod : Type 0 where
  pub name : Text
  pub namespace : Text
  pub owners : List Owner

pub data Error : Type 0 where
  empty_class no_class class_failed no_pod no_replica_set_owner no_replica_set no_deployment_owner :
      Error
  no_deployment no_claims no_claim writable create_failed patch_failed : Error

pub data ClassLookup : Type 0 where
  found not_found failed : ClassLookup

pub record Client (S : Type 0) : Type 0 where
  pub get_storage_class : S → Text → ClassLookup
  pub get_pod : S → Text → Text → Option Pod
  -- the owners of a replica set
  pub get_replica_set : S → Text → Text → Option (List Owner)
  pub get_deployment : S → Text → Text → Option Deployment
  pub get_claim : S → Text → Text → Option Claim
  pub create_claim : S → Claim → Bool × S
  -- `Patch` with the deployment as it is to be, and `MergeFrom` as it was
  pub patch_deployment : S → Deployment → Deployment → Bool × S

-- the loop over the access modes: whether one writes, and whether one is ReadOnlyMany
unfoldable pub scan_modes : List AccessMode → Bool → Bool → Bool × Bool
scan_modes [] writes reads = (writes, reads)
scan_modes (read_only_many ∷ ms) writes reads = scan_modes ms writes true
scan_modes (other_mode m ∷ ms) writes reads = scan_modes ms writes reads
scan_modes (read_write_once ∷ ms) writes reads = scan_modes ms true reads
scan_modes (read_write_many ∷ ms) writes reads = scan_modes ms true reads
scan_modes (read_write_once_pod ∷ ms) writes reads = scan_modes ms true reads

-- the loop over the mounts of a container; `none` is its `return false`
unfoldable pub scan_mounts : Text → List VolumeMount → Bool → Option Bool
scan_mounts vol [] mounted = some mounted
scan_mounts vol (m ∷ ms) mounted =
    if text_eq m.name vol && not m.read_only
    then none
    else scan_mounts vol ms (if text_eq m.name vol then true else mounted)

unfoldable pub scan_containers : Text → List (List VolumeMount) → Bool → Option Bool
scan_containers vol [] mounted = some mounted
scan_containers vol (c ∷ cs) mounted = elim (scan_mounts vol c mounted) [
  | none ↦ none
  | some mounted' ↦ scan_containers vol cs mounted'
]

unfoldable pub pvc_used_read_only : Claim → Deployment → Text → Bool
pvc_used_read_only pvc deployment vol =
    let (writes, reads) = scan_modes pvc.access_modes false false in
    if reads && not writes then true else elim (scan_containers vol deployment.containers false) [
      | none ↦ false
      | some mounted ↦ mounted
    ]

-- `pvcRef`
pub record ClaimRef : Type 0 where
  pub vol_index : ℕ
  pub vol_name : Text
  pub old_name : Text

unfoldable pub collect_refs : ℕ → List Volume → List ClaimRef
collect_refs i [] = []
collect_refs i (v ∷ vs) = elim v.claim_name [
  | none ↦ collect_refs (i + 1) vs
  | some old ↦ record { vol_index = i; vol_name = v.name; old_name = old } ∷ collect_refs (i + 1) vs
]

-- `Volumes[i].PersistentVolumeClaim.ClaimName = name`
unfoldable pub set_claim_name : List Volume → ℕ → Text → List Volume
set_claim_name [] i name = []
set_claim_name (v ∷ vs) zero name = record v { claim_name = some name } ∷ vs
set_claim_name (v ∷ vs) (suc i) name = v ∷ set_claim_name vs i name

-- the name of the first owner of a kind
unfoldable pub owner_name : Text → List Owner → Option Text
owner_name kind [] = none
owner_name kind (o ∷ os) = if text_eq o.kind kind then some o.name else owner_name kind os

-- `fmt.Sprintf("%s-migrated-%d-%d", ref.oldName, stamp, idx)`
abbrev pub new_claim_name : Text → ℕ → ℕ → Text
new_claim_name old stamp idx =
    old ++ (codes "-migrated-" ++ (decimal stamp ++ (codes "-" ++ decimal idx)))

abbrev pub uses_class : Text → Claim → Bool
uses_class class claim = elim claim.storage_class_name [
  | none ↦ false
  | some name ↦ text_eq name class
]

abbrev pub new_claim : Text → Text → ℕ → ℕ → ClaimRef → Claim → Claim
new_claim class namespace stamp idx ref old = record {
  name = new_claim_name ref.old_name stamp idx;
  namespace = namespace;
  migrated_from = some ref.old_name;
  access_modes = old.access_modes;
  resources = old.resources;
  storage_class_name = some class;
}

module _ {S : Type 0} (c : Client S) (class namespace : Text) (stamp : ℕ) where
  -- a round of the loop, for a claim of another class
  unfoldable pub migrate_claim : ℕ → ClaimRef → Claim → Deployment → Action S Error Deployment
  migrate_claim idx ref old d = do
    raise_if (not (pvc_used_read_only old d ref.vol_name)) writable
    send (λ s. c.create_claim s (new_claim class namespace stamp idx ref old)) create_failed
    pure (record d {
      volumes = set_claim_name d.volumes ref.vol_index (new_claim_name ref.old_name stamp idx);
    })

  -- a round of the loop
  unfoldable pub migrate_ref : ℕ → ClaimRef → Deployment → Action S Error Deployment
  unfolding migrate_claim
  migrate_ref idx ref d = do
    old ← fetch (λ s. c.get_claim s ref.old_name namespace) no_claim
    if uses_class class old then pure d else migrate_claim idx ref old d

  -- the loop over the references
  unfoldable pub migrate_refs : ℕ → List ClaimRef → Deployment → Action S Error Deployment
  migrate_refs idx [] d = pure d
  migrate_refs idx (ref ∷ refs) d = migrate_ref idx ref d >>= migrate_refs (idx + 1) refs

  -- from the deployment on
  unfoldable pub migrate_deployment : Deployment → Action S Error (Unit {0})
  migrate_deployment d = do
    let refs = collect_refs 0 d.volumes
    raise_if (elim refs [ [] ↦ true | r ∷ rs ↦ false ]) no_claims
    d' ← migrate_refs 0 refs d
    send (λ s. c.patch_deployment s d' d) patch_failed

  abbrev pub verify_class : Action S Error (Unit {0})
  verify_class s = (
    elim (c.get_storage_class s class) [
      | found ↦ ok tt
      | not_found ↦ err no_class
      | failed ↦ err class_failed
    ],
    s,
  )

  unfoldable pub find_deployment_owner : Pod → Action S Error Text
  find_deployment_owner pod = do
    rs ← fetch (λ s. owner_name (codes "ReplicaSet") pod.owners) no_replica_set_owner
    raise_if (text_eq rs []) no_replica_set_owner
    owners ← fetch (λ s. c.get_replica_set s rs pod.namespace) no_replica_set
    fetch (λ s. owner_name (codes "Deployment") owners) no_deployment_owner

  unfoldable pub execute : Text → Action S Error (Unit {0})
  unfolding find_deployment_owner migrate_deployment
  execute pod_name = do
    raise_if (text_eq class []) empty_class
    verify_class
    pod ← fetch (λ s. c.get_pod s pod_name namespace) no_pod
    name ← find_deployment_owner pod
    d ← fetch (λ s. c.get_deployment s name namespace) no_deployment
    migrate_deployment d
