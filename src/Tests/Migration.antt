-- ===== src/Tests/Migration.antt =====
-- Runs of the action that migrates claims.
use e_bpf_kubernetes_operato.Common.{
  ◌≡◌, refl, none, some, true, false, not, ◌&&◌, ◌||◌, List, [], ◌∷◌,
}
use e_bpf_kubernetes_operato.Common.Text.{Text, codes}
use e_bpf_kubernetes_operato.Common.Decimal.{digits}
use e_bpf_kubernetes_operato.Operator.Calls.{err}
use e_bpf_kubernetes_operato.Operator.Migrate.{
  set_claim_name, read_write_once, Claim, Deployment, ClaimRef, writable, found, Client, ClaimRef,
  new_claim, collect_refs, owner_name, scan_modes, scan_mounts, scan_containers, pvc_used_read_only,
  migrate_claim, migrate_ref, migrate_refs, migrate_deployment, execute,
}
use e_bpf_kubernetes_operato.Operator.Migrate.ReadOnly.{
  reads_many, writes_some, mounted_in, read_only_in, pvc_used_read_only_lem,
}
use e_bpf_kubernetes_operato.Operator.Migrate.Aborted.{execute-aborted}
use e_bpf_kubernetes_operato.Operator.Migrate.Volumes.{migrate_deployment-moved}
use e_bpf_kubernetes_operato.Operator.Migrate.Orphan.{migrate_deployment-orphan}

abbrev claim : Text → Claim
claim name = record {
  name = name;
  namespace = codes "default";
  migrated_from = none;
  access_modes = read_write_once ∷ [];
  resources = codes "1Gi";
  storage_class_name = some (codes "hdd");
}

-- the first volume is mounted for reading, the second one for writing
abbrev deployment : Deployment
deployment = record {
  name = codes "web";
  volumes =
      record { name = codes "static"; claim_name = some (codes "c1") }
      ∷ record { name = codes "tmp"; claim_name = none }
      ∷ record { name = codes "state"; claim_name = some (codes "c2") }
      ∷ [];
  containers =
      (record { name = codes "static"; read_only = true }
        ∷ record { name = codes "state"; read_only = false }
        ∷ [])
      ∷ [];
}

abbrev first_ref : ClaimRef
first_ref = record { vol_index = 0; vol_name = codes "static"; old_name = codes "c1" }

abbrev second_ref : ClaimRef
second_ref = record { vol_index = 2; vol_name = codes "state"; old_name = codes "c2" }

-- the state is the deployment with the claims that have been made
abbrev client : Client (Deployment × List Claim)
client = record {
  get_storage_class = λ s n. found;
  get_pod = λ s name namespace. some (record {
    name = name;
    namespace = namespace;
    owners = record { kind = codes "ReplicaSet"; name = codes "web-1" } ∷ [];
  });
  get_replica_set =
      λ s name namespace. some (record { kind = codes "Deployment"; name = codes "web" } ∷ []);
  get_deployment = λ s name namespace. some s.0;
  get_claim = λ s name namespace. some (claim name);
  create_claim = λ s q. (true, (s.0, q ∷ s.1));
  patch_deployment = λ s wanted old. (true, (wanted, s.1));
}

abbrev made : Claim
made =
    new_claim (codes "ssd") (codes "default") 1700000000000000000 0 first_ref (claim (codes "c1"))

made_name : made.name ≡ codes "c1-migrated-1700000000000000000-0"
unfolding digits
made_name = refl

owners_found :
    execute client (codes "ssd") (codes "default") 1700000000000000000 (codes "p1") (deployment, [])
    ≡ (err writable, (deployment, made ∷ []))
unfolding execute owner_name collect_refs scan_modes scan_mounts scan_containers pvc_used_read_only
    migrate_ref migrate_claim migrate_refs
owners_found = refl

execute-aborted_example :
    (execute client
      (codes "ssd")
      (codes "default")
      1700000000000000000
      (codes "p1")
      (deployment, [])).1.0
    ≡ deployment
unfolding execute owner_name collect_refs scan_modes scan_mounts scan_containers pvc_used_read_only
    migrate_ref migrate_claim migrate_refs
execute-aborted_example =
    execute-aborted (λ (s : Deployment × List Claim). s.0) client (codes "ssd") (codes "default")
      1700000000000000000 (λ s q. refl) (codes "p1") (deployment, []) writable refl (λ e. cc)

migrate_deployment-orphan_example :
    migrate_deployment client
      (codes "ssd")
      (codes "default")
      1700000000000000000
      deployment
      (deployment, [])
    ≡ (err writable, (deployment, made ∷ []))
unfolding collect_refs scan_modes scan_mounts scan_containers pvc_used_read_only
migrate_deployment-orphan_example =
    migrate_deployment-orphan client (codes "ssd") (codes "default") 1700000000000000000 deployment
      (deployment, []) first_ref second_ref [] (claim (codes "c1")) (claim (codes "c2")) refl refl
      refl refl refl refl refl refl

pvc_used_read_only_lem_example :
    pvc_used_read_only (claim (codes "c1")) deployment (codes "static") ≡ (
      reads_many (claim (codes "c1")).access_modes
        && not (writes_some (claim (codes "c1")).access_modes)
      || mounted_in (codes "static") deployment.containers
        && read_only_in (codes "static") deployment.containers)
pvc_used_read_only_lem_example =
    pvc_used_read_only_lem (claim (codes "c1")) deployment (codes "static")

-- both volumes are only read
abbrev read_deployment : Deployment
read_deployment = record deployment {
  containers =
      (record { name = codes "static"; read_only = true }
        ∷ record { name = codes "state"; read_only = true }
        ∷ [])
      ∷ [];
}

migrate_deployment-moved_example :
    (s : Deployment × List Claim) × ((migrate_deployment client
        (codes "ssd")
        (codes "default")
        17
        read_deployment
        (read_deployment, [])).1
      ≡ (
        record read_deployment {
          volumes =
              record { name = codes "static"; claim_name = some (codes "c1-migrated-17-0") }
              ∷ record { name = codes "tmp"; claim_name = none }
              ∷ record { name = codes "state"; claim_name = some (codes "c2-migrated-17-1") }
              ∷ [];
        },
        s.1,
      ))
unfolding migrate_deployment collect_refs scan_modes scan_mounts scan_containers pvc_used_read_only
    migrate_ref migrate_claim migrate_refs digits set_claim_name
migrate_deployment-moved_example =
    migrate_deployment-moved client (codes "ssd") (codes "default") 17 (λ s q name p h. h)
      read_deployment (read_deployment, [])
      (
        (λ old e. (claim old, refl)),
        ((λ old e. (claim old, refl)), ((λ old e. (claim old, refl)), tt)),
      )
      refl
