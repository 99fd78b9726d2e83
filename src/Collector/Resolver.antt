-- ===== src/Collector/Resolver.antt =====
-- collector/cgroup_resolver.go: the path of a control group by its identifier. What a walk over the
-- tree visits is a list, and the file handle of a path is a parameter; the machine is little-endian,
-- as in Kernel/Layout.
pub mod Last
use e_bpf_kubernetes_operato.Common.{
  ℕ, Bool, true, false, not, Option, none, some, List, [], ◌∷◌, ◌==◌, length, if◌then◌else◌,
  value_or,
}
use e_bpf_kubernetes_operato.Common.Text.{Text}
use e_bpf_kubernetes_operato.Common.Bytes.{from_bytes}
use e_bpf_kubernetes_operato.Bpf.Table.{find, put}
use e_bpf_kubernetes_operato.Collector.Classify.{unresolved}

pub record CgroupResolver : Type 0 where
  pub by_id : List (ℕ × Text)

-- a call of the function that `WalkDir` is given: a path, whether it is a directory, and whether
-- there was an error at it
pub record Visit : Type 0 where
  pub path : Text
  pub is_dir : Bool
  pub failed : Bool

-- `WalkDir`: the calls in order, up to the first one that returns an error
unfoldable pub walk_dir : {R : Type 0} → (Visit → R → Bool × R) → List Visit → R → Bool × R
walk_dir f [] r = (true, r)
walk_dir f (v ∷ vs) r =
    let (ok, r') = f v r in let rest = walk_dir f vs r' in if ok then rest else (false, r')

abbrev pub no_paths : CgroupResolver
no_paths = record { by_id = [] }

module _ (handle_of : Text → Option (List ℕ)) where
  -- `NameToHandleAt` fails, or the handle has another length than 8, or it is the identifier
  unfoldable pub cgroup_id_from_path : Text → Option ℕ
  cgroup_id_from_path path = elim (handle_of path) [
    | none ↦ none
    | some raw ↦ if length raw == 8 then some (from_bytes raw) else none
  ]

  -- the function that the walk calls, which returns no error
  unfoldable pub visit : Visit → CgroupResolver → Bool × CgroupResolver
  visit v r =
      if v.failed
      then (true, r)
      else if not v.is_dir
      then (true, r)
      else elim (cgroup_id_from_path v.path) [
        | none ↦ (true, r)
        | some id ↦ (true, record { by_id = put ◌==◌ r.by_id id v.path })
      ]

  unfoldable pub build_cgroup_resolver : List Visit → Option CgroupResolver
  build_cgroup_resolver visits =
      let (ok, r) = walk_dir visit visits no_paths in if ok then some r else none

unfoldable pub resolve : CgroupResolver → ℕ → Text
resolve r id = value_or (find ◌==◌ r.by_id id) unresolved
