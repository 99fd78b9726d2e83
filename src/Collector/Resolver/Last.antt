-- ===== src/Collector/Resolver/Last.antt =====
-- What a resolver knows after a walk.
use e_bpf_kubernetes_operato.Common.{
  ℕ, Bool, true, false, not, ◌&&◌, Option, none, some, List, [], ◌∷◌, ◌==◌, ==_iff, ◌≡◌, refl,
  arith, if◌then◌else◌, value_or, Option-cases, inl, inr,
}
use e_bpf_kubernetes_operato.Common.Text.{Text}
use e_bpf_kubernetes_operato.Bpf.Table.{find, find-put}
use e_bpf_kubernetes_operato.Collector.Classify.{unresolved}
use e_bpf_kubernetes_operato.Collector.Resolver.{
  CgroupResolver, Visit, walk_dir, no_paths, cgroup_id_from_path, visit, build_cgroup_resolver,
  resolve,
}

module _ (handle_of : Text → Option (List ℕ)) where
  -- the visit is of a directory with this identifier
  abbrev pub has_id : ℕ → Visit → Bool
  has_id id v =
      not v.failed
      && v.is_dir
      && elim (cgroup_id_from_path handle_of v.path) [ none ↦ false | some i ↦ i == id ]

  -- the path of the last visit of a directory with this identifier
  abbrev pub last_path : ℕ → List Visit → Option Text
  last_path id [] = none
  last_path id (v ∷ vs) =
      let rest = last_path id vs in
      elim rest [ some path ↦ some path | none ↦ if has_id id v then some v.path else none ]

  visit-find :
      (v : Visit) (r : CgroupResolver) (id : ℕ)
      → ((visit handle_of v r).0 ≡ true)
        × (find ◌==◌ (visit handle_of v r).1.by_id id
            ≡ (if has_id id v then some v.path else find ◌==◌ r.by_id id))
  unfolding visit
  visit-find v r id = elim (Option-cases (cgroup_id_from_path handle_of v.path)) [
    | inl e ↦ (ground (arith, e), ground (arith, e))
    | inr (i, e) ↦ (ground (arith, e), ground (arith, e, find-put ◌==◌ ==_iff r.by_id i id v.path))
  ]

  walk-find :
      (vs : List Visit) (r : CgroupResolver) (id : ℕ)
      → ((walk_dir (visit handle_of) vs r).0 ≡ true)
        × (find ◌==◌ (walk_dir (visit handle_of) vs r).1.by_id id
            ≡ elim (last_path id vs) [ some path ↦ some path | none ↦ find ◌==◌ r.by_id id ])
  unfolding walk_dir
  walk-find [] r id = (refl, refl)
  walk-find (v ∷ vs) r id =
      let step = visit-find v r id in
      let rest = walk-find vs (visit handle_of v r).1 id in
      elim (Option-cases (last_path id vs)) [
        | inl e ↦ (ground (arith, step, rest), ground (arith, e, step, rest))
        | inr (path, e) ↦ (ground (arith, step, rest), ground (arith, e, step, rest))
      ]

  -- Building the resolver never fails, whatever the walk finds. It resolves an identifier to the path
  -- of the last directory with it that was visited without an error, and to the text for an unknown
  -- one if there is none.
  pub resolve-build_cgroup_resolver :
      (visits : List Visit) (id : ℕ)
      → (r : CgroupResolver) × (build_cgroup_resolver handle_of visits ≡ some r)
        × (resolve r id ≡ value_or (last_path id visits) unresolved)
  unfolding build_cgroup_resolver resolve
  resolve-build_cgroup_resolver visits id =
      let walked = walk-find visits no_paths id in
      (
        (walk_dir (visit handle_of) visits no_paths).1,
        ground (arith, walked),
        elim (Option-cases (last_path id visits)) [
          | inl e ↦ ground (arith, e, walked)
          | inr (path, e) ↦ ground (arith, e, walked)
        ],
      )
