-- ===== src/Collector/Classify.antt =====
-- collector/cgroup_classifier.go: the kind of a control group by its path.
use e_bpf_kubernetes_operato.Common.{
  Bool, true, false, ◌||◌, ◌≡◌, ◌↔◌, refl, arith, [], if◌then◌else◌, Bool-cases, inl, inr,
}
use e_bpf_kubernetes_operato.Common.Text.{
  Text, codes, text_eq, text_eq_iff, contains, contains-part,
}

pub data CgroupKind : Type 0 where
  host systemd container kubernetes unknown : CgroupKind

-- the string that each constant stands for
abbrev pub kind_text : CgroupKind → Text
kind_text host = codes "host"
kind_text systemd = codes "systemd"
kind_text container = codes "container"
kind_text kubernetes = codes "kubernetes"
kind_text unknown = codes "unknown"

abbrev pub unresolved : Text
unresolved = codes "<desconocido>"

abbrev pub cgroup_root : Text
cgroup_root = codes "/sys/fs/cgroup"

abbrev pub names_container : Text → Bool
names_container path =
    contains path (codes "containerd")
    || contains path (codes "docker")
    || contains path (codes "cri-containerd")

abbrev pub names_systemd : Text → Bool
names_systemd path =
    contains path (codes ".slice")
    || contains path (codes "system.slice")
    || contains path (codes "user.slice")
    || contains path (codes "init.scope")

-- the cases of the switch, in order
unfoldable pub classify_cgroup_path : Text → CgroupKind
classify_cgroup_path path =
    if text_eq path [] || text_eq path unresolved
    then unknown
    else if text_eq path cgroup_root
    then host
    else if contains path (codes "kubepods")
    then kubernetes
    else if names_container path
    then container
    else if names_systemd path
    then systemd
    else unknown

ne_of_contains :
    (path t special : Text)
    → contains special t ≡ false
    → contains path t ≡ true
    → text_eq path special ≡ false
ne_of_contains path t special without h = elim (Bool-cases (text_eq path special)) [
  | inl same ↦ absurd (ground (arith, (text_eq_iff path special).0 same))
  | inr other ↦ other
]

special_plain :
    (contains [] (codes "kubepods") ≡ false)
    × (contains unresolved (codes "kubepods") ≡ false)
    × (contains cgroup_root (codes "kubepods") ≡ false)
unfolding contains
special_plain = (refl, refl, refl)

-- A path is classified as Kubernetes exactly when it contains `kubepods`, since none of the three
-- special paths does.
pub classify_cgroup_path-kubernetes :
    (path : Text)
    → (classify_cgroup_path path ≡ kubernetes) ↔ (contains path (codes "kubepods") ≡ true)
unfolding classify_cgroup_path
classify_cgroup_path-kubernetes path =
    let (p0, p1, p2) = special_plain in
    let t = codes "kubepods" in
    (
      λ h. ground arith,
      λ h. ground (
        arith,
        ne_of_contains path t [] p0 h,
        ne_of_contains path t unresolved p1 h,
        ne_of_contains path t cgroup_root p2 h,
      ),
    )

-- the switch without the tests that another one covers
abbrev pub classify_short : Text → CgroupKind
classify_short path =
    if text_eq path [] || text_eq path unresolved
    then unknown
    else if text_eq path cgroup_root
    then host
    else if contains path (codes "kubepods")
    then kubernetes
    else if contains path (codes "containerd") || contains path (codes "docker")
    then container
    else if contains path (codes ".slice") || contains path (codes "init.scope")
    then systemd
    else unknown

-- The tests for `cri-containerd`, `system.slice` and `user.slice` change nothing: `containerd` and
-- `.slice` are part of these texts, so every path is classified as without them.
pub classify_cgroup_path-short : (path : Text) → classify_cgroup_path path ≡ classify_short path
unfolding classify_cgroup_path
classify_cgroup_path-short path = ground (
  arith,
  contains-part path (codes "cri-") (codes "containerd") [],
  contains-part path (codes "system") (codes ".slice") [],
  contains-part path (codes "user") (codes ".slice") [],
)
