-- ===== src/Collector/KubePath.antt =====
-- collector/kube_path_parser.go: the pod, the container and the runtime that a path names. The three
-- regular expressions have a literal start and a group of fixed length, so that a match at a place
-- is unique, and the leftmost match is the first place that fits.
pub mod Shape
pub mod Search
pub mod Kubelet
use e_bpf_kubernetes_operato.Common.{
  ℕ, zero, suc, Bool, true, false, ◌&&◌, ◌||◌, Option, none, some, List, [], ◌∷◌, ◌++◌, ◌==◌, leb,
  if◌then◌else◌,
}
use e_bpf_kubernetes_operato.Common.Text.{Text, codes, contains, replace_byte}

pub record KubePathInfo : Type 0 where
  pub is_kubernetes : Bool
  pub pod_uid : Text
  pub container_id : Text
  pub runtime : Text

-- one byte of a group: a literal one, or `[0-9a-f]`
pub data ByteClass : Type 0 where
  literal : ℕ → ByteClass
  hex : ByteClass

abbrev pub is_hex : ℕ → Bool
is_hex b = leb 48 b && leb b 57 || leb 97 b && leb b 102

abbrev pub fits : ByteClass → ℕ → Bool
fits (literal x) b = x == b
fits hex b = is_hex b

abbrev pub hexes : ℕ → List ByteClass → List ByteClass
hexes zero cs = cs
hexes (suc n) cs = hex ∷ hexes n cs

-- the five groups of digits of a pod's identifier, with the separator between them
abbrev pub uid_group : ℕ → List ByteClass
uid_group sep = hexes 8 (
    literal sep
    ∷ hexes 4 (literal sep ∷ hexes 4 (literal sep ∷ hexes 4 (literal sep ∷ hexes 12 []))))

abbrev pub container_group : List ByteClass
container_group = hexes 64 []

-- the bytes that a group takes from the start of the text
unfoldable pub take_group : List ByteClass → Text → Option Text
take_group [] s = some []
take_group (c ∷ cs) [] = none
take_group (c ∷ cs) (b ∷ s) =
    let rest = take_group cs s in
    if fits c b then elim rest [ none ↦ none | some t ↦ some (b ∷ t) ] else none

-- the text after a literal start
unfoldable pub after_start : Text → Text → Option Text
after_start [] s = some s
after_start (x ∷ start) [] = none
after_start (x ∷ start) (b ∷ s) = if x == b then after_start start s else none

unfoldable pub match_here : Text → List ByteClass → Text → Option Text
match_here start group s = elim (after_start start s) [ none ↦ none | some t ↦ take_group group t ]

-- `FindStringSubmatch(path)[1]`
unfoldable pub find_submatch : Text → List ByteClass → Text → Option Text
find_submatch start group [] = match_here start group []
find_submatch start group (b ∷ s) =
    let rest = find_submatch start group s in
    elim (match_here start group (b ∷ s)) [ none ↦ rest | some t ↦ some t ]

abbrev pub runtime_of : Text → Text
runtime_of path =
    if contains path (codes "containerd") || contains path (codes "cri-containerd")
    then codes "containerd"
    else if contains path (codes "docker")
    then codes "docker"
    else []

-- the identifier with dashes, or the one with underscores turned into dashes
unfoldable pub pod_uid_of : Text → Text
pod_uid_of path = elim (find_submatch (codes "pod") (uid_group b'-') path) [
  | some uid ↦ uid
  | none ↦ elim (find_submatch (codes "pod") (uid_group b'_') path) [
    | some uid ↦ replace_byte b'_' b'-' uid
    | none ↦ []
  ]
]

unfoldable pub container_id_of : Text → Text
container_id_of path = elim (find_submatch [] container_group path) [ some id ↦ id | none ↦ [] ]

unfoldable pub parse_kube_path : Text → KubePathInfo
unfolding pod_uid_of container_id_of
parse_kube_path path = record {
  is_kubernetes = contains path (codes "kubepods");
  pod_uid = pod_uid_of path;
  container_id = container_id_of path;
  runtime = runtime_of path;
}
