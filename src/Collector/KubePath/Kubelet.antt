-- ===== src/Collector/KubePath/Kubelet.antt =====
-- The paths that the kubelet makes for a container: what the parser reads of them. How a path is made
-- is Kubernetes' naming of control groups, with containerd and either of the two drivers.
use e_bpf_kubernetes_operato.Common.{
  ℕ, length, true, Option, none, some, List, [], ◌∷◌, ◌++◌, ◌≡◌, refl, ◌∙◌, arith,
}
use e_bpf_kubernetes_operato.Common.Text.{Text, codes, contains, replace_byte}
use e_bpf_kubernetes_operato.Collector.KubePath.{
  ByteClass, literal, hex, hexes, uid_group, container_group, take_group, after_start, match_here,
  find_submatch, pod_uid_of, container_id_of, parse_kube_path,
}
use e_bpf_kubernetes_operato.Collector.KubePath.Search.{
  find_submatch-without, take_group-clash, without-shape, length-shape, replace_byte-back,
  find_submatch-blocked, find_submatch-skip,
}
use e_bpf_kubernetes_operato.Collector.KubePath.Shape.{
  has_shape, shape-replace_byte, take_group-found, match_here-found, find_submatch-here,
}

-- the classes of pods, and the drivers that make control groups
pub data Qos : Type 0 where
  guaranteed burstable best_effort : Qos

pub data Driver : Type 0 where
  systemd cgroupfs : Driver

abbrev pub before_pod : Driver → Qos → Text
before_pod systemd guaranteed = codes "/sys/fs/cgroup/kubepods.slice/kubepods-"
before_pod systemd burstable =
    codes "/sys/fs/cgroup/kubepods.slice/kubepods-burstable.slice/kubepods-burstable-"
before_pod systemd best_effort =
    codes "/sys/fs/cgroup/kubepods.slice/kubepods-besteffort.slice/kubepods-besteffort-"
before_pod cgroupfs guaranteed = codes "/sys/fs/cgroup/kubepods/"
before_pod cgroupfs burstable = codes "/sys/fs/cgroup/kubepods/burstable/"
before_pod cgroupfs best_effort = codes "/sys/fs/cgroup/kubepods/besteffort/"

-- the name of a slice has no dashes of its own
abbrev pub written_uid : Driver → Text → Text
written_uid systemd uid = replace_byte b'-' b'_' uid
written_uid cgroupfs uid = uid

abbrev pub between : Driver → Text
between systemd = codes ".slice/cri-containerd-"
between cgroupfs = codes "/"

abbrev pub after_id : Driver → Text
after_id systemd = codes ".scope"
after_id cgroupfs = []

abbrev pub kubelet_path : Driver → Qos → Text → Text → Text
kubelet_path d q uid id =
    before_pod d q ++ (codes "pod" ++ (written_uid d uid ++ (between d ++ (id ++ after_id d))))

-- before the pod's identifier nothing matches
find_submatch-before_pod :
    (d : Driver) (q : Qos) (g : List ByteClass) (rest : Text)
    → find_submatch (codes "pod") (hex ∷ g) (before_pod d q ++ rest)
      ≡ find_submatch (codes "pod") (hex ∷ g) rest
unfolding find_submatch match_here after_start take_group
find_submatch-before_pod systemd guaranteed g rest = refl
find_submatch-before_pod systemd burstable g rest = refl
find_submatch-before_pod systemd best_effort g rest = refl
find_submatch-before_pod cgroupfs guaranteed g rest = refl
find_submatch-before_pod cgroupfs burstable g rest = refl
find_submatch-before_pod cgroupfs best_effort g rest = refl

abbrev IsUid : Text → Type 0
IsUid uid = has_shape (uid_group b'-') uid ≡ true

abbrev find_uid : ℕ → Text → Option Text
find_uid sep s = find_submatch (codes "pod") (uid_group sep) s

-- what follows the pod's identifier
abbrev tail_of : Driver → Text → Text
tail_of d id = between d ++ (id ++ after_id d)

written-shape :
    (uid : Text) → IsUid uid → has_shape (uid_group b'_') (written_uid systemd uid) ≡ true
written-shape uid h = shape-replace_byte b'-' b'_' (uid_group b'-') uid refl h

-- the digits of the identifier, written for either driver
find_uid-tail_of :
    (sep : ℕ) (id : Text)
    → has_shape container_group id ≡ true
    → find_uid sep (tail_of systemd id) ≡ none
unfolding find_submatch match_here after_start
find_uid-tail_of sep id h =
    find_submatch-without b'p' (codes "od") (uid_group sep) (between systemd)
      (id ++ after_id systemd) refl
    ∙ find_submatch-without b'p' (codes "od") (uid_group sep) id (after_id systemd)
        (without-shape b'p' container_group id refl h)

abbrev last_groups : ℕ → List ByteClass
last_groups sep =
    hexes 4 (literal sep ∷ hexes 4 (literal sep ∷ hexes 4 (literal sep ∷ hexes 12 [])))

-- the digits after `pod` go on with an underscore
match_here-dashes :
    (w rest : Text)
    → has_shape (uid_group b'_') w ≡ true
    → match_here (codes "pod") (uid_group b'-') (codes "pod" ++ (w ++ rest)) ≡ none
unfolding match_here after_start
match_here-dashes w rest h =
    take_group-clash 8 b'-' b'_' (last_groups b'-') (last_groups b'_') w rest refl h

no_dashes :
    (q : Qos) (uid id : Text)
    → IsUid uid
    → has_shape container_group id ≡ true
    → find_uid b'-' (kubelet_path systemd q uid id) ≡ none
no_dashes q uid id h h' =
    let w = written_uid systemd uid in
    let g = uid_group b'-' in
    let rest = tail_of systemd id in
    find_submatch-before_pod systemd q _ (codes "pod" ++ (w ++ rest))
    ∙ find_submatch-skip (codes "pod") g b'p' (codes "od" ++ (w ++ rest))
        (match_here-dashes w rest (written-shape uid h))
    ∙ find_submatch-without b'p' (codes "od") g (codes "od") (w ++ rest) refl
    ∙ find_submatch-without b'p' (codes "od") g w rest
        (without-shape b'p' (uid_group b'_') w refl (written-shape uid h))
    ∙ find_uid-tail_of b'-' id h'

-- the identifier is found where its separators are those of the search
found_uid :
    (d : Driver) (q : Qos) (sep : ℕ) (uid id : Text)
    → has_shape (uid_group sep) (written_uid d uid) ≡ true
    → find_uid sep (kubelet_path d q uid id) ≡ some (written_uid d uid)
found_uid d q sep uid id h =
    let w = written_uid d uid in
    let rest = tail_of d id in
    find_submatch-before_pod d q _ (codes "pod" ++ (w ++ rest))
    ∙ find_submatch-here (codes "pod") (uid_group sep) (codes "pod" ++ (w ++ rest)) w
        (match_here-found (codes "pod") (uid_group sep) w rest h)

pod_uid_of-dashes : (path w : Text) → find_uid b'-' path ≡ some w → pod_uid_of path ≡ w
unfolding pod_uid_of
pod_uid_of-dashes path w e = ground (arith, e)

pod_uid_of-underscores :
    (path w : Text)
    → find_uid b'-' path ≡ none
    → find_uid b'_' path ≡ some w
    → pod_uid_of path ≡ replace_byte b'_' b'-' w
unfolding pod_uid_of
pod_uid_of-underscores path w e e' = ground (arith, e, e')

pod_uid_of-kubelet_path :
    (d : Driver) (q : Qos) (uid id : Text)
    → IsUid uid
    → has_shape container_group id ≡ true
    → pod_uid_of (kubelet_path d q uid id) ≡ uid
pod_uid_of-kubelet_path systemd q uid id h h' =
    pod_uid_of-underscores (kubelet_path systemd q uid id) (written_uid systemd uid)
      (no_dashes q uid id h h') (found_uid systemd q b'_' uid id (written-shape uid h))
    ∙ (replace_byte-back b'-' b'_' uid (without-shape b'_' (uid_group b'-') uid refl h))
pod_uid_of-kubelet_path cgroupfs q uid id h h' =
    pod_uid_of-dashes (kubelet_path cgroupfs q uid id) uid (found_uid cgroupfs q b'-' uid id h)

length-written_uid : (d : Driver) (uid : Text) → IsUid uid → length (written_uid d uid) ≡ 36
length-written_uid systemd uid h =
    length-shape (uid_group b'_') (written_uid systemd uid) (written-shape uid h)
length-written_uid cgroupfs uid h = length-shape (uid_group b'-') uid h

abbrev find_container : Text → Option Text
find_container s = find_submatch [] container_group s

find_container-before_pod :
    (d : Driver) (q : Qos) (rest : Text)
    → find_container (before_pod d q ++ (codes "po" ++ rest)) ≡ find_container rest
unfolding find_submatch match_here after_start take_group
find_container-before_pod systemd guaranteed rest = refl
find_container-before_pod systemd burstable rest = refl
find_container-before_pod systemd best_effort rest = refl
find_container-before_pod cgroupfs guaranteed rest = refl
find_container-before_pod cgroupfs burstable rest = refl
find_container-before_pod cgroupfs best_effort rest = refl

find_container-uid :
    (d : Driver) (uid rest : Text)
    → IsUid uid
    → find_container (b'd' ∷ (written_uid d uid ++ (between d ++ rest))) ≡ find_container rest
unfolding find_submatch match_here after_start take_group
find_container-uid systemd uid rest h =
    find_submatch-blocked 64 b'.' (b'd' ∷ written_uid systemd uid)
      (codes "slice/cri-containerd-" ++ rest) (omega (arith, length-written_uid systemd uid h)) refl
find_container-uid cgroupfs uid rest h =
    find_submatch-blocked 64 b'/' (b'd' ∷ uid) rest
      (omega (arith, length-written_uid cgroupfs uid h)) refl

container_id_of-found : (path id : Text) → find_container path ≡ some id → container_id_of path ≡ id
unfolding container_id_of
container_id_of-found path id e = ground (arith, e)

container_id_of-kubelet_path :
    (d : Driver) (q : Qos) (uid id : Text)
    → IsUid uid
    → has_shape container_group id ≡ true
    → container_id_of (kubelet_path d q uid id) ≡ id
unfolding match_here after_start
container_id_of-kubelet_path d q uid id h h' =
    let s = id ++ after_id d in
    let found : find_container (kubelet_path d q uid id) ≡ some id =
      find_container-before_pod d q (b'd' ∷ (written_uid d uid ++ (between d ++ s)))
      ∙ find_container-uid d uid s h
      ∙ find_submatch-here [] container_group s id
          (take_group-found container_group id (after_id d) h') in
    container_id_of-found (kubelet_path d q uid id) id found

is_kubernetes-kubelet_path :
    (d : Driver) (q : Qos) (uid id : Text)
    → contains (kubelet_path d q uid id) (codes "kubepods") ≡ true
unfolding contains
is_kubernetes-kubelet_path systemd guaranteed uid id = refl
is_kubernetes-kubelet_path systemd burstable uid id = refl
is_kubernetes-kubelet_path systemd best_effort uid id = refl
is_kubernetes-kubelet_path cgroupfs guaranteed uid id = refl
is_kubernetes-kubelet_path cgroupfs burstable uid id = refl
is_kubernetes-kubelet_path cgroupfs best_effort uid id = refl

-- A path that the kubelet makes for a container of a pod, with either driver and in each of the three
-- classes: the parser gives back the pod's identifier and the container's, and says that the path is
-- of Kubernetes.
pub parse_kube_path-kubelet_path :
    (d : Driver) (q : Qos) (uid id : Text)
    → has_shape (uid_group b'-') uid ≡ true
    → has_shape container_group id ≡ true
    → let info = parse_kube_path (kubelet_path d q uid id) in
      (info.is_kubernetes ≡ true) × (info.pod_uid ≡ uid) × (info.container_id ≡ id)
unfolding parse_kube_path
parse_kube_path-kubelet_path d q uid id h h' = (
  is_kubernetes-kubelet_path d q uid id,
  pod_uid_of-kubelet_path d q uid id h h',
  container_id_of-kubelet_path d q uid id h h',
)
