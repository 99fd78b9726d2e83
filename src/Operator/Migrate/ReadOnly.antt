-- ===== src/Operator/Migrate/ReadOnly.antt =====
-- When the action takes a claim for one that nobody writes.
use e_bpf_kubernetes_operato.Common.{
  Bool, true, false, not, ◌&&◌, ◌||◌, none, some, List, [], ◌∷◌, ◌≡◌, arith, if◌then◌else◌,
}
use e_bpf_kubernetes_operato.Common.Text.{Text, text_eq}
use e_bpf_kubernetes_operato.Operator.Migrate.{
  AccessMode, read_write_once, read_write_many, read_write_once_pod, read_only_many, other_mode,
  Claim, VolumeMount, Deployment, scan_modes, scan_mounts, scan_containers, pvc_used_read_only,
}

-- a mode in which somebody writes
abbrev pub writes_some : List AccessMode → Bool
writes_some [] = false
writes_some (read_only_many ∷ ms) = writes_some ms
writes_some (other_mode m ∷ ms) = writes_some ms
writes_some (read_write_once ∷ ms) = true
writes_some (read_write_many ∷ ms) = true
writes_some (read_write_once_pod ∷ ms) = true

abbrev pub reads_many : List AccessMode → Bool
reads_many [] = false
reads_many (read_only_many ∷ ms) = true
reads_many (other_mode m ∷ ms) = reads_many ms
reads_many (read_write_once ∷ ms) = reads_many ms
reads_many (read_write_many ∷ ms) = reads_many ms
reads_many (read_write_once_pod ∷ ms) = reads_many ms

scan_modes_lem :
    (ms : List AccessMode) (w r : Bool)
    → scan_modes ms w r ≡ ((w || writes_some ms), (r || reads_many ms))
unfolding scan_modes
scan_modes_lem [] w r = ground arith
scan_modes_lem (read_only_many ∷ ms) w r = ground (arith, scan_modes_lem ms w true)
scan_modes_lem (other_mode m ∷ ms) w r = ground (arith, scan_modes_lem ms w r)
scan_modes_lem (read_write_once ∷ ms) w r = ground (arith, scan_modes_lem ms true r)
scan_modes_lem (read_write_many ∷ ms) w r = ground (arith, scan_modes_lem ms true r)
scan_modes_lem (read_write_once_pod ∷ ms) w r = ground (arith, scan_modes_lem ms true r)

-- the volume is mounted by one of the mounts
abbrev pub mounts_some : Text → List VolumeMount → Bool
mounts_some vol [] = false
mounts_some vol (m ∷ ms) = text_eq m.name vol || mounts_some vol ms

-- each mount of the volume is for reading only
abbrev pub mounts_read_only : Text → List VolumeMount → Bool
mounts_read_only vol [] = true
mounts_read_only vol (m ∷ ms) = (not (text_eq m.name vol) || m.read_only) && mounts_read_only vol ms

scan_mounts_lem :
    (vol : Text) (ms : List VolumeMount) (mounted : Bool)
    → scan_mounts vol ms mounted
      ≡ (if mounts_read_only vol ms then some (mounted || mounts_some vol ms) else none)
unfolding scan_mounts
scan_mounts_lem vol [] mounted = ground arith
scan_mounts_lem vol (m ∷ ms) mounted =
    ground (arith, scan_mounts_lem vol ms true, scan_mounts_lem vol ms mounted)

abbrev pub mounted_in : Text → List (List VolumeMount) → Bool
mounted_in vol [] = false
mounted_in vol (c ∷ cs) = mounts_some vol c || mounted_in vol cs

abbrev pub read_only_in : Text → List (List VolumeMount) → Bool
read_only_in vol [] = true
read_only_in vol (c ∷ cs) = mounts_read_only vol c && read_only_in vol cs

scan_containers_lem :
    (vol : Text) (cs : List (List VolumeMount)) (mounted : Bool)
    → scan_containers vol cs mounted
      ≡ (if read_only_in vol cs then some (mounted || mounted_in vol cs) else none)
unfolding scan_containers
scan_containers_lem vol [] mounted = ground arith
scan_containers_lem vol (c ∷ cs) mounted = ground (
  arith,
  scan_mounts_lem vol c mounted,
  scan_containers_lem vol cs (mounted || mounts_some vol c),
)

-- A claim counts as used for reading only exactly when its modes have ReadOnlyMany and none that
-- writes, or when some container of the template mounts the volume and every mount of it in every
-- container is for reading only.
pub pvc_used_read_only_lem :
    (pvc : Claim) (d : Deployment) (vol : Text)
    → pvc_used_read_only pvc d vol ≡ (
        reads_many pvc.access_modes && not (writes_some pvc.access_modes)
        || mounted_in vol d.containers && read_only_in vol d.containers)
unfolding pvc_used_read_only
pvc_used_read_only_lem pvc d vol =
    ground (
      arith,
      scan_modes_lem pvc.access_modes false false,
      scan_containers_lem vol d.containers false,
    )
