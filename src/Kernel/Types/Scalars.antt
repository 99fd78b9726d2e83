-- ===== src/Kernel/Types/Scalars.antt =====
-- Integer types, from ebpf/vmlinux.h.
use e_bpf_kubernetes_operato.Kernel.Layout.{CType, int, pointer}

unfoldable pub blk_opf_t : CType
blk_opf_t = int 4

unfoldable pub req_flags_t : CType
req_flags_t = int 4

unfoldable pub u64 : CType
u64 = int 8

unfoldable pub sector_t : CType
unfolding u64
sector_t = u64

unfoldable pub u32 : CType
u32 = int 4

unfoldable pub u16 : CType
u16 = int 2

unfoldable pub s64 : CType
s64 = int 8

unfoldable pub ktime_t : CType
unfolding s64
ktime_t = s64

unfoldable pub u8 : CType
u8 = int 1

unfoldable pub clockid_t : CType
clockid_t = int 4

unfoldable pub pid_t : CType
pid_t = int 4

unfoldable pub size_t : CType
size_t = int 8

unfoldable pub uid_t : CType
uid_t = int 4

unfoldable pub bool : CType
bool = int 1

unfoldable pub umode_t : CType
umode_t = int 2

unfoldable pub loff_t : CType
loff_t = int 8

unfoldable pub cpumask_var_t : CType
cpumask_var_t = pointer

unfoldable pub gfp_t : CType
gfp_t = int 4

unfoldable pub blk_features_t : CType
blk_features_t = int 4

unfoldable pub blk_flags_t : CType
blk_flags_t = int 4

unfoldable pub dev_t : CType
unfolding u32
dev_t = u32

unfoldable pub gid_t : CType
gid_t = int 4

unfoldable pub blk_mode_t : CType
blk_mode_t = int 4
