-- ===== src/Kernel/Types/Fpu.antt =====
-- The registers of a task, from ebpf/vmlinux.h.
use e_bpf_kubernetes_operato.Kernel.Layout.{
  CType, int, pointer, array, struct, union, field, bits, done, ◌⨾◌,
}
use e_bpf_kubernetes_operato.Kernel.Types.Scalars.{u64, u32, u16, u8}

unfoldable pub fpu_state_perm : CType
unfolding u64
fpu_state_perm = struct (
    field "__state_perm" u64
    ⨾ field "__state_size" (int 4)
    ⨾ field "__user_state_size" (int 4)
    ⨾ done)

unfoldable pub fregs_state : CType
unfolding u32
fregs_state = struct (
    field "cwd" u32
    ⨾ field "swd" u32
    ⨾ field "twd" u32
    ⨾ field "fip" u32
    ⨾ field "fcs" u32
    ⨾ field "foo" u32
    ⨾ field "fos" u32
    ⨾ field "st_space" (array 20 u32)
    ⨾ field "status" u32
    ⨾ done)

unfoldable pub fxregs_state : CType
unfolding u16 u64 u32
fxregs_state = struct (
    field "cwd" u16
    ⨾ field "swd" u16
    ⨾ field "twd" u16
    ⨾ field "fop" u16
    ⨾ field "" (
        union (
          field "" (struct (field "rip" u64 ⨾ field "rdp" u64 ⨾ done))
          ⨾ field "" (
              struct (field "fip" u32 ⨾ field "fcs" u32 ⨾ field "foo" u32 ⨾ field "fos" u32 ⨾ done))
          ⨾ done))
    ⨾ field "mxcsr" u32
    ⨾ field "mxcsr_mask" u32
    ⨾ field "st_space" (array 32 u32)
    ⨾ field "xmm_space" (array 64 u32)
    ⨾ field "padding" (array 12 u32)
    ⨾ field "" (union (field "padding1" (array 12 u32) ⨾ field "sw_reserved" (array 12 u32) ⨾ done))
    ⨾ done)

unfoldable pub swregs_state : CType
unfolding u32 u8
swregs_state = struct (
    field "cwd" u32
    ⨾ field "swd" u32
    ⨾ field "twd" u32
    ⨾ field "fip" u32
    ⨾ field "fcs" u32
    ⨾ field "foo" u32
    ⨾ field "fos" u32
    ⨾ field "st_space" (array 20 u32)
    ⨾ field "ftop" u8
    ⨾ field "changed" u8
    ⨾ field "lookahead" u8
    ⨾ field "no_update" u8
    ⨾ field "rm" u8
    ⨾ field "alimit" u8
    ⨾ field "info" pointer
    ⨾ field "entry_eip" u32
    ⨾ done)

unfoldable pub xstate_header : CType
unfolding u64
xstate_header =
    struct (field "xfeatures" u64 ⨾ field "xcomp_bv" u64 ⨾ field "reserved" (array 6 u64) ⨾ done)

unfoldable pub xregs_state : CType
unfolding fxregs_state xstate_header u8
xregs_state = struct (
    field "i387" fxregs_state
    ⨾ field "header" xstate_header
    ⨾ field "extended_state_area" (array 0 u8)
    ⨾ done)

unfoldable pub fpregs_state : CType
unfolding fregs_state fxregs_state swregs_state xregs_state u8
fpregs_state = union (
    field "fsave" fregs_state
    ⨾ field "fxsave" fxregs_state
    ⨾ field "soft" swregs_state
    ⨾ field "xsave" xregs_state
    ⨾ field "__padding" (array 4096 u8)
    ⨾ done)

unfoldable pub fpstate : CType
unfolding u64 fpregs_state
fpstate = struct (
    field "size" (int 4)
    ⨾ field "user_size" (int 4)
    ⨾ field "xfeatures" u64
    ⨾ field "user_xfeatures" u64
    ⨾ field "xfd" u64
    ⨾ bits "is_valloc" 4 1
    ⨾ bits "is_guest" 4 1
    ⨾ bits "is_confidential" 4 1
    ⨾ bits "in_use" 4 1
    ⨾ bits "" 8 64
    ⨾ bits "" 8 64
    ⨾ bits "" 8 64
    ⨾ field "regs" fpregs_state
    ⨾ done)

unfoldable pub fpu : CType
unfolding fpu_state_perm fpstate
fpu = struct (
    field "last_cpu" (int 4)
    ⨾ field "avx512_timestamp" (int 8)
    ⨾ field "fpstate" pointer
    ⨾ field "__task_fpstate" pointer
    ⨾ field "perm" fpu_state_perm
    ⨾ field "guest_perm" fpu_state_perm
    ⨾ field "__fpstate" fpstate
    ⨾ done)
