-- ===== src/Kernel/Types.antt =====
-- The kernel's types: each is the declaration of ebpf/vmlinux.h, name by name, with the declarations
-- of the parts that it holds by value. An enumeration is an `int`, or a byte if the header says so,
-- a pointer shows no target, and a type whose name begins with two underscores is written out or
-- named without them.
pub mod Scalars
pub mod Links
pub mod Locks
pub mod Sched
pub mod Fpu
pub mod Process
pub mod Task
pub mod Request
pub mod Cgroup
pub mod Queue
pub mod Device
pub mod Objects
pub mod Contexts
pub mod Signals
pub mod Roots
pub mod Disk
