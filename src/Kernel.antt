-- ===== src/Kernel.antt =====
-- The kernel's types of ebpf/vmlinux.h that the programs under ebpf/latency read, and their layout.
pub mod Layout
pub mod Types
pub mod Read
mod Tests
