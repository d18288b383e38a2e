-- ===== src/Vm/Ioctl.antt =====
-- VMproject/main.c: the ioctl LAZY_ALLOC, from the size in bytes to the block in the list of regions.
-- Whether `copy_to_user` succeeds is a parameter.
pub mod Rounding
mod Tests
use cs.Prelude.{ℕ, ◌+◌, ◌*◌, ◌/◌, Bool, Option, none, some, ◌==◌, if◌then◌else◌, u64}
use cs.Vm.MemMap.{page_size, MemMap, alloc_vspace}

-- `(size + (PAGE_SIZE - 1)) & (~(PAGE_SIZE - 1))`
unfoldable pub rounded_size : ℕ → ℕ
rounded_size size = u64 (size + 4095) / 4096 * 4096

-- `page_size >> PAGE_SHIFT`
unfoldable pub num_pages : ℕ → ℕ
num_pages size = rounded_size size / 4096

-- What the user finds after the call: the address in its request, its request as it was with a
-- return of 0, or its request as it was with a return of -EFAULT.
pub data Reply : Type 0 where
  answered : (addr : ℕ) → Reply
  no_room : Reply
  fault : Reply

unfoldable pub lazy_alloc : Bool → MemMap → ℕ → ℕ → MemMap × Reply
lazy_alloc copied map size new_map = elim (alloc_vspace map (num_pages size) new_map) [
  | none ↦ (map, no_room)
  | some r ↦ (r.0, if r.1 == 0 then no_room else if copied then answered r.1 else fault)
]
