-- ===== src/Vm/Format.antt =====
-- VMproject/pgtables.h: the page table structures of the three paging modes as lists of bit fields,
-- with the accesses `e->f` and `e->f = v` on the word that such a structure is. The compiler lays bit
-- fields out from the lowest bit up, and an assignment keeps the low bits of the value.
pub mod Legacy
pub mod Long
pub mod Fields
pub mod View
pub mod Store
pub mod Address
mod Tests
use cs.Prelude.{Bool, ◌==◌, if◌then◌else◌, ℕ, ◌+◌, ◌*◌, ◌/◌, ◌%◌, ◌^◌, List, [], ◌∷◌}

-- The names of the fields; `zero_bits` is `zero`.
pub data Field : Type 0 where
  present : Field
  writable : Field
  user_page : Field
  write_through : Field
  cache_disable : Field
  accessed : Field
  reserved : Field
  large_page : Field
  global_page : Field
  vmm_info : Field
  pt_base_addr : Field
  dirty : Field
  pat : Field
  rsvd : Field
  page_base_addr : Field
  pte_attr : Field
  avail : Field
  rsvd2 : Field
  pd_base_addr : Field
  rsvd3 : Field
  one : Field
  zero_bits : Field
  pdp_base_addr : Field
  available : Field
  no_execute : Field
  write : Field
  user : Field
  rsvd_access : Field
  ifetch : Field

-- The number of a field, by which two names are compared.
unfoldable pub tag : Field → ℕ
tag present = 0
tag writable = 1
tag user_page = 2
tag write_through = 3
tag cache_disable = 4
tag accessed = 5
tag reserved = 6
tag large_page = 7
tag global_page = 8
tag vmm_info = 9
tag pt_base_addr = 10
tag dirty = 11
tag pat = 12
tag rsvd = 13
tag page_base_addr = 14
tag pte_attr = 15
tag avail = 16
tag rsvd2 = 17
tag pd_base_addr = 18
tag rsvd3 = 19
tag one = 20
tag zero_bits = 21
tag pdp_base_addr = 22
tag available = 23
tag no_execute = 24
tag write = 25
tag user = 26
tag rsvd_access = 27
tag ifetch = 28

abbrev pub same : Field → Field → Bool
same f g = tag f == tag g

-- The fields from the lowest bit up, each with its number of bits.
abbrev pub Layout : Type 0
Layout = List (Field × ℕ)

-- The number of bits of a structure.
unfoldable pub total : Layout → ℕ
total [] = 0
total ((g, n) ∷ l) = n + total l

-- The number of bits of a field, 0 if there is none of the name.
unfoldable pub width : Layout → Field → ℕ
width [] f = 0
width ((g, n) ∷ l) f = if same g f then n else width l f

-- `e->f`
unfoldable pub get : Layout → Field → ℕ → ℕ
get [] f w = 0
get ((g, n) ∷ l) f w = if same g f then w % 2 ^ n else get l f (w / 2 ^ n)

-- `e->f = v`
unfoldable pub set : Layout → Field → ℕ → ℕ → ℕ
set [] f v w = w
set ((g, n) ∷ l) f v w =
    if same g f then v % 2 ^ n + w / 2 ^ n * 2 ^ n else w % 2 ^ n + set l f v (w / 2 ^ n) * 2 ^ n
