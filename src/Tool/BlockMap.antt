-- ===== src/Tool/BlockMap.antt =====
-- The bitmap of memory blocks of VMproject/user/petmem.c. An access outside of the allocated bytes
-- has no result.
pub mod Laws
use cs.Prelude.{
  ℕ, zero, suc, ◌+◌, ◌-◌, ◌*◌, ◌/◌, ◌%◌, Bool, Option, none, some, ◌==◌, ltb, if◌then◌else◌,
}

-- `byte & (0x1 << minor)`
unfoldable pub has_bit : ℕ → ℕ → Bool
has_bit byte zero = byte % 2 == 1
has_bit byte (suc minor) = has_bit (byte / 2) minor

-- `byte | (0x1 << minor)`
unfoldable pub with_bit : ℕ → ℕ → ℕ
with_bit byte zero = byte / 2 * 2 + 1
with_bit byte (suc minor) = with_bit (byte / 2) minor * 2 + byte % 2

-- `byte & ~(0x1 << minor)`
unfoldable pub without_bit : ℕ → ℕ → ℕ
without_bit byte zero = byte / 2 * 2
without_bit byte (suc minor) = without_bit (byte / 2) minor * 2 + byte % 2

-- The array at `bitmap`, of `size` bytes.
pub record Bitmap : Type 0 where
  pub size : ℕ
  pub bytes : ℕ → ℕ

-- `size = bitmap_entries / 8; if (bitmap_entries % 8) size++;` and the `memset`.
unfoldable pub cleared : ℕ → Bitmap
cleared bitmap_entries = record {
  size = if bitmap_entries % 8 == 0 then bitmap_entries / 8 else bitmap_entries / 8 + 1;
  bytes = λ _. 0;
}

unfoldable pub test : Bitmap → ℕ → Option Bool
test bitmap i =
    if ltb (i / 8) bitmap.size then some (has_bit (bitmap.bytes (i / 8)) (i % 8)) else none

abbrev pub store : Bitmap → ℕ → ℕ → Option Bitmap
store bitmap major byte =
    if ltb major bitmap.size
    then some (record bitmap { bytes = λ k. if k == major then byte else bitmap.bytes k })
    else none

-- `bitmap[major] |= (0x1 << minor)`
unfoldable pub mark : Bitmap → ℕ → Option Bitmap
mark bitmap i = store bitmap (i / 8) (with_bit (bitmap.bytes (i / 8)) (i % 8))

-- `bitmap[major] &= ~(0x1 << minor)`
unfoldable pub unmark : Bitmap → ℕ → Option Bitmap
unmark bitmap i = store bitmap (i / 8) (without_bit (bitmap.bytes (i / 8)) (i % 8))
