-- ===== src/Vm/FileIo/Access.antt =====
-- Opening, closing, measuring, reading and writing a file in VMproject/file_io.c.
use Prim.Native.Nat.{bit_or}
use cs.Prelude.{ℕ, ◌-◌, ◌^◌, ◌≡◌, Option, List, ◌==◌, if◌then◌else◌}

-- What the functions of the kernel do and answer. A length and an error of `vfs_read` and
-- `vfs_write` are words of 64 bits, and what `vfs_getattr` returns is one of 32 bits, before the
-- size. `Limit` bounds the addresses that the kernel copies from and to.
pub record Files (World File Limit : Type 0) : Type 0 where
  pub o_largefile : ℕ
  pub filp_open : List ℕ → ℕ → World → World × Option File
  pub filp_close : File → World → World
  pub vfs_getattr : File → World → ℕ × ℕ
  pub get_ds : Limit
  pub get_fs : World → Limit
  pub set_fs : Limit → World → World
  pub vfs_read : (file : File) (buffer length offset : ℕ) → World → World × ℕ
  pub vfs_write : (file : File) (buffer length offset : ℕ) → World → World × ℕ

module _ {World File Limit : Type 0} (k : Files World File Limit) where
  -- `none` is NULL, also where `filp_open` answers an error.
  unfoldable pub file_open : List ℕ → ℕ → World → World × Option File
  file_open path mode w = k.filp_open path (bit_or mode k.o_largefile) w

  unfoldable pub file_close : File → World → World × ℕ
  file_close file_ptr w = (k.filp_close file_ptr w, 0)

  -- -1 in 64 bits where the kernel does not tell the size.
  unfoldable pub file_size : File → World → ℕ
  file_size file_ptr w =
      let (ret, size) = k.vfs_getattr file_ptr w in if ret == 0 then size else 2 ^ 64 - 1

  unfoldable pub file_read : File → (buffer length offset : ℕ) → World → World × ℕ
  file_read file_ptr buffer length offset w =
      let old_fs = k.get_fs w in
      let (w1, ret) = k.vfs_read file_ptr buffer length offset (k.set_fs k.get_ds w) in
      (k.set_fs old_fs w1, ret)

  unfoldable pub file_write : File → (buffer length offset : ℕ) → World → World × ℕ
  file_write file_ptr buffer length offset w =
      let old_fs = k.get_fs w in
      let (w1, ret) = k.vfs_write file_ptr buffer length offset (k.set_fs k.get_ds w) in
      (k.set_fs old_fs w1, ret)

  -- Where `set_fs` sets what `get_fs` reads, a read and a write leave the limit as it
  -- was before.
  module _ (set_limit : (l : Limit) (w : World) → k.get_fs (k.set_fs l w) ≡ l) where
    pub file_read-limit :
        (file_ptr : File) (buffer length offset : ℕ) (w : World)
        → k.get_fs (file_read file_ptr buffer length offset w).0 ≡ k.get_fs w
    unfolding file_read
    file_read-limit file_ptr buffer length offset w = set_limit (k.get_fs w) _

    pub file_write-limit :
        (file_ptr : File) (buffer length offset : ℕ) (w : World)
        → k.get_fs (file_write file_ptr buffer length offset w).0 ≡ k.get_fs w
    unfolding file_write
    file_write-limit file_ptr buffer length offset w = set_limit (k.get_fs w) _
