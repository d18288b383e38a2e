-- ===== src/Vm/FileIo.antt =====
-- VMproject/file_io.c, by which the kernel module reads and writes files. The functions of the kernel
-- are a parameter; a path is the list of its bytes without the one that ends it.
pub mod Prefixes
pub mod Mkdir
pub mod Access
mod Tests
use cs.Prelude.{
  ℕ, zero, suc, ◌+◌, ◌-◌, ◌*◌, ◌^◌, Bool, true, false, ◌||◌, ◌&&◌, Option, none, some, List, [],
  ◌∷◌, ◌==◌, ltb, leb, if◌then◌else◌, length, rejoin, ◌++◌,
}

-- `KERNEL_VERSION`
abbrev pub kernel_version : ℕ → ℕ → ℕ → ℕ
kernel_version a b c = a * 65536 + b * 256 + c

-- What the functions of the kernel do to it and answer. A `Parent` is the directory that a look-up
-- found, a `Dentry` the entry that it made there, and `none` in place of one is an error. An `int`
-- is a word of 32 bits.
pub record Vfs (World Parent Dentry : Type 0) : Type 0 where
  pub version : ℕ
  pub kmalloc : ℕ → World → World × Bool
  pub kfree : World → World
  pub kern_path_create : List ℕ → World → World × Option (Parent × Dentry)
  pub kern_path_parent : List ℕ → World → World × Option Parent
  pub path_lookup_directory : List ℕ → World → World × Bool
  pub path_lookup_parent : List ℕ → World → World × Option Parent
  pub lookup_create : Parent → World → World × Option Dentry
  pub vfs_mkdir : Parent → Dentry → ℕ → World → World × ℕ
  pub done_path_create : Parent → Option Dentry → World → World

-- The return value -1.
abbrev pub minus_one : ℕ
minus_one = 2 ^ 32 - 1

-- What the look-up of `file_mkdir` comes to: it returns, or it goes on with a directory and an entry.
pub data Looked (Parent Dentry : Type 0) : Type 0 where
  stops : (code : ℕ) → Looked Parent Dentry
  goes : (parent : Parent) (dentry : Option Dentry) → Looked Parent Dentry

-- How the inner loop of `mkdir_recursive` ends: at a slash or at the end of the string, with the bytes
-- before `tmp_iter`, nearest first, and those from there on; at a byte that is not printable; or
-- behind the buffer.
pub data Scanned : Type 0 where
  stopped : (behind ahead : List ℕ) → Scanned
  invalid : Scanned
  past_end : Scanned

-- How a call ends. The last two are an access outside of the buffer and too little fuel.
pub data Ending (World : Type 0) : Type 0 where
  returned : World → ℕ → Ending World
  out_of_bounds : Ending World
  out_of_fuel : Ending World

abbrev pub isprint : ℕ → Bool
isprint a = leb b' ' a && leb a b'~'

-- The string at the start of a buffer.
unfoldable pub c_string : List ℕ → List ℕ
c_string [] = []
c_string (c ∷ cs) = let rest = c_string cs in if c == 0 then [] else c ∷ rest

-- `while ((*tmp_iter != '/') && (*tmp_iter != '\0'))`
unfoldable pub scan : List ℕ → List ℕ → Scanned
scan behind [] = past_end
scan behind (c ∷ ahead) =
    let rest = scan (c ∷ behind) ahead in
    if c == b'/' || c == 0 then stopped behind (c ∷ ahead) else if isprint c then rest else invalid

module _ {World Parent Dentry : Type 0} (k : Vfs World Parent Dentry) where
  -- The look-up before Linux 3.1, up to `lookup_create`.
  abbrev pub old_parent : List ℕ → World → World × (Option Parent × ℕ)
  old_parent pathname w =
      let (w1, parent) = k.kern_path_parent pathname w in
      let (w2, is_there) = k.path_lookup_directory pathname w in
      let (w3, parent_there) = k.path_lookup_parent pathname w2 in
      if ltb (kernel_version 2 6 38) k.version
      then (w1, (parent, minus_one))
      else if is_there
      then (w2, (none, 0))
      else (w3, (parent_there, minus_one))

  abbrev created : World × (Option Parent × ℕ) → World × Looked Parent Dentry
  created (w, (none, code)) = (w, stops code)
  created (w, (some parent, code)) =
      let (w1, dentry) = k.lookup_create parent w in (w1, goes parent dentry)

  abbrev entry : World × Option (Parent × Dentry) → World × Looked Parent Dentry
  entry (w, none) = (w, stops 0)
  entry (w, some (parent, dentry)) = (w, goes parent (some dentry))

  unfoldable pub look_up : List ℕ → World → World × Looked Parent Dentry
  look_up pathname w =
      if ltb k.version (kernel_version 3 1 0)
      then created (old_parent pathname w)
      else entry (k.kern_path_create pathname w)

  -- From the look-up on. `#if LINUX_VERSION_CODE < 4,2,0` is a comma expression with the value 0, so
  -- that each version takes the second branch.
  abbrev pub make_entry : ℕ → World × Looked Parent Dentry → World × ℕ
  make_entry perms (w, stops code) = (w, code)
  make_entry perms (w, goes parent none) = (k.done_path_create parent none w, 0)
  make_entry perms (w, goes parent (some dentry)) =
      let (w1, ret) = k.vfs_mkdir parent dentry perms w in
      (k.done_path_create parent (some dentry) w1, ret)

  -- `file_mkdir` where `recurse` is 0.
  unfoldable pub file_mkdir_one : List ℕ → ℕ → World → World × ℕ
  file_mkdir_one pathname perms w = make_entry perms (look_up pathname w)

  -- The call in the loop, for a directory name that is not taken for empty; whether it goes on.
  unfoldable pub make_dir : ℕ → ℕ → List ℕ → List ℕ → World → World × Bool
  make_dir perms dirname_ptr behind ahead w =
      let (w1, ret) = file_mkdir_one (c_string (rejoin behind ahead)) perms w in
      if ltb 1 (length behind - dirname_ptr) then (w1, ret == 0) else (w, true)

  -- `while (dirname_ptr != NULL)`, on fuel. The slash is overwritten by the end of the string for
  -- the call, and put back.
  unfoldable pub walk : ℕ → ℕ → ℕ → List ℕ → List ℕ → World → Ending World
  walk zero perms dirname_ptr behind ahead w = out_of_fuel
  walk (suc turns) perms dirname_ptr behind ahead w = elim (scan behind ahead) [
    | past_end ↦ out_of_bounds
    | invalid ↦ returned (k.kfree w) minus_one
    | stopped before [] ↦ out_of_bounds
    | stopped before (c ∷ after) ↦
        let (w1, succeeded) = make_dir perms dirname_ptr before (0 ∷ after) w in
        elim succeeded [
          | false ↦ returned (k.kfree w1) minus_one
          | true ↦ elim (c == b'/') [
            | true ↦ walk turns perms (length before + 1) (b'/' ∷ before) after w1
            | false ↦ returned (k.kfree w1) 0
          ]
        ]
  ]

  -- The copy of the path has one byte more, which is 0; the loop has a turn for each byte.
  unfoldable pub mkdir_recursive : List ℕ → ℕ → World → Ending World
  mkdir_recursive path perms w =
      let (w1, allocated) = k.kmalloc (length path + 1) w in
      if allocated
      then walk (length path + 1) perms 0 [] (path ++ (0 ∷ [])) w1
      else returned w1 minus_one

  unfoldable pub file_mkdir : List ℕ → ℕ → ℕ → World → Ending World
  file_mkdir pathname perms recurse w =
      let (w1, ret) = file_mkdir_one pathname perms w in
      let r = mkdir_recursive pathname perms w in if recurse == 0 then returned w1 ret else r
