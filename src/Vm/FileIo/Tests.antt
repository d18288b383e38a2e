-- ===== src/Vm/FileIo/Tests.antt =====
-- A path of which mkdir_recursive of VMproject/file_io.c makes two directories of three.
use cs.Prelude.{ℕ, ◌≡◌, refl, true, false, none, some, List, [], ◌∷◌, ◌++◌, arith}
use cs.Vm.FileIo.{
  Vfs, mkdir_recursive, walk, scan, make_dir, file_mkdir_one, look_up, c_string, returned,
  file_mkdir, kernel_version, minus_one,
}
use cs.Vm.FileIo.Mkdir.{file_mkdir-prefixes, ended, make_all}
use cs.Vm.FileIo.Prefixes.{prefixes, printable}

-- A kernel whose state is the directories that were made. A path of one byte cannot be made.
abbrev kernel : Vfs (List (List ℕ)) Unit (List ℕ)
kernel = record {
  version = kernel_version 4 9 0;
  kmalloc = λ n w. (w, true);
  kfree = λ w. w;
  kern_path_create = λ path w. (w, some (tt, path));
  kern_path_parent = λ path w. (w, some tt);
  path_lookup_directory = λ path w. (w, false);
  path_lookup_parent = λ path w. (w, some tt);
  lookup_create = λ parent w. (w, none);
  vfs_mkdir = λ parent dentry perms w. (dentry ∷ w, 0);
  done_path_create = λ parent dentry w. w;
}

-- `/ab/c/de`
abbrev path : List ℕ
path = b'/' ∷ b'a' ∷ b'b' ∷ b'/' ∷ b'c' ∷ b'/' ∷ b'd' ∷ b'e' ∷ []

abbrev ab : List ℕ
ab = b'/' ∷ b'a' ∷ b'b' ∷ []

skips_short_name : file_mkdir kernel path 511 1 [] ≡ returned (path ∷ ab ∷ []) 0
unfolding file_mkdir mkdir_recursive walk scan make_dir file_mkdir_one look_up c_string
skips_short_name = refl

refuses_unprintable :
    file_mkdir kernel (ab ++ (b'/' ∷ 7 ∷ [])) 511 1 [] ≡ returned (ab ∷ []) minus_one
unfolding file_mkdir mkdir_recursive walk scan make_dir file_mkdir_one look_up c_string
refuses_unprintable = refl

file_mkdir-prefixes_example :
    file_mkdir kernel path 511 1 []
    ≡ ended kernel 511 true (make_all kernel 511 (ab ∷ path ∷ []) [])
unfolding prefixes printable
file_mkdir-prefixes_example =
    file_mkdir-prefixes kernel path 511 1 []
      (
        (λ e. omega (arith, e)),
        (
          (λ e. omega (arith, e)),
          (
            (λ e. omega (arith, e)),
            (
              (λ e. omega (arith, e)),
              (
                (λ e. omega (arith, e)),
                ((λ e. omega (arith, e)), ((λ e. omega (arith, e)), ((λ e. omega (arith, e)), tt))),
              ),
            ),
          ),
        ),
      )
      (λ e. omega (arith, e))
