-- ===== src/Vm/FileIo/Mkdir.antt =====
-- The directories that mkdir_recursive of VMproject/file_io.c makes.
use cs.Prelude.{
  ℕ, zero, suc, ◌+◌, ◌-◌, ◌≤◌, ◌≡◌, ◌≢◌, refl, sym, subst, Bool, true, false, ◌||◌, List, [], ◌∷◌,
  ◌++◌, ◌==◌, ltb, if◌then◌else◌, length, rejoin, arith, Bool-cases, inl, inr, ==_iff,
}
use cs.Vm.FileIo.Prefixes.{
  take, byte_at, ends_name, prefixes, printable, byte_at-rejoin, take-rejoin, length-rejoin,
  IsString, c_string-rejoin, name_length, long_name,
}
use cs.Vm.FileIo.{
  Vfs, minus_one, Ending, returned, stopped, invalid, isprint, c_string, scan, file_mkdir_one,
  make_dir, walk, mkdir_recursive, file_mkdir,
}

module _ {World Parent Dentry : Type 0} (k : Vfs World Parent Dentry) (perms : ℕ) where
  -- One call after the other, until one does not return 0; whether all did.
  abbrev pub make_all : List (List ℕ) → World → World × Bool
  make_all [] w = (w, true)
  make_all (p ∷ ps) w =
      let (w1, ret) = file_mkdir_one k p perms w in
      elim (ret == 0) [ true ↦ make_all ps w1 | false ↦ (w1, false) ]

  abbrev pub ended : Bool → World × Bool → Ending World
  ended all_printable (w, made) = elim made [
    | true ↦ returned (k.kfree w) (if all_printable then 0 else minus_one)
    | false ↦ returned (k.kfree w) minus_one
  ]

  -- What is left to be called after a call.
  abbrev then_all : World × Bool → List (List ℕ) → World × Bool
  then_all (w, true) ps = make_all ps w
  then_all (w, false) ps = (w, false)

  then_all-branch :
      (w : World) (b : Bool) (ps : List (List ℕ))
      → (elim b [ true ↦ make_all ps w | false ↦ (w, false) ]) ≡ then_all (w, b) ps
  then_all-branch w true ps = refl
  then_all-branch w false ps = refl

  make_all-next :
      (p : List ℕ) (ps : List (List ℕ)) (w : World)
      → make_all (p ∷ ps) w
        ≡ then_all ((file_mkdir_one k p perms w).0, (file_mkdir_one k p perms w).1 == 0) ps
  make_all-next p ps w =
      then_all-branch (file_mkdir_one k p perms w).0 ((file_mkdir_one k p perms w).1 == 0) ps

  module _ (d : ℕ) (behind cs : List ℕ) (l : length behind ≡ d + name_length behind)
      (at_end : (length behind == length (rejoin behind cs)
          || byte_at (rejoin behind cs) (length behind) == b'/')
        ≡ true) where
    ends_name_lem : ends_name (rejoin behind cs) (length behind) ≡ ltb 1 (name_length behind)
    ends_name_lem = rw at_end (long_name behind cs)

    take_lem : take (length behind) (rejoin behind cs) ≡ rejoin behind []
    take_lem = ground (arith, take-rejoin behind cs 0)

    string_lem :
        (ahead : List ℕ) → IsString behind → c_string (rejoin behind (0 ∷ ahead)) ≡ rejoin behind []
    unfolding c_string
    string_lem ahead h = c_string-rejoin behind (0 ∷ ahead) h

    make_dir_lem :
        (m : ℕ) (ahead : List ℕ) (w : World)
        → IsString behind
        → make_all (prefixes (rejoin behind cs) (length behind) (suc m)) w
          ≡ then_all
              (make_dir k perms d behind (0 ∷ ahead) w)
              (prefixes (rejoin behind cs) (suc (length behind)) m)
    unfolding make_dir prefixes
    make_dir_lem m ahead w h = elim (Bool-cases (ltb 1 (name_length behind))) [
      | inl e ↦
          let e' : ltb 1 (length behind - d) ≡ true = ground (arith, e, l) in
          rw (ends_name_lem, e, e', take_lem, string_lem ahead h)
            (make_all-next (rejoin behind []) (prefixes (rejoin behind cs) (suc (length behind)) m)
              w)
      | inr e ↦
          let e' : ltb 1 (length behind - d) ≡ false = ground (arith, e, l) in
          rw (ends_name_lem, e, e') refl
    ]

  last_name :
      (r : World × Bool)
      → (elim r.1 [ false ↦ returned (k.kfree r.0) minus_one | true ↦ returned (k.kfree r.0) 0 ])
        ≡ ended true (then_all r [])
  last_name (w, true) = refl
  last_name (w, false) = refl

  next_name :
      (r : World × Bool) (rest : World → Ending World) (b : Bool) (ps : List (List ℕ))
      → ((w : World) → rest w ≡ ended b (make_all ps w))
      → (elim r.1 [ false ↦ returned (k.kfree r.0) minus_one | true ↦ rest r.0 ])
        ≡ ended b (then_all r ps)
  next_name (w, true) rest b ps h = h w
  next_name (w, false) rest b ps h = refl

  scan-stop :
      (behind ahead : List ℕ) (c : ℕ)
      → ((c == b'/') || (c == 0)) ≡ true
      → scan behind (c ∷ ahead) ≡ stopped behind (c ∷ ahead)
  unfolding scan
  scan-stop behind ahead c e = rw e refl

  scan-next :
      (behind ahead : List ℕ) (c : ℕ)
      → (c == b'/') ≡ false
      → c ≢ 0
      → isprint c ≡ true
      → scan behind (c ∷ ahead) ≡ scan (c ∷ behind) ahead
  unfolding scan
  scan-next behind ahead c e z p = ground (arith, e, z, p)

  scan-invalid :
      (behind ahead : List ℕ) (c : ℕ)
      → (c == b'/') ≡ false
      → c ≢ 0
      → isprint c ≡ false
      → scan behind (c ∷ ahead) ≡ invalid
  unfolding scan
  scan-invalid behind ahead c e z p = ground (arith, e, z, p)

  prefixes-skip :
      (path : List ℕ) (n m : ℕ)
      → (n == length path || byte_at path n == b'/') ≡ false
      → prefixes path n (suc m) ≡ prefixes path (suc n) m
  unfolding prefixes
  prefixes-skip path n m e = rw e refl

  prefixes-none : (path : List ℕ) (n : ℕ) → prefixes path n 0 ≡ []
  unfolding prefixes
  prefixes-none path n = refl

  in_name :
      (behind cs : List ℕ) (c : ℕ)
      → (c == b'/') ≡ false
      → (length behind == length (rejoin behind (c ∷ cs))
          || byte_at (rejoin behind (c ∷ cs)) (length behind) == b'/')
        ≡ false
  in_name behind cs c e =
      ground (arith, e, length-rejoin behind (c ∷ cs), byte_at-rejoin behind (c ∷ cs) 0)

  -- The loop from a place in a name on.
  abbrev Walks : (turns d : ℕ) (behind cs : List ℕ) (w : World) → Type 0
  Walks turns d behind cs w =
      walk k (suc turns) perms d behind (cs ++ (0 ∷ [])) w
      ≡ ended (printable cs == length cs)
          (make_all (prefixes (rejoin behind cs) (length behind) (suc (printable cs))) w)

  walk-slash :
      (turns d : ℕ) (behind cs : List ℕ) (w : World)
      → length behind ≡ d + name_length behind
      → IsString behind
      → ((w1 : World) → Walks turns (length behind + 1) (b'/' ∷ behind) cs w1)
      → Walks (suc turns) d behind (b'/' ∷ cs) w
  unfolding walk printable
  walk-slash turns d behind cs w l h rest =
      let at_end : (length behind == length (rejoin behind (b'/' ∷ cs))
            || byte_at (rejoin behind (b'/' ∷ cs)) (length behind) == b'/')
          ≡ true =
        ground (arith, length-rejoin behind (b'/' ∷ cs), byte_at-rejoin behind (b'/' ∷ cs) 0) in
      let n : (suc (printable cs) == suc (length cs)) ≡ (printable cs == length cs) =
        ground arith in
      rw
        (
          walk,
          printable,
          scan-stop behind (cs ++ (0 ∷ [])) b'/' refl,
          n,
          make_dir_lem d behind (b'/' ∷ cs) l at_end (suc (printable cs)) (cs ++ (0 ∷ [])) w h,
        )
        (next_name (make_dir k perms d behind (0 ∷ (cs ++ (0 ∷ []))) w)
          (λ w1. walk k (suc turns) perms (length behind + 1) (b'/' ∷ behind) (cs ++ (0 ∷ [])) w1)
          (printable cs == length cs)
          (prefixes (rejoin (b'/' ∷ behind) cs) (suc (length behind)) (suc (printable cs))) rest)

  walk_lem :
      (turns d : ℕ) (behind cs : List ℕ) (w : World)
      → length cs ≤ turns
      → length behind ≡ d + name_length behind
      → IsString behind
      → IsString cs
      → Walks turns d behind cs w
  unfolding walk printable
  walk_lem turns d behind [] w t l h g =
      let at_end : (length behind == length (rejoin behind [])
            || byte_at (rejoin behind []) (length behind) == b'/')
          ≡ true =
        ground (arith, length-rejoin behind []) in
      rw
        (
          walk,
          scan-stop behind [] 0 refl,
          make_dir_lem d behind [] l at_end 0 [] w h,
          prefixes-none (rejoin behind []) (suc (length behind)),
        )
        (last_name (make_dir k perms d behind (0 ∷ []) w))
  walk_lem zero d behind (c ∷ cs) w t l h g = absurd (omega (arith, t))
  walk_lem (suc turns) d behind (c ∷ cs) w t l h g = elim (Bool-cases (c == b'/')) [
    | inl e ↦
        subst (λ (c' : ℕ). Walks (suc turns) d behind (c' ∷ cs) w) (sym ((==_iff c b'/').0 e))
          (walk-slash turns d behind cs w l h (λ w1.
            walk_lem turns (length behind + 1) (b'/' ∷ behind) cs w1 (omega (arith, t))
              (omega arith) ((λ z. omega (arith, z)), h) g.1))
    | inr e ↦ elim (Bool-cases (isprint c)) [
      | inl p ↦
          let n : (suc (printable cs) == suc (length cs)) ≡ (printable cs == length cs) =
            ground arith in
          rw
            (
              walk,
              printable,
              scan-next behind (cs ++ (0 ∷ [])) c e g.0 p,
              p,
              n,
              prefixes-skip (rejoin behind (c ∷ cs)) (length behind) (suc (printable cs))
                  (in_name behind cs c e),
            )
            (walk_lem (suc turns) d (c ∷ behind) cs w (omega (arith, t)) (rw e (omega (arith, l)))
              (g.0, h) g.1)
      | inr p ↦
          let n : (0 == suc (length cs)) ≡ false = ground arith in
          rw
            (
              walk,
              printable,
              scan-invalid behind (cs ++ (0 ∷ [])) c e g.0 p,
              p,
              n,
              prefixes-skip (rejoin behind (c ∷ cs)) (length behind) 0 (in_name behind cs c e),
              prefixes-none (rejoin behind (c ∷ cs)) (suc (length behind)),
            )
            refl
    ]
  ]

-- `mkdir_recursive` of a path, and so `file_mkdir` with `recurse`, ends without an access outside of its copy.
-- It calls `file_mkdir` on the parts of the path that end with a name of at least two bytes, before
-- a slash or at the end of the path and before the first byte that is not printable, in their order
-- until one call does not return 0. It returns 0 if all did and every byte is printable, and else,
-- or where the copy cannot be allocated, -1. The copy is freed.
pub file_mkdir-prefixes :
    {World Parent Dentry : Type 0} (k : Vfs World Parent Dentry) (path : List ℕ) (perms recurse : ℕ)
    (w : World)
    → IsString path
    → recurse ≢ 0
    → file_mkdir k path perms recurse w ≡ (
        let (w1, allocated) = k.kmalloc (length path + 1) w in
        if allocated
        then ended k perms
            (printable path == length path)
            (make_all k perms (prefixes path 0 (suc (printable path))) w1)
        else returned w1 minus_one)
unfolding file_mkdir mkdir_recursive
file_mkdir-prefixes k path perms recurse w h z =
    let n : (recurse == 0) ≡ false = ground (arith, z) in
    let loop : (w1 : _)
        → walk k (length path + 1) perms 0 [] (path ++ (0 ∷ [])) w1
          ≡ ended k perms (printable path == length path)
              (make_all k perms (prefixes path 0 (suc (printable path))) w1) =
      λ w1.
        subst
          (λ (t : ℕ).
            walk k t perms 0 [] (path ++ (0 ∷ [])) w1
            ≡ ended k perms (printable path == length path)
                (make_all k perms (prefixes path 0 (suc (printable path))) w1))
          (omega arith)
          (walk_lem k perms (length path) 0 [] path w1 (omega arith) (omega arith) tt h) in
    rw (n, loop (k.kmalloc (length path + 1) w).0) refl
