-- ===== src/Vm/FileIo/Prefixes.antt =====
-- The parts of a path that mkdir_recursive of VMproject/file_io.c hands to file_mkdir, and the buffer in
-- which it cuts them off.
use cs.Prelude.{
  ℕ, zero, suc, ◌+◌, ◌-◌, ◌≡◌, ◌≢◌, refl, ◌∙◌, ap, Bool, not, ◌||◌, ◌&&◌, List, [], ◌∷◌, ◌==◌, ltb,
  leb, if◌then◌else◌, length, rejoin, All, arith,
}
use cs.Vm.FileIo.{isprint, c_string}

abbrev pub take : ℕ → List ℕ → List ℕ
take zero cs = []
take (suc n) [] = []
take (suc n) (c ∷ cs) = c ∷ take n cs

abbrev pub byte_at : List ℕ → ℕ → ℕ
byte_at [] n = 0
byte_at (c ∷ cs) zero = c
byte_at (c ∷ cs) (suc n) = byte_at cs n

-- Whether a name of at least two bytes ends before the position `n` of a path.
abbrev pub ends_name : List ℕ → ℕ → Bool
ends_name path n =
    (n == length path || byte_at path n == b'/')
    && (leb 2 n && (not (byte_at path (n - 1) == b'/') && not (byte_at path (n - 2) == b'/')))

-- The parts of a path up to such an end, from the position `n` on, at `m` positions.
unfoldable pub prefixes : List ℕ → ℕ → ℕ → List (List ℕ)
prefixes path n zero = []
prefixes path n (suc m) =
    let rest = prefixes path (suc n) m in if ends_name path n then take n path ∷ rest else rest

-- How many bytes stand before the first that is not printable.
unfoldable pub printable : List ℕ → ℕ
printable [] = 0
printable (c ∷ cs) = let rest = printable cs in if isprint c then suc rest else 0

pub byte_at-rejoin :
    (behind cs : List ℕ) (m : ℕ) → byte_at (rejoin behind cs) (length behind + m) ≡ byte_at cs m
byte_at-rejoin [] cs m = ground arith
byte_at-rejoin (c ∷ behind) cs m = ground (arith, byte_at-rejoin behind (c ∷ cs) (suc m))

pub take-rejoin :
    (behind cs : List ℕ) (m : ℕ)
    → take (length behind + m) (rejoin behind cs) ≡ rejoin behind (take m cs)
take-rejoin [] cs m = ground arith
take-rejoin (c ∷ behind) cs m = ground (arith, take-rejoin behind (c ∷ cs) (suc m))

pub length-rejoin : (behind cs : List ℕ) → length (rejoin behind cs) ≡ length behind + length cs
length-rejoin [] cs = omega arith
length-rejoin (c ∷ behind) cs = omega (arith, length-rejoin behind (c ∷ cs))

abbrev pub IsString : List ℕ → Type 0
IsString = All (λ c. c ≢ 0)

pub c_string-rejoin :
    (behind cs : List ℕ)
    → IsString behind
    → c_string (rejoin behind cs) ≡ rejoin behind (c_string cs)
unfolding c_string
c_string-rejoin [] cs h = refl
c_string-rejoin (c ∷ behind) cs h =
    c_string-rejoin behind (c ∷ cs) h.1 ∙ ap (rejoin behind) (ground (arith, h.0))

-- The length of the name before a position.
abbrev pub name_length : List ℕ → ℕ
name_length [] = 0
name_length (c ∷ cs) = let rest = name_length cs in if c == b'/' then 0 else suc rest

pub long_name :
    (behind cs : List ℕ)
    → (leb 2 (length behind)
        && (not (byte_at (rejoin behind cs) (length behind - 1) == b'/')
            && not (byte_at (rejoin behind cs) (length behind - 2) == b'/')))
      ≡ ltb 1 (name_length behind)
long_name [] cs = refl
long_name (a ∷ []) cs = ground arith
long_name (a ∷ b ∷ behind) cs =
    ground (arith, byte_at-rejoin behind (b ∷ a ∷ cs) 0, byte_at-rejoin behind (b ∷ a ∷ cs) 1)
