-- ===== src/Tool/BlockMap/Laws.antt =====
-- The bitmap of VMproject/user/petmem.c as a set of blocks.
use cs.Prelude.{
  ℕ, zero, suc, ◌+◌, ◌*◌, ◌/◌, ◌%◌, ◌<◌, ◌≡◌, refl, ap, ◌∙◌, Bool, true, false, some, ◌==◌,
  if◌then◌else◌, arith,
}
use cs.Tool.BlockMap.{has_bit, with_bit, without_bit, Bitmap, cleared, test, mark, unmark, store}

half_of : (x b : ℕ) → (x * 2 + b % 2) / 2 ≡ x
half_of x b = omega arith

half_set : (b : ℕ) → (b / 2 * 2 + 1) / 2 ≡ b / 2
half_set b = omega arith

half_clear : (b : ℕ) → b / 2 * 2 / 2 ≡ b / 2
half_clear b = omega arith

pub has_bit-with_bit :
    (byte m k : ℕ) → has_bit (with_bit byte m) k ≡ (if m == k then true else has_bit byte k)
unfolding has_bit with_bit
has_bit-with_bit byte zero zero = ground arith
has_bit-with_bit byte zero (suc k) = ap (λ b. has_bit b k) (half_set byte) ∙ ground arith
has_bit-with_bit byte (suc m) zero = ground arith
has_bit-with_bit byte (suc m) (suc k) =
    ap (λ b. has_bit b k) (half_of (with_bit (byte / 2) m) byte)
    ∙ has_bit-with_bit (byte / 2) m k
    ∙ ground arith

pub has_bit-without_bit :
    (byte m k : ℕ) → has_bit (without_bit byte m) k ≡ (if m == k then false else has_bit byte k)
unfolding has_bit without_bit
has_bit-without_bit byte zero zero = ground arith
has_bit-without_bit byte zero (suc k) = ap (λ b. has_bit b k) (half_clear byte) ∙ ground arith
has_bit-without_bit byte (suc m) zero = ground arith
has_bit-without_bit byte (suc m) (suc k) =
    ap (λ b. has_bit b k) (half_of (without_bit (byte / 2) m) byte)
    ∙ has_bit-without_bit (byte / 2) m k
    ∙ ground arith

-- Whether block `i` is marked; `false` out of the bitmap.
abbrev pub marked : Bitmap → ℕ → Bool
marked bitmap i = has_bit (bitmap.bytes (i / 8)) (i % 8)

abbrev pub Holds : Bitmap → ℕ → Type 0
Holds bitmap i = i / 8 < bitmap.size

pub cleared-Holds : (n i : ℕ) → i < n → Holds (cleared n) i
unfolding cleared
cleared-Holds n i l = ground arith

zero-has_bit : (m : ℕ) → has_bit 0 m ≡ false
unfolding has_bit
zero-has_bit zero = refl
zero-has_bit (suc m) = zero-has_bit m

pub cleared-marked : (n i : ℕ) → marked (cleared n) i ≡ false
unfolding cleared
cleared-marked n i = zero-has_bit (i % 8)

pub test-marked :
    (bitmap : Bitmap) (i : ℕ) → Holds bitmap i → test bitmap i ≡ some (marked bitmap i)
unfolding test
test-marked bitmap i l = ground (arith, l)

-- What a mark does: the size stays, block `i` is marked and no other changes.
pub record Marks (b : Bool) (i : ℕ) (bitmap bitmap' : Bitmap) : Type 0 where
  pub same_size : bitmap'.size ≡ bitmap.size
  pub changes : (k : ℕ) → marked bitmap' k ≡ (if i == k then b else marked bitmap k)

store-Marks :
    (b : Bool) (i : ℕ) (bitmap : Bitmap) (byte : ℕ)
    → ((m : ℕ) → has_bit byte m ≡ (if i % 8 == m then b else has_bit (bitmap.bytes (i / 8)) m))
    → Holds bitmap i
    → (bitmap' : Bitmap) × (store bitmap (i / 8) byte ≡ some bitmap') × Marks b i bitmap bitmap'
store-Marks b i bitmap byte h l = (
  record bitmap { bytes = λ k. if k == i / 8 then byte else bitmap.bytes k },
  ground (arith, l),
  record { same_size = refl; changes = λ k. ground (arith, h (k % 8)) },
)

pub mark-Marks :
    (bitmap : Bitmap) (i : ℕ)
    → Holds bitmap i
    → (bitmap' : Bitmap) × (mark bitmap i ≡ some bitmap') × Marks true i bitmap bitmap'
unfolding mark
mark-Marks bitmap i l =
    let old = bitmap.bytes (i / 8) in
    store-Marks true i bitmap (with_bit old (i % 8)) (has_bit-with_bit old (i % 8)) l

pub unmark-Marks :
    (bitmap : Bitmap) (i : ℕ)
    → Holds bitmap i
    → (bitmap' : Bitmap) × (unmark bitmap i ≡ some bitmap') × Marks false i bitmap bitmap'
unfolding unmark
unmark-Marks bitmap i l =
    let old = bitmap.bytes (i / 8) in
    store-Marks false i bitmap (without_bit old (i % 8)) (has_bit-without_bit old (i % 8)) l
