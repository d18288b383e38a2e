-- ===== src/Vm/Format/Fields.antt =====
-- The laws of the bit fields of VMproject/pgtables.h.
use native.Mathlib.Nat.{
  mod-lt, mod-add-div', add-mul-mod_self_right, add-mul-div_right, div-eq_of_lt, div-lt_iff_lt-mul,
  mod-mod, two-pow-succ,
}
use cs.Prelude.{
  ℕ, zero, suc, ◌+◌, ◌*◌, ◌/◌, ◌%◌, ◌^◌, ◌<◌, ◌≡◌, ◌≢◌, refl, ◌∙◌, ap, Bool-cases, inl, inr, [],
  ◌∷◌, arith,
}
use cs.Vm.Format.{Field, Layout, tag, same, total, width, get, set}

two_pow_pos : (n : ℕ) → 0 < 2 ^ n
two_pow_pos zero = omega arith
two_pow_pos (suc n) = let r = two_pow_pos n in omega (arith, r)

-- The low part of a word that is put together from two, and its high part.
low_part : (a q n : ℕ) → (a % 2 ^ n + q * 2 ^ n) % 2 ^ n ≡ a % 2 ^ n
low_part a q n = add-mul-mod_self_right (a % 2 ^ n) q (2 ^ n) ∙ mod-mod a (2 ^ n)

high_part : (a q n : ℕ) → (a % 2 ^ n + q * 2 ^ n) / 2 ^ n ≡ q
high_part a q n =
    let p = two_pow_pos n in
    let d = div-eq_of_lt (mod-lt a p) in
    let r = add-mul-div_right (a % 2 ^ n) q p in omega (arith, r, d)

-- A field that was set reads as the low bits of the value, as many as the field has.
pub get-set : (l : Layout) (f : Field) (v w : ℕ) → get l f (set l f v w) ≡ v % 2 ^ width l f
unfolding get set width
get-set [] f v w = omega arith
get-set ((g, n) ∷ l) f v w = elim (Bool-cases (same g f)) [
  | inl e ↦ rw e (low_part v (w / 2 ^ n) n)
  | inr e ↦ rw e (ap (get l f) (high_part w (set l f v (w / 2 ^ n)) n) ∙ get-set l f v (w / 2 ^ n))
]

-- Setting a field leaves the others.
pub get-set_other :
    (l : Layout) (f g : Field) (v w : ℕ) → tag g ≢ tag f → get l g (set l f v w) ≡ get l g w
unfolding get set
get-set_other [] f g v w h = refl
get-set_other ((k, n) ∷ l) f g v w h =
    let r = get-set_other l f g v (w / 2 ^ n) h in
    let a = ap (get l g) (high_part v (w / 2 ^ n) n) in
    let b = low_part w (set l f v (w / 2 ^ n)) n in
    let c = ap (get l g) (high_part w (set l f v (w / 2 ^ n)) n) in ground (arith, r, a, b, c, h)

-- A field that is set to what it has changes nothing.
pub set-get : (l : Layout) (f : Field) (w : ℕ) → set l f (get l f w) w ≡ w
unfolding get set
set-get [] f w = refl
set-get ((g, n) ∷ l) f w = elim (Bool-cases (same g f)) [
  | inl e ↦ rw e (ap (λ z. z + w / 2 ^ n * 2 ^ n) (mod-mod w (2 ^ n)) ∙ mod-add-div' w (2 ^ n))
  | inr e ↦
      rw e (ap (λ z. w % 2 ^ n + z * 2 ^ n) (set-get l f (w / 2 ^ n)) ∙ mod-add-div' w (2 ^ n))
]

two_pow-add : (n m : ℕ) → 2 ^ (n + m) ≡ 2 ^ m * 2 ^ n
two_pow-add zero m = let e : 0 + m ≡ m = omega arith in omega (arith, ap (λ z. 2 ^ z) e)
two_pow-add (suc n) m =
    let e : suc n + m ≡ suc (n + m) = omega arith in
    let p = ap (λ z. 2 ^ z) e ∙ two-pow-succ (n + m) in
    let q = two-pow-succ n in let r = two_pow-add n m in grind (arith, p, q, r)

joined_lt : (a q n m : ℕ) → q < 2 ^ m → a % 2 ^ n + q * 2 ^ n < 2 ^ (n + m)
joined_lt a q n m h =
    let l = mod-lt a (two_pow_pos n) in let e = two_pow-add n m in grind (arith, h, l, e)

rest_lt : (w n m : ℕ) → w < 2 ^ (n + m) → w / 2 ^ n < 2 ^ m
rest_lt w n m h =
    let e = two_pow-add n m in (div-lt_iff_lt-mul (two_pow_pos n)).1 (omega (arith, h, e))

-- A word of a structure stays within its bits.
set-lt : (l : Layout) (f : Field) (v w : ℕ) → w < 2 ^ total l → set l f v w < 2 ^ total l
unfolding set total
set-lt [] f v w h = h
set-lt ((g, n) ∷ l) f v w h = elim (Bool-cases (same g f)) [
  | inl e ↦ rw e (joined_lt v (w / 2 ^ n) n (total l) (rest_lt w n (total l) h))
  | inr e ↦ rw e (
      joined_lt w (set l f v (w / 2 ^ n)) n (total l)
        (set-lt l f v (w / 2 ^ n) (rest_lt w n (total l) h)))
]
