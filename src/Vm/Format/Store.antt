-- ===== src/Vm/Format/Store.antt =====
-- The stores of VMproject/on_demand.c to entries, as stores of words.
use cs.Prelude.{
  ℕ, ◌%◌, ◌^◌, ◌≡◌, refl, sym, ◌∙◌, ap, true, false, if◌then◌else◌, ◌==◌, Bool-cases, inl, inr,
  List, arith,
}
use cs.Vm.PageTable.{page_to_base_addr, Entry, Kernel, store, fill, clear_accessed}
use cs.Vm.Release.{absent}
use cs.Vm.Format.{Field, present, writable, user_page, accessed, tag, get, set}
use cs.Vm.Format.Fields.{get-set, get-set_other}
use cs.Vm.Format.View.{
  Level, layout_of, base_of, entry_of, bits_entry, point_to, entry_of-bits, entry_of-point_to,
  base_apart,
}

-- `e->present = 0`
abbrev pub clear : Level → Field → ℕ → ℕ
clear v f w = set (layout_of v) f 0 w

entry_of-absent :
    (v : Level) (w : ℕ) → entry_of v (clear v present w) ≡ record (entry_of v w) { present = false }
unfolding tag
entry_of-absent v w =
    let l = layout_of v in
    let b = base_of v in
    let p : get l present (set l present 0 w) ≡ 0 = get-set l present 0 w ∙ omega arith in
    let q = get-set_other l present writable 0 w (λ e. omega (arith, e)) in
    let r = get-set_other l present user_page 0 w (λ e. omega (arith, e)) in
    let a = get-set_other l present accessed 0 w (λ e. omega (arith, e)) in
    let c = get-set_other l present b 0 w (λ e. base_apart v 0 (omega arith) (sym e)) in
    rw (p, q, r, a, c) refl

entry_of-unaccessed :
    (v : Level) (w : ℕ)
    → entry_of v (clear v accessed w) ≡ record (entry_of v w) { accessed = false }
unfolding tag
entry_of-unaccessed v w =
    let l = layout_of v in
    let b = base_of v in
    let a : get l accessed (set l accessed 0 w) ≡ 0 = get-set l accessed 0 w ∙ omega arith in
    let p = get-set_other l accessed present 0 w (λ e. omega (arith, e)) in
    let q = get-set_other l accessed writable 0 w (λ e. omega (arith, e)) in
    let r = get-set_other l accessed user_page 0 w (λ e. omega (arith, e)) in
    let c = get-set_other l accessed b 0 w (λ e. base_apart v 5 (omega arith) (sym e)) in
    rw (p, q, r, a, c) refl

-- Words by their address, and a store of one.
abbrev pub store_word : (ℕ → ℕ) → ℕ → ℕ → ℕ → ℕ
store_word words slot w a = if slot == a then w else words a

-- The entries that the words are.
abbrev pub entries : (ℕ → ℕ) → ℕ → Entry
entries words a = bits_entry (words a)

stored :
    (words : ℕ → ℕ) (slot w : ℕ) (e : Entry)
    → bits_entry w ≡ e
    → (a : ℕ) → store (entries words) slot e a ≡ entries (store_word words slot w) a
unfolding store
stored words slot w e h a = elim (Bool-cases (slot == a)) [
  | inl i ↦ rw i (sym h)
  | inr i ↦ rw i refl
]

-- On the words of the page tables, of whichever level, each store of an entry is a store of the word
-- that the assignments to its bit fields make: the entry of a new page, the clearing of the accessed
-- bit, and the clearing of the present bit.
pub store-fields :
    (k : Kernel) (v : Level) (slot page : ℕ) (words : ℕ → ℕ) (pages : List ℕ) (a : ℕ)
    → ((fill k slot page (record { mem = entries words; pages = pages })).mem a
        ≡ entries (store_word words slot (point_to v (k.pa page) (words slot))) a)
      × ((clear_accessed slot (record { mem = entries words; pages = pages })).mem a
          ≡ entries (store_word words slot (clear v accessed (words slot))) a)
      × (absent (entries words) slot a
          ≡ entries (store_word words slot (clear v present (words slot))) a)
unfolding fill clear_accessed store
store-fields k v slot page words pages a =
    let w = words slot in
    let back = entry_of-bits v w in
    (
      stored words slot _ _
          (sym (entry_of-bits v (point_to v (k.pa page) w))
            ∙ entry_of-point_to v (k.pa page) w
            ∙ ap {A = Entry}
                (λ e. record e {
                  present = true;
                  writable = true;
                  user_page = true;
                  base_addr = page_to_base_addr (k.pa page) % 2 ^ 40;
                })
                back)
          a,
      stored words slot _ _
          (sym (entry_of-bits v (clear v accessed w))
            ∙ entry_of-unaccessed v w
            ∙ ap {A = Entry} (λ e. record e { accessed = false }) back)
          a,
      stored words slot _ _
          (sym (entry_of-bits v (clear v present w))
            ∙ entry_of-absent v w
            ∙ ap {A = Entry} (λ e. record e { present = false }) back)
          a,
    )
