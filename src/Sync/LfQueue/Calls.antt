-- ===== src/Sync/LfQueue/Calls.antt =====
-- The nodes that the calls of `lf_enqueue` of SyncProject/locking.c make, those that they link, and
-- the chain that links make.
use cs.Prelude.{
  ℕ, ◌+◌, ◌<◌, ◌≡◌, ◌≢◌, ◌∙◌, false, List, [], ◌∷◌, ◌++◌, ◌==◌, if◌then◌else◌, one_if, Bool-cases,
  inl, inr, arith,
}
use cs.Sync.LfQueue.{LfQueue, update, Pc, outside, enq_link, Choice, enqueues, System, step}

abbrev pub count : ℕ → List ℕ → ℕ
count x [] = 0
count x (y ∷ ys) = one_if (y == x) + count x ys

-- How often a node was made.
abbrev pub made : ℕ → List (ℕ × ℕ) → ℕ
made x [] = 0
made x ((q, val) ∷ c) = one_if (q == x) + made x c

-- The node and the value of a call of `lf_enqueue` that a step begins.
abbrev pub begun : Pc → Choice → List (ℕ × ℕ)
begun outside (enqueues q val) = (q, val) ∷ []
begun p c = []

-- The node that a step links behind a node without a next one.
abbrev pub linked : LfQueue → Pc → List ℕ
linked m (enq_link q p) = if m.next p == 0 then q ∷ [] else []
linked m p = []

-- All of a schedule, in order.
abbrev pub calls : List (ℕ × Choice) → System → List (ℕ × ℕ)
calls [] s = []
calls ((i, c) ∷ cs) s = begun (s.pc i) c ++ calls cs (step (i, c) s)

abbrev pub links : List (ℕ × Choice) → System → List ℕ
links [] s = []
links ((i, c) ∷ cs) s = linked s.mem (s.pc i) ++ links cs (step (i, c) s)

-- The nodes that are reached from a node, in order.
abbrev pub Chain : (ℕ → ℕ) → ℕ → List ℕ → Type 0
Chain next p [] = next p ≡ 0
Chain next p (q ∷ qs) = (next p ≡ q) × (q ≢ 0) × Chain next q qs

pub count-append : (x : ℕ) (xs ys : List ℕ) → count x (xs ++ ys) ≡ count x xs + count x ys
count-append x [] ys = omega arith
count-append x (y ∷ xs) ys = omega (arith, count-append x xs ys)

pub made-append : (x : ℕ) (c d : List (ℕ × ℕ)) → made x (c ++ d) ≡ made x c + made x d
made-append x [] d = omega arith
made-append x (y ∷ c) d = omega (arith, made-append x c d)

-- What is behind a node of the chain.
pub Chain-next :
    (next : ℕ → ℕ) (p x : ℕ) (qs : List ℕ)
    → Chain next p qs
    → 0 < count x (p ∷ qs)
    → next x ≢ 0
    → 0 < count (next x) qs
Chain-next next p x [] h m n = ground (arith, h, m, n)
Chain-next next p x (q ∷ qs) h m n = elim (Bool-cases (p == x)) [
  | inl e ↦ ground (arith, h.0, e)
  | inr e ↦ let r = Chain-next next q x qs h.2 (ground (arith, e, m)) n in ground (arith, r)
]

-- A chain depends on the links of its nodes only.
pub Chain-same :
    (next next' : ℕ → ℕ) (p : ℕ) (qs : List ℕ)
    → ((x : ℕ) → 0 < count x (p ∷ qs) → next' x ≡ next x)
    → Chain next p qs
    → Chain next' p qs
Chain-same next next' p [] s h = s p (ground arith) ∙ h
Chain-same next next' p (q ∷ qs) s h =
    (s p (ground arith) ∙ h.0, h.1, Chain-same next next' q qs (λ x l. s x (ground (arith, l))) h.2)

-- Linking a new node behind the last one.
pub Chain-link :
    (next : ℕ → ℕ) (p x q : ℕ) (qs : List ℕ)
    → Chain next p qs
    → 0 < count x (p ∷ qs)
    → next x ≡ 0
    → count q (p ∷ qs) ≡ 0
    → next q ≡ 0
    → q ≢ 0
    → Chain (update next x q) p (qs ++ q ∷ [])
Chain-link next p x q [] h m e n z l = (ground (arith, m), l, ground (arith, m, n, z))
Chain-link next p x q (r ∷ qs) h m e n z l =
    let d : (x == p) ≡ false = ground (arith, e, h) in
    (
      ground (arith, d, h),
      h.1,
      Chain-link next r x q qs h.2 (ground (arith, d, m)) e (ground (arith, n)) z l,
    )
