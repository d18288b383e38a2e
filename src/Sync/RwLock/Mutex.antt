-- ===== src/Sync/RwLock/Mutex.antt =====
-- The mutex of the reader-writer lock of SyncProject/locking.c while no reader unlocks the lock.
use cs.Prelude.{
  ℕ, ◌+◌, ◌^◌, ◌≤◌, ◌<◌, ◌≡◌, ◌≢◌, refl, sym, ◌∙◌, ap, Bool, true, false, ◌||◌, ◌==◌, leb,
  Bool-cases, inl, inr, arith,
}
use cs.Sync.RwLock.{
  ReadWriteLock, Side, reader, writer, Pc, outside, calling, locking, await_writer, load_readers,
  store_readers, test_writer, test_readers, set_writer, releasing, unlocking, reading, writing,
  System, move, step, start, rw_lock_init, load, store,
}
use cs.Sync.RwLock.Flags.{holds}

load-store : (bytes : ℕ → ℕ) (a w : ℕ) → w < 2 ^ 32 → load (store bytes a w) a ≡ w
unfolding load store
load-store bytes a w h = ground (arith, h)

load-store_apart :
    (bytes : ℕ → ℕ) (a b w : ℕ)
    → (leb (a + 4) b || leb (b + 4) a) ≡ true
    → load (store bytes b w) a ≡ load bytes a
unfolding load store
load-store_apart bytes a b w h = ground (arith, h)

-- The pointer to the mutex that a thread has loaded, or else the one given.
abbrev pointer : ℕ → Pc → ℕ
pointer d (locking s m) = m
pointer d (unlocking s m) = m
pointer d p = d

-- What a move does to the word of the mutex, and to whether the thread that moves holds it.
data Change (word word' : ℕ) (h h' : Bool) : Type 0 where
  same : word' ≡ word → h' ≡ h → Change word word' h h'
  acquired : word ≡ 1 → word' ≡ 0 → Change word word' h h'
  released : word' ≡ 1 → h ≡ true → h' ≡ false → Change word word' h h'

move-Change :
    (side : Side) (lock : ReadWriteLock) (bytes : ℕ → ℕ) (p : Pc) (a : ℕ)
    → lock.mutex ≡ a
    → pointer a p ≡ a
    → p ≢ reading
    → load bytes a ≤ 1
    → ((move side lock bytes p).0.mutex ≡ a)
      × (pointer a (move side lock bytes p).2 ≡ a)
      × Change
          (load bytes a)
          (load (move side lock bytes p).1 a)
          (holds p)
          (holds (move side lock bytes p).2)
unfolding move
move-Change side lock bytes outside a m e r w = (m, refl, same refl refl)
move-Change side lock bytes (calling s) a m e r w = (m, m, same refl refl)
move-Change side lock bytes (locking reader k) a m e r w =
    let v : load bytes k ≡ load bytes a = ap (load bytes) e in
    let ls : load (store bytes k (load bytes k)) a ≡ load bytes k =
      ap (load (store bytes k (load bytes k))) (sym e)
      ∙ load-store bytes k (load bytes k) (omega (arith, v, w)) in
    let lz : load (store bytes k 0) a ≡ 0 =
      ap (load (store bytes k 0)) (sym e) ∙ load-store bytes k 0 (omega arith) in
    elim (Bool-cases (load bytes k == 0)) [
      | inl z ↦ (m, ground (arith, e, z), same (ground (arith, z, v, ls)) (ground (arith, z)))
      | inr z ↦ (
        m,
        ground (arith, e, z),
        acquired (ground (arith, z, v, w)) (ground (arith, z, v, w, lz)),
      )
    ]
move-Change side lock bytes (locking writer k) a m e r w =
    let v : load bytes k ≡ load bytes a = ap (load bytes) e in
    let ls : load (store bytes k (load bytes k)) a ≡ load bytes k =
      ap (load (store bytes k (load bytes k))) (sym e)
      ∙ load-store bytes k (load bytes k) (omega (arith, v, w)) in
    let lz : load (store bytes k 0) a ≡ 0 =
      ap (load (store bytes k 0)) (sym e) ∙ load-store bytes k 0 (omega arith) in
    elim (Bool-cases (load bytes k == 0)) [
      | inl z ↦ (m, ground (arith, e, z), same (ground (arith, z, v, ls)) (ground (arith, z)))
      | inr z ↦ (
        m,
        ground (arith, e, z),
        acquired (ground (arith, z, v, w)) (ground (arith, z, v, w, lz)),
      )
    ]
move-Change side lock bytes await_writer a m e r w = (m, ground arith, same refl (ground arith))
move-Change side lock bytes load_readers a m e r w = (m, refl, same refl refl)
move-Change side lock bytes (store_readers old) a m e r w = (m, refl, same refl refl)
move-Change side lock bytes test_writer a m e r w = (m, ground arith, same refl (ground arith))
move-Change side lock bytes test_readers a m e r w = (m, ground arith, same refl (ground arith))
move-Change side lock bytes set_writer a m e r w = (m, refl, same refl refl)
move-Change side lock bytes (releasing s) a m e r w = (m, m, same refl refl)
move-Change side lock bytes (unlocking reader k) a m e r w = (
  m,
  refl,
  released (ap (load (store bytes k 1)) (sym e) ∙ load-store bytes k 1 (omega arith)) refl refl,
)
move-Change side lock bytes (unlocking writer k) a m e r w = (
  m,
  refl,
  released (ap (load (store bytes k 1)) (sym e) ∙ load-store bytes k 1 (omega arith)) refl refl,
)
move-Change side lock bytes reading a m e r w = absurd (r refl)
move-Change side lock bytes writing a m e r w = (m, refl, same refl refl)

-- What holds of the mutex that lies at `a`.
pub record Mutual (a : ℕ) (s : System) : Type 0 where
  pub mutex : s.lock.mutex ≡ a
  pub pointers : (i : ℕ) → pointer a (s.pc i) ≡ a
  pub word : load s.bytes a ≤ 1
  pub free : load s.bytes a ≡ 1 → (i : ℕ) → holds (s.pc i) ≡ false
  pub single : (i j : ℕ) → (i == j) ≡ false → holds (s.pc i) ≡ true → holds (s.pc j) ≡ false

pub step-Mutual :
    (a i : ℕ) (side : Side) (s : System) → s.pc i ≢ reading → Mutual a s → Mutual a (step i side s)
unfolding step
step-Mutual a i side s r v =
    let (m, p, c) = move-Change side s.lock s.bytes (s.pc i) a v.mutex (v.pointers i) r v.word in
    record {
      mutex = m;
      pointers = λ j. elim (Bool-cases (i == j)) [ inl e ↦ rw e p | inr e ↦ rw e (v.pointers j) ];
      word = elim c [
        | same w h ↦ omega (arith, w, v.word)
        | acquired w w' ↦ omega (arith, w')
        | released w h h' ↦ omega (arith, w)
      ];
      free = elim c [
        | same w h ↦ λ e j. ground (arith, h, v.free (sym w ∙ e) j, v.free (sym w ∙ e) i)
        | acquired w w' ↦ λ e j. absurd (omega (arith, e, w'))
        | released w h h' ↦ λ e j. ground (arith, h, h', v.single i j)
      ];
      single = elim c [
        | same w h ↦ λ x y e. ground (arith, e, h, v.single x y, v.single i y, v.single x i)
        | acquired w w' ↦ λ x y e. ground (arith, e, v.free w x, v.free w y)
        | released w h h' ↦
            λ x y e. ground (arith, e, h, h', v.single x y, v.single i y, v.single x i)
      ];
    }

pub start-Mutual :
    (sl0 sl1 : ℕ) (bytes : ℕ → ℕ)
    → (leb (sl0 + 4) sl1 || leb (sl1 + 4) sl0) ≡ true
    → Mutual sl0 (start sl0 sl1 bytes)
unfolding start rw_lock_init
start-Mutual sl0 sl1 bytes h =
    let w : load (store (store bytes sl0 1) sl1 1) sl0 ≡ 1 =
      load-store_apart (store bytes sl0 1) sl0 sl1 1 h ∙ load-store bytes sl0 1 (omega arith) in
    record {
      mutex = refl;
      pointers = λ _. refl;
      word = omega (arith, w);
      free = λ _ _. refl;
      single = λ _ _ _ e. ground (arith, e);
    }
