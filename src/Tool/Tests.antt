-- ===== src/Tool/Tests.antt =====
-- A run of VMproject/user/petmem.c on a machine with seven blocks, and its theorems there.
use cs.Prelude.{
  ℕ, ◌<◌, ◌≡◌, refl, Bool, false, not, Option, some, List, [], ◌∷◌, ◌==◌, if◌then◌else◌, arith, inl,
  u32, u64,
}
use cs.Prelude.Total.{total}
use cs.Tool.{
  Sysfs, Progress, goes, MemoryRange, petmem, read_blocks, count_blocks, mark_removable, find_run,
  set_range, check_offline, offline_run, search_turn, search_loop, range_of,
}
use cs.Tool.BlockMap.{Bitmap, cleared, mark, unmark, test, has_bit, with_bit, without_bit}
use cs.Tool.BlockMap.Laws.{marked, Holds}
use cs.Tool.Scan.{Found, find_run-Found}
use cs.Tool.Retry.{Ended, search_loop-Ended}
use cs.Tool.Main.{Handed, petmem-Handed}

-- Block 1 is not removable, and block 3 stays online whatever is written. A machine is which of its
-- blocks are offline.
abbrev seven : Sysfs (ℕ → Bool)
seven = record {
  removable = λ w n. some (if n == 1 then 0 else 1);
  set_online = λ w n b. some (λ k. if n == k then (if n == 3 then false else not b) else w k);
  is_offline = λ w n. some (w n);
}

abbrev names : List ℕ
names = 0 ∷ 1 ∷ 2 ∷ 3 ∷ 4 ∷ 5 ∷ 6 ∷ []

abbrev is_range : Option (Progress MemoryRange) → ℕ × ℕ
is_range (some (goes r)) = (r.base_addr, r.pages)
is_range _ = (0, 0)

-- 200 MB in blocks of 128 MB: the run at block 2 fails, the one at block 4 is taken.
two_blocks :
    is_range (petmem seven 8 (λ _. false) 0xc800000 0x8000000 names) ≡ (0x20000000, 0x10000)
unfolding petmem read_blocks count_blocks mark_removable find_run set_range check_offline
    offline_run search_turn search_loop range_of cleared mark unmark test has_bit with_bit
    without_bit u32 u64
two_blocks = refl

petmem-Handed_example :
    (o : Progress MemoryRange) × (petmem seven 8 (λ _. false) 0xc800000 0x8000000 names ≡ some o)
    × Handed seven (λ _. false) 0xc800000 0x8000000 6 o
petmem-Handed_example =
    petmem-Handed seven (λ _. false) 0xc800000 0x8000000 6 names
      (
        omega arith,
        (
          omega arith,
          (omega arith, (omega arith, (omega arith, (omega arith, (omega arith, refl))))),
        ),
      )
      (omega arith) (omega arith) (omega arith) (omega arith) (omega arith)

-- Blocks 0, 2 and 3 of four.
abbrev four : Bitmap
four = record { size = 1; bytes = λ _. 13 }

four-Holds : (i : ℕ) → i < 4 → Holds four i
four-Holds i l = omega (arith, l)

find_run-Found_example : (r : ℕ × ℕ) × (find_run four 2 4 0 0 0 ≡ goes r) × Found four 2 4 r
find_run-Found_example = find_run-Found four 2 4 (omega arith) (omega arith) four-Holds 0 (inl refl)

four-total : total (marked four) 4 < 5
unfolding has_bit
four-total = omega arith

search_loop-Ended_example :
    (o : Progress ((ℕ → Bool) × ℕ)) × (search_loop seven 5 4 2 (λ _. false) four 0 ≡ some o)
    × Ended seven 2 4 (omega arith) (omega arith) four o
search_loop-Ended_example =
    search_loop-Ended seven 2 4 (omega arith) (omega arith) 5 (λ _. false) four 0
      (four-Holds, inl refl) four-total
