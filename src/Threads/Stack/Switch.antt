-- ===== src/Threads/Stack/Switch.antt =====
-- The registers of a thread of Threads/pet_thread_hw.S after another ran, and those of a new thread.
use cs.Prelude.{
  Bool-cases, inl, inr, fun_ext, ℕ, ◌+◌, ◌-◌, ◌*◌, ◌≤◌, ◌<◌, ◌≡◌, refl, sym, ◌∙◌, ap, ◌==◌,
  if◌then◌else◌, ltb, arith,
}
use cs.Threads.Stack.{
  Registers, Machine, save_registers, restore_registers, ret, switch_to_stack, num_entries,
  create_stack,
}

-- The words that a thread leaves on its stack.
abbrev saved_word : Registers → ℕ → ℕ
saved_word r i =
    if i == 0
    then r.rbp
    else if i == 1
    then r.r15
    else if i == 2
    then r.r14
    else if i == 3
    then r.r13
    else if i == 4
    then r.r12
    else if i == 5
    then r.r11
    else if i == 6
    then r.r10
    else if i == 7
    then r.r9
    else if i == 8
    then r.r8
    else if i == 9
    then r.rsi
    else if i == 10
    then r.rdi
    else if i == 11
    then r.rdx
    else if i == 12
    then r.rcx
    else r.rbx

save_registers-word :
    (m : Machine) (i : ℕ)
    → 112 ≤ m.rsp
    → i < 14
    → (save_registers m).mem (m.rsp - 112 + 8 * i) ≡ saved_word m.registers i
unfolding save_registers
save_registers-word m i h l = ground (arith, h, l)

save_registers-rsp : (m : Machine) → (save_registers m).rsp ≡ m.rsp - 112
unfolding save_registers
save_registers-rsp m = omega arith

save_registers-above :
    (m : Machine) (x : ℕ) → 112 ≤ m.rsp → m.rsp ≤ x → (save_registers m).mem x ≡ m.mem x
unfolding save_registers
save_registers-above m x h l = ground (arith, h, l)

-- The registers that fourteen words are.
abbrev context : (ℕ → ℕ) → Registers
context f = record {
  rbp = f 0;
  r15 = f 1;
  r14 = f 2;
  r13 = f 3;
  r12 = f 4;
  r11 = f 5;
  r10 = f 6;
  r9 = f 7;
  r8 = f 8;
  rsi = f 9;
  rdi = f 10;
  rdx = f 11;
  rcx = f 12;
  rbx = f 13;
}

-- Only the first fourteen count.
abbrev upto_14 : (ℕ → ℕ) → ℕ → ℕ
upto_14 f i = if ltb i 14 then f i else 0

context-eq : (f g : ℕ → ℕ) → ((i : ℕ) → i < 14 → f i ≡ g i) → context f ≡ context g
context-eq f g h = ap context {x = upto_14 f} {y = upto_14 g} (
    fun_ext (λ i. elim (Bool-cases (ltb i 14)) [
      | inl e ↦ rw e (h i (ground (arith, e)))
      | inr e ↦ rw e refl
    ]))

restore_registers-context :
    (m : Machine) (r : Registers)
    → ((i : ℕ) → i < 14 → m.mem (m.rsp + 8 * i) ≡ saved_word r i)
    → (restore_registers m).registers ≡ r
unfolding restore_registers
restore_registers-context m r h = context-eq (λ i. m.mem (m.rsp + 8 * i)) (saved_word r) h

-- A thread called `__switch_to_stack` with at least 112 bytes of stack left, and another one later
-- switches back to the pointer that was kept. If the words of the first from there up to its return
-- address are as they were when `pet_thread_cleanup` returns, which keeps the stack pointer, then the
-- first goes on at its return address, with every register and its stack as at its call.
pub switch_to_stack-resumes :
    (cleanup cleanup' : Machine → Machine) (m l c : Machine) (target kept : ℕ)
    → 112 ≤ m.rsp
    → (switch_to_stack cleanup target m).0 ≡ kept
    → cleanup' (record (save_registers l) { rsp = kept }) ≡ c
    → c.rsp ≡ kept
    → ((x : ℕ) → kept ≤ x → x < m.rsp + 8 → c.mem x ≡ (save_registers m).mem x)
    → let (_, next, rip) = switch_to_stack cleanup' kept l in
      (next.registers ≡ m.registers) × (next.rsp ≡ m.rsp + 8) × (rip ≡ m.mem m.rsp)
unfolding switch_to_stack restore_registers
switch_to_stack-resumes cleanup cleanup' m l c target kept h g q s w =
    let k : kept ≡ m.rsp - 112 = sym g ∙ save_registers-rsp m in
    let at : c.rsp + 8 * 14 ≡ m.rsp = omega (arith, s, k, h) in
    (
      ap (λ (d : Machine). (restore_registers d).registers) q
          ∙ restore_registers-context c m.registers (λ i b.
            w (c.rsp + 8 * i) (omega (arith, s)) (omega (arith, s, k, b))
            ∙ ap (λ z. (save_registers m).mem (z + 8 * i)) (s ∙ k)
            ∙ save_registers-word m i h b),
      ap (λ (d : Machine). d.rsp + 8 * 14 + 8) q ∙ omega (arith, at),
      ap (λ (d : Machine). d.mem (d.rsp + 8 * 14)) q
          ∙ ap c.mem at
          ∙ w m.rsp (omega (arith, k, h)) (omega arith)
          ∙ save_registers-above m m.rsp h (omega arith),
    )

abbrev pub first_registers : (stack_bottom arg : ℕ) → Registers
first_registers stack_bottom arg = record {
  rbp = stack_bottom + 8 * (num_entries - 1);
  r15 = 0;
  r14 = 0;
  r13 = 0;
  r12 = 0;
  r11 = 0;
  r10 = 0;
  r9 = 0;
  r8 = 0;
  rsi = 0;
  rdi = arg;
  rdx = 0;
  rcx = 0;
  rbx = 0;
}

create_stack-word :
    (capture_return func arg stack_bottom : ℕ) (mem : ℕ → ℕ) (i : ℕ)
    → i < 14
    → (create_stack capture_return func arg stack_bottom mem).0
        ((create_stack capture_return func arg stack_bottom mem).1 + 8 * i)
      ≡ saved_word (first_registers stack_bottom arg) i
unfolding create_stack
create_stack-word capture_return func arg stack_bottom mem i l = ground (arith, l)

create_stack-top :
    (capture_return func arg stack_bottom : ℕ) (mem : ℕ → ℕ)
    → let (mem', stack_rsp) = create_stack capture_return func arg stack_bottom mem in
      (mem' (stack_rsp + 8 * 14) ≡ func)
      × (mem' (stack_rsp + 8 * 15) ≡ capture_return)
      × (stack_rsp + 8 * 16 ≡ stack_bottom + 8 * num_entries)
unfolding create_stack
create_stack-top capture_return func arg stack_bottom mem =
    (ground arith, ground arith, omega arith)

-- `pet_thread_create` laid out a stack, and a thread calls `__switch_to_stack` for its pointer the
-- first time. If `pet_thread_cleanup` keeps the stack pointer, and the words from there to the end of
-- the stack are still those of the creation when it returns, then the new thread goes to its
-- function, with its argument in the register of the first argument and 0 in the others but rbp; and
-- when the function returns with the stack as it found it, it goes to `__capture_return`.
pub switch_to_stack-create_stack :
    (capture_return func arg stack_bottom : ℕ) (mem mem' : ℕ → ℕ) (cleanup : Machine → Machine)
    (l c : Machine) (stack_rsp : ℕ)
    → create_stack capture_return func arg stack_bottom mem ≡ (mem', stack_rsp)
    → cleanup (record (save_registers l) { rsp = stack_rsp }) ≡ c
    → c.rsp ≡ stack_rsp
    → ((x : ℕ) → stack_rsp ≤ x → x < stack_bottom + 8 * num_entries → c.mem x ≡ mem' x)
    → let (_, next, rip) = switch_to_stack cleanup stack_rsp l in
      (rip ≡ func)
      × (next.registers ≡ first_registers stack_bottom arg)
      × ((ret next).0.rsp ≡ stack_bottom + 8 * num_entries)
      × ((ret next).1 ≡ capture_return)
unfolding switch_to_stack restore_registers
switch_to_stack-create_stack capture_return func arg stack_bottom mem mem' cleanup l c stack_rsp g q
      s w =
    let made = create_stack capture_return func arg stack_bottom mem in
    let top = create_stack-top capture_return func arg stack_bottom mem in
    let k : made.1 ≡ stack_rsp = ap (λ (p : (ℕ → ℕ) × ℕ). p.1) g in
    let end : stack_rsp + 8 * 16 ≡ stack_bottom + 8 * num_entries = omega (arith, k, top.2) in
    let word : (i : ℕ) → i < 16 → c.mem (c.rsp + 8 * i) ≡ made.0 (made.1 + 8 * i) = λ i b.
      w (c.rsp + 8 * i) (omega (arith, s)) (omega (arith, s, end, b))
      ∙ ap (λ z. mem' (z + 8 * i)) s
      ∙ ap (λ (p : (ℕ → ℕ) × ℕ). p.0 (p.1 + 8 * i)) (sym g) in
    (
      ap (λ (d : Machine). d.mem (d.rsp + 8 * 14)) q ∙ word 14 (omega arith) ∙ top.0,
      ap (λ (d : Machine). (restore_registers d).registers) q
          ∙ restore_registers-context c (first_registers stack_bottom arg) (λ i b.
            word i (omega (arith, b))
            ∙ create_stack-word capture_return func arg stack_bottom mem i b),
      ap (λ (d : Machine). d.rsp + 8 * 14 + 8 + 8) q ∙ omega (arith, s, end),
      ap (λ (d : Machine). d.mem (d.rsp + 8 * 14 + 8)) q
          ∙ ap c.mem {x = c.rsp + 8 * 14 + 8} (omega arith)
          ∙ word 15 (omega arith)
          ∙ top.1,
    )
