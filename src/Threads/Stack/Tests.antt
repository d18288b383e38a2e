-- ===== src/Threads/Stack/Tests.antt =====
-- The stack of a thread of Threads at concrete addresses.
use cs.Prelude.{ℕ, ◌+◌, ◌*◌, ◌≡◌, refl, ◌==◌, if◌then◌else◌, arith}
use cs.Threads.Stack.{
  Registers, Machine, save_registers, ret, switch_to_stack, num_entries, create_stack,
}
use cs.Threads.Stack.Switch.{switch_to_stack-resumes, switch_to_stack-create_stack, first_registers}

-- Every register has its number.
abbrev numbered : Registers
numbered = record {
  rbp = 1;
  r15 = 2;
  r14 = 3;
  r13 = 4;
  r12 = 5;
  r11 = 6;
  r10 = 7;
  r9 = 8;
  r8 = 9;
  rsi = 10;
  rdi = 11;
  rdx = 12;
  rcx = 13;
  rbx = 14;
}

abbrev first : Machine
first = record {
  registers = numbered;
  rsp = 0x1000;
  mem = λ x. if x == 0x1000 then 0x400123 else 0;
}

-- The second runs on another stack, and has not touched the first one.
abbrev second : Machine
second = record {
  registers = record numbered { rdi = 77 };
  rsp = 0x9000;
  mem = (save_registers first).mem;
}

switch_to_stack-resumes_example :
    let (_, next, rip) = switch_to_stack (λ m. m) 0xf90 second in
    (next.registers ≡ numbered) × (next.rsp ≡ 0x1008) × (rip ≡ 0x400123)
unfolding switch_to_stack save_registers
switch_to_stack-resumes_example =
    switch_to_stack-resumes (λ m. m) (λ m. m) first second
      (record (save_registers second) { rsp = 0xf90 }) 0x8000 0xf90 (omega arith) refl refl refl
      (λ x l h. ground (arith, l, h))

-- The memory after a thread is made with its stack at 0x10000, and its stack pointer.
abbrev made : (ℕ → ℕ) × ℕ
made = create_stack 0x400abc 0x400123 7 0x10000 first.mem

-- The second thread switches to the new one.
abbrev switching : Machine
switching = record second { mem = made.0 }

switch_to_stack-create_stack_example :
    let (_, next, rip) = switch_to_stack (λ m. m) 0x2ff80 switching in
    (rip ≡ 0x400123)
    × (next.registers ≡ first_registers 0x10000 7)
    × ((ret next).0.rsp ≡ 0x10000 + 8 * num_entries)
    × ((ret next).1 ≡ 0x400abc)
unfolding create_stack save_registers
switch_to_stack-create_stack_example =
    switch_to_stack-create_stack 0x400abc 0x400123 7 0x10000 first.mem made.0 (λ m. m) switching
      (record (save_registers switching) { rsp = 0x2ff80 }) 0x2ff80 refl refl refl
      (λ x l h. ground (arith, l, h))
