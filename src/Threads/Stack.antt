-- ===== src/Threads/Stack.antt =====
-- Threads/pet_thread_hw.S and the part of `pet_thread_create` of Threads/pet_thread.c that lays out a
-- stack: the registers that a thread keeps on its stack while another runs. Memory is words of 64
-- bits by their addresses, which are multiples of 8.
pub mod Switch
mod Tests
use cs.Prelude.{◌&&◌, leb, ltb, ◌/◌, ℕ, ◌+◌, ◌-◌, ◌*◌, ◌^◌, ◌==◌, if◌then◌else◌}

-- `struct exec_ctx` without the return address: the registers in the order of the fields.
pub record Registers : Type 0 where
  pub rbp : ℕ
  pub r15 : ℕ
  pub r14 : ℕ
  pub r13 : ℕ
  pub r12 : ℕ
  pub r11 : ℕ
  pub r10 : ℕ
  pub r9 : ℕ
  pub r8 : ℕ
  pub rsi : ℕ
  pub rdi : ℕ
  pub rdx : ℕ
  pub rcx : ℕ
  pub rbx : ℕ

pub record Machine : Type 0 where
  pub registers : Registers
  pub rsp : ℕ
  pub mem : ℕ → ℕ

abbrev pub write : (ℕ → ℕ) → ℕ → ℕ → ℕ → ℕ
write mem a v x = if x == a then v else mem x

abbrev pub push : ℕ → Machine → Machine
push v m = record m { rsp = m.rsp - 8; mem = write m.mem (m.rsp - 8) v }

-- `save_registers`
pub save_registers : Machine → Machine
save_registers m =
    let r = m.registers in
    push r.rbp (
      push r.r15 (
        push r.r14 (
          push r.r13 (
            push r.r12 (
              push r.r11 (
                push r.r10 (
                  push r.r9 (
                    push r.r8
                      (push r.rsi (push r.rdi (push r.rdx (push r.rcx (push r.rbx m)))))))))))))

-- `restore_registers`: fourteen pops.
pub restore_registers : Machine → Machine
restore_registers m =
    let at : ℕ → ℕ = λ i. m.mem (m.rsp + 8 * i) in
    record m {
      registers = record {
        rbp = at 0;
        r15 = at 1;
        r14 = at 2;
        r13 = at 3;
        r12 = at 4;
        r11 = at 5;
        r10 = at 6;
        r9 = at 7;
        r8 = at 8;
        rsi = at 9;
        rdi = at 10;
        rdx = at 11;
        rcx = at 12;
        rbx = at 13;
      };
      rsp = m.rsp + 8 * 14;
    }

-- `ret`, with the address that it goes to.
abbrev pub ret : Machine → Machine × ℕ
ret m = (record m { rsp = m.rsp + 8 }, m.mem m.rsp)

-- `__switch_to_stack`, from the thread that runs to the one whose stack pointer was kept: where the
-- pointer of the first is kept, the machine, and the address that it goes on at. What the call of
-- `pet_thread_cleanup` in between does to the machine is a parameter.
pub switch_to_stack : (Machine → Machine) → ℕ → Machine → ℕ × Machine × ℕ
switch_to_stack pet_thread_cleanup target m =
    let saved = save_registers m in
    let (next, rip) =
      ret (restore_registers (pet_thread_cleanup (record saved { rsp = target }))) in
    (saved.rsp, next, rip)

-- STACK_SIZE / sizeof(uintptr_t)
abbrev pub num_entries : ℕ
num_entries = (4096 * 32) / 8

-- The memory after `pet_thread_create` laid out the stack that calloc returned at `stack_bottom`, and
-- `stack_rsp`.
pub create_stack : (capture_return func arg stack_bottom : ℕ) → (ℕ → ℕ) → (ℕ → ℕ) × ℕ
create_stack capture_return func arg stack_bottom mem =
    let entry : ℕ → ℕ = λ i. stack_bottom + 8 * i in
    let cleared : ℕ → ℕ =
      λ x. if leb stack_bottom x && ltb x (entry num_entries) then 0 else mem x in
    let init_ctx = entry (num_entries - 16) in
    let with_rip = write cleared (init_ctx + 8 * 14) func in
    let with_rbp = write with_rip init_ctx (entry (num_entries - 1)) in
    let with_rdi = write with_rbp (init_ctx + 8 * 10) arg in
    (write with_rdi (entry (num_entries - 1)) capture_return, init_ctx)
