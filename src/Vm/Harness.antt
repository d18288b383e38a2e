-- ===== src/Vm/Harness.antt =====
-- VMproject/user/harness.c: the functions that a program calls, on the device of VMproject/main.c. Each
-- call of `ioctl` brings with it whether the kernel's copies from and to the program succeed, and the
-- address that kmalloc returns in it.
pub mod Touch
mod Tests
use cs.Prelude.{ℕ, ◌-◌, ◌^◌, Bool, true, false, not, Option, none, some, List, ◌==◌, if◌then◌else◌}
use cs.Vm.PageTable.{Kernel}
use cs.Vm.Pool.{Buddy, Arch, Ran, fine, bug, out_of_fuel, ◌>>=◌}
use cs.Vm.Device.{Device, Request, Answer, Code, ok, failed, efault, petmem_ioctl}

pub record Env : Type 0 where
  pub copied_in : Bool
  pub copied_out : Bool
  pub new_map : ℕ

-- An argument with nothing in it.
abbrev pub request : Env → Request
request env = record {
  arg = 0;
  copied_in = env.copied_in;
  copied_out = env.copied_out;
  new_map = env.new_map;
  base_addr = 0;
  pages = 0;
  size = 0;
  fault_addr = 0;
  error_code = 0;
}

-- Is the value that `ioctl` returns 0?
abbrev pub is_zero : Code → Bool
is_zero ok = true
is_zero failed = false
is_zero efault = false

-- The address in a request that was filled with zeros before the call.
abbrev pub addr_in : Answer → ℕ
addr_in r = elim (r.addr) [ none ↦ 0 | some a ↦ a ]

abbrev pub sigsegv : ℕ
sigsegv = 11

-- `fd`, where `none` is -1, `dfl_segv_action`, and the action that the program has set for the signal.
pub record Library (File Action : Type 0) : Type 0 where
  pub fd : Option File
  pub dfl_segv_action : Action
  pub segv_action : Action

-- `init_petmem`, given the handler and what `open` answers, with what it returns.
pub init_petmem :
    {File Action : Type 0} → Action → Option File → Library File Action → Library File Action × ℕ
init_petmem handler opened l = (
  record { fd = opened; dfl_segv_action = l.segv_action; segv_action = handler },
  elim opened [ none ↦ 2 ^ 32 - 1 | some file ↦ 0 ],
)

-- What a signal handler comes to: the program goes on, or the signal's default action is set again
-- and ends it.
pub data AfterSignal (Mempool : Type 0) : Type 0 where
  goes_on : Device Mempool → AfterSignal Mempool
  killed : Device Mempool → AfterSignal Mempool

module _ {Mempool : Type 0} (buddy : Buddy Mempool) (arch : Arch) (k : Kernel) (fuel : ℕ) where
  pub pet_malloc : Device Mempool → Env → ℕ → Ran (Device Mempool × ℕ)
  pet_malloc d env size =
      petmem_ioctl buddy arch k fuel 30 d (record (request env) { size = size }) >>= λ r.
      fine (r.0, addr_in r.1)

  pub pet_free : Device Mempool → Env → ℕ → Ran (Device Mempool)
  pet_free d env addr =
      petmem_ioctl buddy arch k fuel 31 d (record (request env) { arg = addr }) >>= λ r. fine r.0

  pub pet_dump : Device Mempool → Env → Ran (Device Mempool)
  pet_dump d env = petmem_ioctl buddy arch k fuel 32 d (request env) >>= λ r. fine r.0

  pub pet_invlpg : Device Mempool → Env → ℕ → Ran (Device Mempool)
  pet_invlpg d env addr =
      petmem_ioctl buddy arch k fuel 51 d (record (request env) { arg = addr }) >>= λ r. fine r.0

  pub print_pml_call : Device Mempool → Env → Ran (Device Mempool)
  print_pml_call d env = petmem_ioctl buddy arch k fuel 52 d (request env) >>= λ r. fine r.0

  pub segv_handler : Device Mempool → Env → ℕ → ℕ → ℕ → Ran (AfterSignal Mempool)
  segv_handler d env signum si_addr si_code =
      if not (signum == sigsegv)
      then fine (goes_on d)
      else petmem_ioctl buddy arch k fuel 50 d
          (record (request env) { fault_addr = si_addr; error_code = si_code })
        >>= λ r. fine (if is_zero (r.1.code) then goes_on r.0 else killed r.0)
