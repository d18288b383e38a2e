-- ===== src/Vm/Module/Tests.antt =====
-- Loading and unloading the module of VMproject/main.c where the registries are lists of numbers.
use cs.Prelude.{
  ℕ, ◌+◌, ◌*◌, ◌/◌, ◌^◌, ◌≡◌, refl, none, some, List, [], ◌∷◌, ◌==◌, if◌then◌else◌, length,
}
use cs.Vm.Module.{Got, failed, got, Registrar, Loader, petmem_init, petmem_exit}

abbrev without_first : List ℕ → List ℕ
without_first [] = []
without_first (x ∷ xs) = xs

-- The numbers of devices run out at three.
abbrev numbers : List ℕ → List ℕ × Got ℕ
numbers r =
    if length r == 3 then (r, failed 0xfffffff0) else (0 ∷ r, got ((240 + length r) * 2 ^ 20))

abbrev kernel : Registrar ℕ (List ℕ) (List ℕ) (List ℕ) (List ℕ)
kernel = record {
  class_create = λ c. (7 ∷ c, got 7);
  class_destroy = λ class c. without_first c;
  alloc_chrdev_region = numbers;
  unregister_chrdev_region = λ dev r. without_first r;
  cdev_add = λ dev d. (dev ∷ d, 0);
  cdev_del = without_first;
  device_create = λ class dev d. (dev ∷ d, got 1);
  device_destroy = λ class dev d. without_first d;
  major = λ dev. dev / 2 ^ 20;
  mkdev = λ major minor. major * 2 ^ 20 + minor;
}

abbrev machine : Loader kernel
machine = record {
  classes = 3 ∷ [];
  regions = [];
  cdevs = [];
  devices = 4 ∷ [];
  petmem_class = none;
  major_num = 0;
}

loaded : (petmem_init kernel machine).0.major_num ≡ 240
unfolding petmem_init
loaded = refl

-- After the unloading the registries are those from before.
unloaded :
    petmem_exit kernel (petmem_init kernel machine).0
    ≡ record machine { petmem_class = some 7; major_num = 240 }
unfolding petmem_init petmem_exit
unloaded = refl

-- With three numbers in use, loading fails with the error of `alloc_chrdev_region`, and the class is
-- taken back.
abbrev full : Loader kernel
full = record machine { regions = 1 ∷ 2 ∷ 3 ∷ [] }

full_fails : petmem_init kernel full ≡ (record full { petmem_class = some 7 }, 0xfffffff0)
unfolding petmem_init
full_fails = refl
