-- ===== src/Vm/Module.antt =====
-- The loading and unloading of the module: `petmem_init` and `petmem_exit` of VMproject/main.c. The
-- registries of the kernel and its functions on them are parameters.
mod Tests
use cs.Prelude.{ℕ, Option, none, some}

-- What a function of the kernel answers: an error, as the word of 32 bits that is returned, or a value.
pub data Got (A : Type 0) : Type 0 where
  failed : (code : ℕ) → Got A
  got : A → Got A

-- The functions that `petmem_init` and `petmem_exit` call, each on the registry that it changes. The
-- names that they are given are always the same, and so are the structs of the character device.
pub record Registrar (Class Classes Regions Cdevs Devices : Type 0) : Type 0 where
  pub class_create : Classes → Classes × Got Class
  pub class_destroy : Option Class → Classes → Classes
  pub alloc_chrdev_region : Regions → Regions × Got ℕ
  pub unregister_chrdev_region : ℕ → Regions → Regions
  pub cdev_add : ℕ → Cdevs → Cdevs × ℕ
  pub cdev_del : Cdevs → Cdevs
  pub device_create : Option Class → ℕ → Devices → Devices × Got Class
  pub device_destroy : Option Class → ℕ → Devices → Devices
  pub major : ℕ → ℕ
  pub mkdev : ℕ → ℕ → ℕ

-- The registries, and the globals `petmem_class`, where it is no error, and `major_num`.
pub record World (Class Classes Regions Cdevs Devices : Type 0) : Type 0 where
  pub classes : Classes
  pub regions : Regions
  pub cdevs : Cdevs
  pub devices : Devices
  pub petmem_class : Option Class
  pub major_num : ℕ

module _ {Class Classes Regions Cdevs Devices : Type 0}
    (k : Registrar Class Classes Regions Cdevs Devices) where
  abbrev pub Loader : Type 0
  Loader = World Class Classes Regions Cdevs Devices

  -- From the registration of the numbers on. The answers of `cdev_add` and `device_create` are dropped.
  abbrev pub add_device : Loader → Regions × Got ℕ → Loader × ℕ
  add_device w (regions, failed code) =
      (record w { regions = regions; classes = k.class_destroy w.petmem_class w.classes }, code)
  add_device w (regions, got dev) =
      let dev' = k.mkdev (k.major dev) 0 in
      (
        record w {
          regions = regions;
          major_num = k.major dev;
          cdevs = (k.cdev_add dev' w.cdevs).0;
          devices = (k.device_create w.petmem_class dev' w.devices).0;
        },
        0,
      )

  abbrev pub add_class : Loader → Classes × Got Class → Loader × ℕ
  add_class w (classes, failed code) = (record w { classes = classes; petmem_class = none }, code)
  add_class w (classes, got class) =
      add_device (record w { classes = classes; petmem_class = some class })
        (k.alloc_chrdev_region w.regions)

  -- The module with what `petmem_init` returns.
  unfoldable pub petmem_init : Loader → Loader × ℕ
  petmem_init w = add_class w (k.class_create w.classes)

  unfoldable pub petmem_exit : Loader → Loader
  petmem_exit w =
      let dev = k.mkdev w.major_num 0 in
      record w {
        regions = k.unregister_chrdev_region dev w.regions;
        cdevs = k.cdev_del w.cdevs;
        devices = k.device_destroy w.petmem_class dev w.devices;
        classes = k.class_destroy w.petmem_class w.classes;
      }
