-- ===== src/Kernel/World.antt =====
-- What a driver holds of the kernel: how often each resource was acquired and not yet released,
-- and how many releases asked for a resource that was not held.
use kernel_code.Prelude.{ℕ, ◌+◌, ◌-◌, ◌≡◌, refl, Bool, ◌&&◌, arith, ◌==◌, if◌then◌else◌}

-- The kinds of things that the drivers acquire.
pub data Kind : Type 0 where
  chrdev_region device_class buffer cdev device proc_entry misc : Kind
  irq irq_shared gpio pwm mapping input_device gpio_output adc_client : Kind

abbrev pub tag : Kind → ℕ
tag chrdev_region = 0
tag device_class = 1
tag buffer = 2
tag cdev = 3
tag device = 4
tag proc_entry = 5
tag misc = 6
tag irq = 7
tag irq_shared = 8
tag gpio = 9
tag pwm = 10
tag mapping = 11
tag input_device = 12
tag gpio_output = 13
tag adc_client = 14

-- `index` tells the resources of one kind apart: a minor number, an interrupt, a pin.
pub record Resource : Type 0 where
  pub kind : Kind
  pub index : ℕ

abbrev pub resource : Kind → ℕ → Resource
resource k i = record { kind = k; index = i }

abbrev pub same : Resource → Resource → Bool
same a b = tag a.kind == tag b.kind && a.index == b.index

-- 1 at `a`, 0 elsewhere
abbrev pub one_at : Resource → Resource → ℕ
one_at a b = if same a b then 1 else 0

pub record World : Type 0 where
  pub held : Resource → ℕ
  pub faults : ℕ

abbrev pub nothing_held : World
nothing_held = record { held = λ r. 0; faults = 0 }

unfoldable pub acquire : Resource → World → World
acquire a w = record w { held = λ b. w.held b + one_at a b }

-- A release of something that is not held is a fault, such as a double `kfree`.
unfoldable pub release : Resource → World → World
release a w = record {
  held = λ b. w.held b - one_at a b;
  faults = if w.held a == 0 then w.faults + 1 else w.faults;
}

pub World-eq : {v w : World} → ((r : Resource) → v.held r ≡ w.held r) → v.faults ≡ w.faults → v ≡ w
World-eq h f = λ i. record { held = λ r. h r i; faults = f i }

same_self : (a : Resource) → one_at a a ≡ 1
same_self a = ground arith

-- What was acquired can be released, and nothing else changes.
pub release-acquire : (a : Resource) (w : World) → release a (acquire a w) ≡ w
unfolding acquire release
release-acquire a w = World-eq (λ r. ground arith) (ground (arith, same_self a))

-- The order of two acquisitions does not matter.
pub acquire_comm : (a b : Resource) (w : World) → acquire a (acquire b w) ≡ acquire b (acquire a w)
unfolding acquire
acquire_comm a b w = World-eq (λ r. omega arith) refl
