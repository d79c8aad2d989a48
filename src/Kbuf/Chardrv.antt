-- ===== src/Kbuf/Chardrv.antt =====
-- The 16 kbufs of kbufchardrv/kbuf.c behind one set of functions: `cdev_add` links each device number with
-- the `struct cdev` inside a kbuf, and `kbuf_open` goes back from it to the kbuf.
use native.Mathlib.Nat.{mul-div_cancel}
use kernel_code.Prelude.{
  ℕ, zero, suc, ◌+◌, ◌-◌, ◌*◌, ◌/◌, ◌<◌, ◌≤◌, ◌≡◌, refl, Option, none, some, arith, ◌==◌,
  Bool-cases, inl, inr, ==_iff, if◌then◌else◌,
}
use kernel_code.Kernel.Memory.{UserAccess}
use kernel_code.Kbuf.Script.{Op, Reply}
use kernel_code.Kbuf.Buffer.{Buffer}
use kernel_code.Kbuf.Nonblocking
use kernel_code.Kbuf.Setup.{kbufnum}

-- Where the array `kbufs` stands in memory, `sizeof(struct kbuf)`, and the offset of `cdev` in it.
pub record Layout : Type 0 where
  pub base : ℕ
  pub size : ℕ
  pub cdev_offset : ℕ
  pub not_empty : 0 < size

-- `kbufs[KBUFNUM]`
abbrev pub Kbufs : Type 0
Kbufs = ℕ → Buffer

-- `struct file`, as far as the driver uses it: `private_data` is the address of a kbuf.
pub record File : Type 0 where
  pub private_data : ℕ

abbrev pub update : Kbufs → ℕ → Buffer → Kbufs
update kbufs i b j = if i == j then b else kbufs j

module _ (l : Layout) where
  open l use {base, size, cdev_offset, not_empty}

  -- `&kbufs[i]` and `&kbufs[i].cdev`
  abbrev pub kbuf_at : ℕ → ℕ
  kbuf_at i = base + i * size

  abbrev pub cdev_at : ℕ → ℕ
  cdev_at i = kbuf_at i + cdev_offset

  -- `cdev_add(&kbufs[i].cdev, devnum + i, 1)` in the rounds of `kbuf_init` from `i` on: the `struct cdev` of
  -- a minor number, which the kernel puts into `i_cdev` when a device file with this number is opened.
  unfoldable pub cdev_map : (rounds i minor : ℕ) → Option ℕ
  cdev_map zero i minor = none
  cdev_map (suc k) i minor =
      let later = cdev_map k (suc i) minor in if minor == i then some (cdev_at i) else later

  -- `container_of(i_cdev, struct kbuf, cdev)`
  unfoldable pub kbuf_open : (i_cdev : ℕ) → File
  kbuf_open i_cdev = record { private_data = i_cdev - cdev_offset }

  -- The kernel opens the device file of a minor number; one that is not linked is refused.
  unfoldable pub open_minor : (minor : ℕ) → Option File
  open_minor minor = elim (cdev_map kbufnum 0 minor) [
    | none ↦ none
    | some i_cdev ↦ some (kbuf_open i_cdev)
  ]

  -- `struct kbuf *pdev = filp->private_data` of a read or write, as an index of `kbufs`, and the call.
  abbrev pub pdev : File → ℕ
  pdev filp = (filp.private_data - base) / size

  unfoldable pub call : UserAccess → File → Op → Kbufs → Reply × Kbufs
  call user filp op kbufs =
      let (r, b) = Nonblocking.step user op (kbufs (pdev filp)) in (r, update kbufs (pdev filp) b)

  cdev_map_lem :
      (k i minor : ℕ) → i ≤ minor → minor < i + k → cdev_map k i minor ≡ some (cdev_at minor)
  unfolding cdev_map
  cdev_map_lem zero i minor lo hi = absurd (omega (arith, lo, hi))
  cdev_map_lem (suc k) i minor lo hi = elim (Bool-cases (minor == i)) [
    | inl here ↦ let e : minor ≡ i = (==_iff minor i).0 here in rw (here, e) refl
    | inr later ↦
        let more : suc i ≤ minor = ground (arith, later, lo) in
        rw later (cdev_map_lem k (suc i) minor more (omega (arith, hi)))
  ]

  pdev-kbuf_open : (minor : ℕ) → pdev (kbuf_open (cdev_at minor)) ≡ minor
  unfolding kbuf_open
  pdev-kbuf_open minor =
      let bytes : base + minor * size + cdev_offset - cdev_offset - base ≡ minor * size =
        omega arith in
      rw bytes (mul-div_cancel minor not_empty)

  -- Wherever `kbufs` stands in memory and however a kbuf is laid out: the device file of each of the 16 minor
  -- numbers can be opened, and a read or write on it is that of kbufchardrv on the kbuf of this number, and
  -- leaves the other kbufs alone.
  pub call-open_minor :
      (user : UserAccess) (minor : ℕ) (op : Op) (kbufs : Kbufs)
      → minor < 16
      → let (r, b) = Nonblocking.step user op (kbufs minor) in
        (elim (open_minor minor) [ none ↦ none | some filp ↦ some (call user filp op kbufs) ])
        ≡ some (r, update kbufs minor b)
  unfolding open_minor call
  call-open_minor user minor op kbufs small =
      let linked = cdev_map_lem kbufnum 0 minor (omega arith) (omega (arith, small)) in
      rw (linked, pdev-kbuf_open minor) refl
