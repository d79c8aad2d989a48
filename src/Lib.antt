-- ===== src/Lib.antt =====
-- Verification of the drivers of this repository: Linux kernel modules for a board with an Exynos
-- 4412, each of which stands in one C file.
--
-- The parts. The byte buffers (kbuf*, locks/mutex, locks/semaphore, locks/kbufchardrv) are queues
-- of at most 512 bytes that processes read and write. The record queue (dlist) and the entry
-- under /proc (procfs) keep what is written to them. The LED drivers (miscled, ledchar,
-- gpio_led), the key drivers (keys, irq, input/keys) and the buzzer (buzzer) are the interface to
-- hardware. The touch screens (input, laomits) report to the input subsystem. locks/atomic lets
-- one process at a time open a device, the drivers of locks/spinlock print under a spin lock.
-- kernel_code_v1 holds older versions of most drivers. The programs of app call the drivers. The
-- drivers do not call one another; they share the way they are built: file operations on a state,
-- and an initialisation that acquires resources of the kernel and undoes what it acquired when a
-- request fails.
--
-- Prelude: the library names that all files use, lists measured by native numbers, and the signed
-- integers that drivers return.
-- Kernel: what the drivers ask of the kernel. Errno: error codes. World: the resources that are
-- held. Device: an environment that answers each request. Unwind: the loop of the initialisations
-- with its goto to a `while (i--)`, once for all drivers. Memory: copy_from_user and copy_to_user
-- as a record of operations and laws, with an instance in Memory/Simple. Lock: a mutex or a
-- semaphore as a record, with instances in Lock/Simple.
-- Kbuf: the byte buffers. Buffer: struct kbuf and the accesses to it. Script, Pipe: calls,
-- replies, and the queue that is the specification. Nonblocking: kbuf_read and kbuf_write of
-- kbufchardrv/kbuf.c, with Refine and Stream. Chardrv: the way from a minor number over cdev_add
-- and kbuf_open to a kbuf. Setup: kbuf_init and kbuf_exit. Waiting, Block:
-- kbufchardrv_block/kbuf.c; Waiting/Simple: a wait that meets the laws. Poll, Poll/Setup:
-- kbufchardrv_poll/kbuf.c. Locked, Mutex, Semaphore: locks/mutex/kbuf.c and
-- locks/semaphore/kbuf.c as steps of processes. Race: locks/kbufchardrv/kbuf.c. Misc, Ioctl:
-- kbufmisc/kbuf.c and kbufioctl/kbuf.c.
-- App/Threads: locks/app/main.c. App/Keys: keys/app/app.c with keys/key.c. App/Led:
-- miscled/app/led.c with miscled/led.c. App/Kbuf: kbufchardrv/app/write.c, kbufchardrv/app/read.c
-- and app/cat.c with kbufchardrv/kbuf.c. App/Students: dlist/app/app.c with dlist/dlist.c.
-- App/Sysled: app/sysled.c with ledsyscall.c. App/Buzzer: buzzer/app/app.c with buzzer/buzzer.c.
-- App/Server: kbufchardrv_poll/app/readserver.c with kbufchardrv_poll/kbuf.c. Adc:
-- adc/resistant.c; Adc/Older: kernel_code_v1/reslocator/reslocator.c. Atomic:
-- locks/atomic/demo.c; Atomic/Older: kernel_code_v1/lock/atomic/demo.c. Buzzer: buzzer/buzzer.c;
-- Buzzer/Older: kernel_code_v1/beep/beep.c. Dlist: dlist/dlist.c, with its specification in
-- Dlist/Queue. DriverModel: driver_model/demo/mybus.c, with Demo2 and Older for
-- driver_model/demo2/mybus.c and kernel_code_v1/drv_model/base/bus.c. Irq:
-- irq/request_irq/demo.c; Irq/Shared: irq/irq_shared/demo.c; Irq/Keys: keys/key.c; Irq/InputKeys:
-- input/keys/key.c. Irq/Halves: interrupt function, timer and tasklet for any data of a driver,
-- with Halves/Older for the order of kernel_code_v1. Irq/Touch: input/1point_ts/key.c and
-- input/5point_mt/key.c, with the frames that a reader sees in Touch/Frames. Irq/Count: the
-- interrupt function of irq/request_irq/demo.c. Irq/Bh: irq/irq_bh/tasklet/demo.c and
-- irq/irq_bh/workqueue/demo.c. Irq/Older: kernel_code_v1/keys/key.c, with InputKeys, Ts, Mt,
-- Count, Tasklet and Workqueue for inputsubsys_keys, demo_ts, irq and irq_bh of kernel_code_v1;
-- Irq/Shared/Older: kernel_code_v1/shared_irq/key.c. Fullness: kernel_code_v1/lock/mutex/demo.c
-- and kernel_code_v1/lock/sema/demo.c. Laomits: laomits/ts.c. Leds/Register, Leds/Misc:
-- miscled/led.c; Leds/Char: ledchar/led.c; Leds/Gpio: gpio_led/led.c; Leds/Older:
-- kernel_code_v1/leds/demo.c; Leds/Syscall: ledsyscall.c. Procfs: procfs/demo.c; Procfs/Older:
-- kernel_code_v1/proc/proc.c. Spin: locks/spinlock/spinlock/demo.c; Spin/Keyed:
-- locks/spinlock/spinlock_irqsave and locks/spinlock/spinlock_bh; Spin/Older: spin, spin_irq,
-- spin_irqbh and spin_trylock of kernel_code_v1/lock; Spin/Processor: one processor with an
-- interrupt on top of a process, while no other uses the lock. Time: time/currenttime/demo0.c,
-- and kernel_code_v1/kernel_time/demo2.c in Time/Older; Time/Timer: time/timer/demo1.c, with
-- Once, OlderOnce, OlderAgain and OlderStatic for time/timer/demo0.c and demo4.c, demo5.c and
-- demo7.c of kernel_code_v1/kernel_time.
--
-- How the code is read. A function of a driver becomes a function from its arguments and the
-- state to its result and the new state; an error code -n is `negsuc (n - 1)`. The calls of the
-- kernel are parameters: an environment answers each request for a resource, user memory, waiting
-- and epoll are records whose laws are the documented behaviour. A call is atomic, but in Locked,
-- Race, Atomic, Spin and App/Threads, where the accesses to shared state are steps of their own.
-- `size_t` has 32 bits; its sums and differences wrap. The number of kbufs is 16, their size 512,
-- the limit of procfs 2^20. All loops of the code run over a fixed number of devices or over a
-- list, and are recursions on it, so that no fuel is needed; the loop of app/cat.c runs on fuel,
-- of which nine rounds are enough.
--
-- Not modelled: printing and the text of messages, but that the drivers with a spin lock print
-- lines, the names of device files, the order of memory accesses, the other test programs under
-- app, generated files, modules, the platform drivers of driver_model, time/hrtimer, and ts,
-- printk and the platform drivers of kernel_code_v1.
pub mod Prelude
pub mod Kernel
pub mod Kbuf
pub mod Adc
pub mod App
pub mod Atomic
pub mod DriverModel
pub mod Fullness
pub mod Irq
pub mod Buzzer
pub mod Dlist
pub mod Laomits
pub mod Leds
pub mod Procfs
pub mod Spin
pub mod Time
