-- ===== src/Adc/Laws.antt =====
-- What the readers of the resistance see, and the resources of the drivers.
use kernel_code.Prelude.{
  not, get_or, ℕ, ◌≡◌, refl, Bool, true, ◌&&◌, [], ℤ, pos, is_negative, arith, ◌==◌, if◌then◌else◌,
}
use kernel_code.Kernel.Errno.{is_done}
use kernel_code.Kernel.World.{resource, misc, adc_client, World, World-eq, acquire, release-acquire}
use kernel_code.Kernel.Device.{Env}
use kernel_code.Adc.{resis_read, resistance_probe, resistance_remove}
use kernel_code.Adc.Older.{res_read}

-- The two drivers agree but for the code of an error: a read of 4 bytes with a number that can be stored
-- returns 4 and stores it, and no other read of either driver stores anything or returns no error.
pub read_results :
    (adc : ℤ) (writable : Bool) (cnt : ℕ)
    → let r = resis_read adc writable cnt in
      let r' = res_read adc writable cnt in
      if cnt == 4 && not (is_negative adc) && writable
      then (r ≡ r') × (r.ret ≡ pos 4) × (adc ≡ pos (get_or r.stored 0 0))
      else (is_negative r.ret ≡ true)
        × (is_negative r'.ret ≡ true)
        × (r.stored ≡ [])
        × (r'.stored ≡ [])
unfolding resis_read res_read
read_results adc writable cnt = ground arith

abbrev loaded : World → World
loaded w = acquire (resource misc 0) (acquire (resource adc_client 0) w)

last_first : (w : World) → loaded w ≡ acquire (resource adc_client 0) (acquire (resource misc 0) w)
unfolding acquire
last_first w = World-eq (λ r. omega arith) refl

remove-loaded : (w : World) → resistance_remove (loaded w) ≡ w
unfolding resistance_remove
remove-loaded w = rw last_first (simp release-acquire)

-- `resistance_probe` returns 0, and `resistance_remove` then gives back all that it took; or it returns
-- a negative error and holds nothing more than before.
pub probe-remove :
    (env : Env) (w : World)
    → let (ret, w') = resistance_probe env w in
      if is_done (env (resource adc_client 0)) && is_done (env (resource misc 0))
      then (ret ≡ pos 0) × (resistance_remove w' ≡ w)
      else (is_negative ret ≡ true) × (w' ≡ w)
unfolding resistance_probe
probe-remove env w = ground (arith, remove-loaded w, release-acquire (resource adc_client 0) w)
