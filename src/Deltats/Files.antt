-- ===== src/Deltats/Files.antt =====
-- What the sysfs files of the module show and take.
use is_there_entropy_down_th.Common.{
  ℕ, ◌+◌, ◌%◌, ◌^◌, ◌<◌, ◌≡◌, ◌≢◌, some, [], refl, arith, if◌then◌else◌, ◌==◌, ap,
}
use is_there_entropy_down_th.Common.Words.{sub64}
use is_there_entropy_down_th.Common.Decimal.{scan_lu, scan_lu-print_lu}
use is_there_entropy_down_th.Deltats.{
  Timer, Module, sleepns_show, sleepns_store, two_readings, lastdelta_show, ticks_show, ticks_delay,
}

-- What `sleepns` shows, written back to any state of the module, sets the same delay, and the write
-- reports all of its bytes as taken.
pub sleepns_store-sleepns_show :
    (m m' : Module) (count : ℕ)
    → m.sleepns < 2 ^ 64
    → sleepns_store m' (sleepns_show m) count ≡ (record m' { sleepns = m.sleepns }, count)
unfolding sleepns_store sleepns_show
sleepns_store-sleepns_show m m' count h = rw (scan_lu-print_lu m.sleepns b'\n' [] h refl)

ticks_delay_set :
    (t : Timer) (m : Module) (w : t.World)
    → m.sleepns ≢ 0
    → ticks_delay t m w ≡ t.ndelay (if m.lastdelta == 0 then m.sleepns else m.lastdelta) w
unfolding ticks_delay
ticks_delay_set t m w h = ground arith

module _ (t : Timer) where
  open t use {World, read_tsc, ndelay, read_tsc_fits}

  -- `lastdelta` shows the distance from its first reading to its second, modulo 2 ^ 64, and keeps
  -- it: read back from the text and added to the first reading, it gives the second. The other
  -- variables do not change.
  pub lastdelta_show_lem :
      (m : Module) (w : World)
      → let (t1, t2, _) = two_readings t m.sleepns w in
        let (m', text, _) = lastdelta_show t m w in
        (scan_lu text ≡ some m'.lastdelta)
        × ((t1 + m'.lastdelta) % 2 ^ 64 ≡ t2)
        × (m'.sleepns ≡ m.sleepns)
        × (m'.ticks ≡ m.ticks)
  unfolding lastdelta_show two_readings
  lastdelta_show_lem m w =
      let (t1, t2, w3) = two_readings t m.sleepns w in
      let first = read_tsc_fits w in
      let second =
        read_tsc_fits
          (if m.sleepns == 0 then (read_tsc w).1 else ndelay m.sleepns (read_tsc w).1) in
      (scan_lu-print_lu (sub64 t2 t1) b'\n' [] (omega arith) refl, omega arith, refl, refl)

  -- After `lastdelta` is read with a delay set, a read of `ticks` first waits for the delta just
  -- seen, or for `sleepns` if the two readings were equal, and then shows one reading.
  pub ticks_show-lastdelta_show :
      (m : Module) (w : World)
      → m.sleepns ≢ 0
      → let (m1, _, w1) = lastdelta_show t m w in
        let (m2, text, w2) = ticks_show t m1 w1 in
        let waited = ndelay (if m1.lastdelta == 0 then m.sleepns else m1.lastdelta) w1 in
        (m2.ticks ≡ (read_tsc waited).0)
        × (w2 ≡ (read_tsc waited).1)
        × (scan_lu text ≡ some m2.ticks)
  unfolding lastdelta_show ticks_show
  ticks_show-lastdelta_show m w h =
      let (m1, _, w1) = lastdelta_show t m w in
      let waits = ticks_delay_set t m1 w1 h in
      (
        ap (λ v. (read_tsc v).0) waits,
        ap (λ v. (read_tsc v).1) waits,
        scan_lu-print_lu _ b'\n' [] (read_tsc_fits _) refl,
      )
