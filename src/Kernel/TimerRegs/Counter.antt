-- ===== src/Kernel/TimerRegs/Counter.antt =====
-- The read of the counter with the collection of seeds that it carries.
use is_there_entropy_down_th.Common.{
  ℕ, >>=-eq-some, ◌+◌, ◌%◌, ◌^◌, ◌<◌, ◌≡◌, ◌≢◌, ◌⊎◌, ◌∙◌, sym, ap, refl, true, false, Option, none,
  some, List, [], ◌∷◌, ◌++◌, length, get_elem?, Bool-cases, Option-cases, inl, inr,
}
use is_there_entropy_down_th.Common.Words.{minus_one64, sign_extend32}
use is_there_entropy_down_th.Kernel.Seeds.{KhState, try_timer_kh, run}
use is_there_entropy_down_th.Kernel.Seeds.Branches.{IsFar}
use is_there_entropy_down_th.Kernel.Seeds.Packing.{AllFar, pack, run-timer_seeds}
use is_there_entropy_down_th.Kernel.TimerRegs.{
  Hardware, Workaround, cntvct_el0, get_tsc, arch_timer_reg_read_stable, arch_counter_get_cntvct,
  counter_reads, of_workaround, read_with,
}

-- What the virtual counter's register holds at the first of each two readings.
abbrev pub counters : List (Hardware × Hardware) → List ℕ
counters [] = []
counters ((first, second) ∷ hws) = first.value cntvct_el0 ∷ counters hws

-- A processor has no function for the virtual counter in force.
abbrev pub HasNoFunction : Hardware → Type 0
HasNoFunction hw =
    (hw.needs_workaround ≡ false)
    ⊎ (hw.workaround ≡ none)
    ⊎ ((wa : Workaround) × (hw.workaround ≡ some wa) × (wa.read cntvct_el0 ≡ none))

-- The result that is due: the register's value, or that of the function that an enabled workaround has
-- for the virtual counter.
abbrev pub IsDue : Hardware → (result : ℕ) → Type 0
IsDue hw v =
    (HasNoFunction hw × (v ≡ hw.value cntvct_el0))
    ⊎ ((hw.needs_workaround ≡ true)
        × (wa : Workaround) × (hw.workaround ≡ some wa)
        × (wa.read cntvct_el0 ≡ some v))

-- The results are due for the second readings.
pub data Results : List (Hardware × Hardware) → List ℕ → Type 0 where
  no_reads : Results [] []
  next_read :
      {first second : Hardware} {hws : List (Hardware × Hardware)} {v : ℕ} {vs : List ℕ}
      → IsDue second v
      → Results hws vs
      → Results ((first, second) ∷ hws) (v ∷ vs)

module _ (hw : Hardware) where
  disabled_lem :
      hw.needs_workaround ≡ false
      → (arch_timer_reg_read_stable hw cntvct_el0).0 ≡ hw.value cntvct_el0
  unfolding arch_timer_reg_read_stable
  disabled_lem e = rw e refl

  enabled_lem :
      (o : Option ℕ)
      → hw.needs_workaround ≡ true
      → of_workaround hw hw.workaround cntvct_el0 ≡ o
      → (arch_timer_reg_read_stable hw cntvct_el0).0 ≡ (read_with hw o cntvct_el0).0
  unfolding arch_timer_reg_read_stable
  enabled_lem o e e' = rw (e, e') refl

  of_workaround_lem :
      (wa : Option Workaround)
      → hw.workaround ≡ wa
      → of_workaround hw hw.workaround cntvct_el0 ≡ of_workaround hw wa cntvct_el0
  of_workaround_lem wa e = ap (λ w. of_workaround hw w cntvct_el0) e

  read_stable-IsDue : IsDue hw (arch_timer_reg_read_stable hw cntvct_el0).0
  read_stable-IsDue = elim (Bool-cases hw.needs_workaround) [
    | inr b ↦ inl (inl b, disabled_lem b)
    | inl b ↦ elim (Option-cases hw.workaround) [
      | inl e ↦ inl (inr (inl e), enabled_lem none b (of_workaround_lem none e))
      | inr (wa, e) ↦ elim (Option-cases (wa.read cntvct_el0)) [
        | inl e' ↦
            inl (inr (inr (wa, e, e')), enabled_lem none b (of_workaround_lem (some wa) e ∙ e'))
        | inr (v, e') ↦
            let shown = enabled_lem (some v) b (of_workaround_lem (some wa) e ∙ e') in
            inr (b, wa, e, e' ∙ ap some (sym shown))
      ]
    ]
  ]

counter_reads-run :
    (hws : List (Hardware × Hardware)) (s s' : KhState)
    → run s (counters hws) ≡ some s'
    → (vs : List ℕ) × (counter_reads hws s ≡ some (s', vs)) × Results hws vs
unfolding counter_reads arch_counter_get_cntvct run get_tsc
counter_reads-run [] s s' e = let same : s ≡ s' = cc in ([], ap (λ u. some (u, [])) same, no_reads)
counter_reads-run ((first, second) ∷ hws) s s' e =
    let (s1, e1, e2) =
      >>=-eq-some (try_timer_kh s (first.value cntvct_el0)) (λ s1. run s1 (counters hws)) e in
    let (vs, read, r) = counter_reads-run hws s1 s' e2 in
    (
      (arch_timer_reg_read_stable second cntvct_el0).0 ∷ vs,
      rw (e1, read) refl,
      next_read (read_stable-IsDue second) r,
    )

module _ (s : KhState) (room : s.seeds_index < 19) (full_size : length s.timer_seeds ≡ 20)
    (started : s.last_timestamp ≢ minus_one64) (called : 0 < s.global_times)
    (complete : s.global_times % 8 ≡ 0) (small : s.global_times + 9 < 2 ^ 31) where
  -- Nine reads of the counter, at which the virtual counter's register is over 1000 ticks behind the
  -- reference: each returns the register's value as it is a little later, or what an enabled workaround
  -- has in its place. When a seed is complete, it goes to the index, and the low four bits of the first
  -- eight deltas of the register after it, as a 32-bit pattern widened with its sign.
  pub counter_reads-timer_seeds :
      (hws : List (Hardware × Hardware)) (t u : ℕ) (ts : List ℕ) (last : ℕ)
      → counters hws ≡ (t ∷ u ∷ ts) ++ last ∷ []
      → length ts ≡ 6
      → AllFar s.last_timestamp (t ∷ u ∷ ts)
      → IsFar s.last_timestamp last
      → (s' : KhState) × (vs : List ℕ) × (counter_reads hws s ≡ some (s', vs))
        × Results hws vs
        × (get_elem? s'.timer_seeds s.seeds_index ≡ some s.seed)
        × (get_elem? s'.timer_seeds (s.seeds_index + 1)
            ≡ some (sign_extend32 (pack s.last_timestamp (t ∷ u ∷ ts))))
        × (s'.seeds_index ≡ s.seeds_index + 2)
  counter_reads-timer_seeds hws t u ts last seen six far far_last =
      let (s', e, first, second, index) =
        run-timer_seeds s room full_size started called complete small t u ts last six far
          far_last in
      let (vs, read, r) = counter_reads-run hws s s' (ap (run s) seen ∙ e) in
      (s', vs, read, r, first, second, index)
