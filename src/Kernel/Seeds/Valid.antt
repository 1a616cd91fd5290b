-- ===== src/Kernel/Seeds/Valid.antt =====
-- The invariant of the seeds: the array keeps its size, and nothing is written past the index.
use is_there_entropy_down_th.Common.{
  ℕ, ◌+◌, ◌-◌, ◌*◌, ◌^◌, ◌≤◌, ◌<◌, ◌≡◌, ◌∙◌, refl, some, length, get_elem?, arith, length-set,
  get_elem?-set_ne, get_elem?-replicate,
}
use is_there_entropy_down_th.Common.Words.{minus_one64}
use is_there_entropy_down_th.Kernel.Seeds.{KhState, kh_initial}
use is_there_entropy_down_th.Kernel.Seeds.Step.{Call, full, first, near, within, boundary}

pub record IsValid (s : KhState) : Type 0 where
  pub size : length s.timer_seeds ≡ 20
  pub index : s.seeds_index ≤ 20
  pub unused : (i : ℕ) → s.seeds_index ≤ i → i < 20 → get_elem? s.timer_seeds i ≡ some minus_one64
  -- A seed takes at least eight counted calls.
  pub paced : s.seeds_index * 8 ≤ s.global_times - 1

pub initial-IsValid : IsValid kh_initial
initial-IsValid = record {
  size = refl;
  index = omega arith;
  unused = λ i _ h. get_elem?-replicate 20 minus_one64 i h;
  paced = omega arith;
}

module _ {s : KhState} {t : ℕ} (calls : s.global_times + 1 < 2 ^ 32) where
  pub Call-IsValid : {s' : KhState} → Call s t s' → IsValid s → IsValid s'
  Call-IsValid (full h) v = v
  Call-IsValid (first r e) v = record {
    size = v.size;
    index = v.index;
    unused = v.unused;
    paced = v.paced;
  }
  Call-IsValid (near r st n) v = record {
    size = v.size;
    index = v.index;
    unused = v.unused;
    paced = omega arith;
  }
  Call-IsValid (within r st f w) v = record {
    size = v.size;
    index = v.index;
    unused = v.unused;
    paced = omega arith;
  }
  Call-IsValid (boundary r st f b p) v = record {
    size = length-set s.timer_seeds s.seeds_index s.seed ∙ v.size;
    index = omega arith;
    unused =
        λ i p q. get_elem?-set_ne s.timer_seeds s.seed (omega arith) ∙ v.unused i (omega arith) q;
    paced = omega arith;
  }
