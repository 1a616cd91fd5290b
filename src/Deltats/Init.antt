-- ===== src/Deltats/Init.antt =====
-- `mymodule_init` and `mymodule_exit`: the kobject and its four files.
use is_there_entropy_down_th.Common.{
  ℕ, ◌≡◌, ◌≢◌, refl, Bool, true, false, List, [], ◌∷◌, ◌++◌, arith, if◌then◌else◌, ◌==◌, ◌⊎◌, inl,
  inr, Bool-cases, ◌∙◌, ap,
}
use mathlib.Core.List.{append-nil, append_assoc}

pub data Attribute : Type 0 where
  sleepns lastdelta ticks seeds : Attribute

-- What the module has put into sysfs: the kobject "deltats" and its files, the newest last.
pub record Sysfs : Type 0 where
  pub kobject : Bool
  pub files : List Attribute

abbrev pub enomem : ℕ
enomem = 12

abbrev add_file : Sysfs → Attribute → Sysfs
add_file s a = record s { files = s.files ++ a ∷ [] }

module _ (create : Attribute → ℕ) where
  -- `if ((error = sysfs_create_file(...))) goto err;` for the files in turn. An error is given as
  -- its number, so that 0 is success and n stands for -n.
  pub create_files : List Attribute → Sysfs → Sysfs × ℕ
  create_files [] s = (s, 0)
  create_files (a ∷ more) s =
      let rest = create_files more (add_file s a) in if create a == 0 then rest else (s, create a)

  -- Whether `kobject_create_and_add` gives a kobject, and what each file's creation returns, is up
  -- to the kernel.
  unfoldable pub mymodule_init : (allocated : Bool) → Sysfs × ℕ
  unfolding create_files
  mymodule_init false = (record { kobject = false; files = [] }, enomem)
  mymodule_init true =
      create_files (sleepns ∷ lastdelta ∷ ticks ∷ seeds ∷ [])
        (record { kobject = true; files = [] })

-- `kobject_put` drops the last reference, and the files go with it.
pub mymodule_exit : Sysfs → Sysfs
mymodule_exit s = record { kobject = false; files = [] }

module _ (create : Attribute → ℕ) where
  -- All of these files can be created.
  abbrev pub AllCreated : List Attribute → Type 0
  AllCreated [] = Unit
  AllCreated (a ∷ files) = (create a ≡ 0) × AllCreated files

  -- The creation of files stops at the first error, with those before it in place.
  pub record StopsAt (all : List Attribute) (s : Sysfs) (r : Sysfs × ℕ) : Type 0 where
    pub before : List Attribute
    pub failing : Attribute
    pub after : List Attribute
    pub parts : before ++ failing ∷ after ≡ all
    pub created : AllCreated before
    pub error : r.1 ≡ create failing
    pub fails : create failing ≢ 0
    pub keeps : r.0 ≡ record s { files = s.files ++ before }

  create_files-StopsAt :
      (all : List Attribute) (s : Sysfs)
      → AllCreated all × (create_files create all s ≡ (record s { files = s.files ++ all }, 0))
        ⊎ StopsAt all s (create_files create all s)
  unfolding create_files
  create_files-StopsAt [] s = inl (tt, rw append-nil)
  create_files-StopsAt (a ∷ more) s = elim (Bool-cases (create a == 0)) [
    | inl e ↦ elim (create_files-StopsAt more (add_file s a)) [
      | inl (created, done) ↦ inl ((ground arith, created), rw e (done ∙ rw append_assoc))
      | inr st ↦ inr (
          rw e (record {
            before = a ∷ st.before;
            failing = st.failing;
            after = st.after;
            parts = ap (λ l. a ∷ l) st.parts;
            created = (ground arith, st.created);
            error = st.error;
            fails = st.fails;
            keeps = st.keeps ∙ rw append_assoc;
          }))
    ]
    | inr e ↦ inr (
        rw e (record {
          before = [];
          failing = a;
          after = more;
          parts = refl;
          created = tt;
          error = refl;
          fails = ground arith;
          keeps = rw append-nil;
        }))
  ]

  abbrev all_files : List Attribute
  all_files = sleepns ∷ lastdelta ∷ ticks ∷ seeds ∷ []

  -- With a kobject allocated, loading succeeds with all four files in place if each can be created;
  -- otherwise it returns the first error with the kobject and the files before the failing one left in
  -- sysfs.
  pub mymodule_init_outcomes :
      AllCreated all_files
        × (mymodule_init create true ≡ (record { kobject = true; files = all_files }, 0))
      ⊎ StopsAt all_files (record { kobject = true; files = [] }) (mymodule_init create true)
  unfolding mymodule_init
  mymodule_init_outcomes = create_files-StopsAt all_files (record { kobject = true; files = [] })
