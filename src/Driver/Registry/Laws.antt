-- ===== src/Driver/Registry/Laws.antt =====
-- Lemmas on `INSTANCES` and on booting.
use pglite4j.Prelude.{
  ℕ, ◌<◌, ◌≡◌, refl, ap, sym, ◌∙◌, ℤ, true, false, none, some, ◌==◌, Bool-cases, update, ◌⊎◌, inl,
  inr, arith, if◌then◌else◌, Option-cases,
}
use pglite4j.Prelude.Text.{CString, same_text, same_text_sound, same_text_refl}
use pglite4j.Driver.Registry.{
  Managed, Registry, Jdk, Machine, Booted, booted, boot_failed, boot, remember, instance_for,
  with_started, is_memory, dir_of, close_and_evict,
}

-- The registry with an instance under a path.
abbrev pub with_instance : CString → Managed → Registry → Registry
with_instance path inst r = record r {
  instances = λ p. if same_text p path then some inst else r.instances p;
}

-- The scheduler takes the interval of a path that has one.
unfoldable pub Schedules : Jdk → (path : CString) → (interval : ℤ) → Type 0
Schedules jdk path interval = is_memory path ≡ false → jdk.schedules interval ≡ true

abbrev pub registry_after : Booted → Registry
registry_after (booted _ r) = r
registry_after (boot_failed r) = r

-- A boot leaves all as it is, or there is one more instance, the one that it gives.
boot-cases :
    (jdk : Jdk)
    → (m : Machine) → (path : CString) → (interval : ℤ) → (r : Registry)
    → Schedules jdk path interval
    → (boot jdk m path interval r ≡ boot_failed r)
      ⊎ ((port : ℕ) × boot jdk m path interval r
            ≡ booted (record { id = r.made; port = port; data_dir = dir_of path }) (with_started r))
unfolding boot Schedules
boot-cases jdk m path interval r taken = elim (Bool-cases m.builds) [
  | inr fails ↦ inl (rw fails refl)
  | inl builds ↦ elim (Option-cases m.opens) [
    | inl shut ↦ inl (rw builds (rw shut refl))
    | inr (port, opens) ↦ elim (Bool-cases (is_memory path)) [
      | inl memory ↦ inr (port, ground (arith, builds, opens, memory))
      | inr dir ↦ inr (port, ground (arith, builds, opens, dir, taken dir))
    ]
  ]
]

-- Which instances run is what the map says, and no two paths have one instance.
pub record IsTidy (r : Registry) : Type 0 where
  pub runs :
      (path : CString) (inst : Managed) → r.instances path ≡ some inst → r.running inst.id ≡ true
  pub owned :
      (i : ℕ)
      → r.running i ≡ true
      → (path : CString) × ((inst : Managed) × ((r.instances path ≡ some inst) × (inst.id ≡ i)))
  pub apart :
      (p q : CString) (a b : Managed)
      → r.instances p ≡ some a
      → r.instances q ≡ some b
      → a.id ≡ b.id
      → p ≡ q
  pub below : (i : ℕ) → r.running i ≡ true → i < r.made
  pub placed :
      (path : CString) (inst : Managed) → r.instances path ≡ some inst → inst.data_dir ≡ dir_of path

abbrev pub empty_registry : Registry
empty_registry = record { instances = λ _. none; running = λ _. false; made = 0 }

-- A lookup in the map with one more instance.
with_instance-cases :
    (path : CString) (inst : Managed) (r : Registry) (p : CString) (a : Managed)
    → (with_instance path inst r).instances p ≡ some a
    → ((p ≡ path) × (inst ≡ a)) ⊎ (r.instances p ≡ some a)
with_instance-cases path inst r p a found = elim (Bool-cases (same_text p path)) [
  | inl same ↦ inl (same_text_sound p path same, ground arith)
  | inr other ↦ inr ground arith
]

with_instance-here :
    (path : CString) (inst : Managed) (r : Registry)
    → (with_instance path inst r).instances path ≡ some inst
with_instance-here path inst r = rw (same_text_refl path) refl

with_instance-old :
    (path : CString) (inst : Managed) (r : Registry) (p : CString) (a : Managed)
    → r.instances path ≡ none
    → r.instances p ≡ some a
    → (with_instance path inst r).instances p ≡ some a
with_instance-old path inst r p a fresh found = elim (Bool-cases (same_text p path)) [
  | inl same ↦
      let e : p ≡ path = same_text_sound p path same in absurd (ground (arith, fresh, found, e))
  | inr other ↦ ground (arith, other, found)
]

IsTidy-added :
    (path : CString) (inst : Managed) (r : Registry)
    → IsTidy r
    → r.instances path ≡ none
    → inst.id ≡ r.made
    → inst.data_dir ≡ dir_of path
    → IsTidy (with_instance path inst (with_started r))
IsTidy-added path inst r tidy fresh new dir = record {
  runs = λ p a found. elim (with_instance-cases path inst (with_started r) p a found) [
    | inl (_, e) ↦ ground (arith, e, new)
    | inr old ↦ ground (arith, tidy.runs p a old)
  ];
  owned = λ i on. elim (Bool-cases (i == r.made)) [
    | inl is_new ↦
        (path, (inst, (with_instance-here path inst (with_started r), ground (arith, new, is_new))))
    | inr is_old ↦
        let (p, (a, (found, e))) = tidy.owned i (ground (arith, on, is_old)) in
        (p, (a, (with_instance-old path inst (with_started r) p a fresh found, e)))
  ];
  apart = λ p q a b at_p at_q e. elim (with_instance-cases path inst (with_started r) p a at_p) [
    | inl (x, new_a) ↦ elim (with_instance-cases path inst (with_started r) q b at_q) [
      | inl (y, _) ↦ x ∙ sym y
      | inr y ↦ absurd (ground (arith, tidy.below b.id (tidy.runs q b y), new_a, new, e))
    ]
    | inr x ↦ elim (with_instance-cases path inst (with_started r) q b at_q) [
      | inl (_, new_b) ↦ absurd (ground (arith, tidy.below a.id (tidy.runs p a x), new_b, new, e))
      | inr y ↦ tidy.apart p q a b x y e
    ]
  ];
  below = λ i on. ground (arith, on, tidy.below i);
  placed = λ p a found. elim (with_instance-cases path inst (with_started r) p a found) [
    | inl (x, e) ↦ sym (ap (λ z. z.data_dir) e) ∙ dir ∙ ap (λ z. dir_of z) (sym x)
    | inr old ↦ tidy.placed p a old
  ];
}

-- The registry without the instance of a path.
abbrev pub without_instance : CString → Managed → Registry → Registry
without_instance path inst r = record r {
  instances = λ p. if same_text p path then none else r.instances p;
  running = update r.running inst.id false;
}

without_instance-old :
    (path : CString) (inst : Managed) (r : Registry) (p : CString) (a : Managed)
    → (without_instance path inst r).instances p ≡ some a
    → (same_text p path ≡ false) × (r.instances p ≡ some a)
without_instance-old path inst r p a found = elim (Bool-cases (same_text p path)) [
  | inl same ↦ absurd (ground (arith, found, same))
  | inr other ↦ (other, ground (arith, found, other))
]

IsTidy-removed :
    (path : CString) (inst : Managed) (r : Registry)
    → IsTidy r
    → r.instances path ≡ some inst
    → IsTidy (without_instance path inst r)
IsTidy-removed path inst r tidy at_path = record {
  runs = λ p a found.
      let (other, old) = without_instance-old path inst r p a found in
      elim (Bool-cases (a.id == inst.id)) [
        | inl same ↦
            absurd (
              ground
                (arith, other, tidy.apart p path a inst old at_path, same, same_text_refl path))
        | inr different ↦ ground (arith, tidy.runs p a old, different)
      ];
  owned = λ i on.
      let (p, (a, (found, e))) = tidy.owned i (ground (arith, on)) in
      elim (Bool-cases (same_text p path)) [
        | inl same ↦
            let here : r.instances path ≡ some a =
              ap (λ z. r.instances z) (sym (same_text_sound p path same)) ∙ found in
            absurd (ground (arith, here, at_path, e, on))
        | inr other ↦ (p, (a, (ground (arith, found, other), e)))
      ];
  apart = λ p q a b at_p at_q e.
      tidy.apart p q a b ((without_instance-old path inst r p a at_p).1)
        ((without_instance-old path inst r q b at_q).1) e;
  below = λ i on. tidy.below i (ground (arith, on));
  placed = λ p a found. tidy.placed p a ((without_instance-old path inst r p a found).1);
}

pub close_and_evict-IsTidy :
    (path : CString) (r : Registry) → IsTidy r → IsTidy (close_and_evict path r)
unfolding close_and_evict
close_and_evict-IsTidy path r tidy = elim (Option-cases (r.instances path)) [
  | inl fresh ↦ rw (fresh, close_and_evict) tidy
  | inr (inst, at_path) ↦ rw (at_path, close_and_evict) (IsTidy-removed path inst r tidy at_path)
]

pub instance_for-old :
    (jdk : Jdk) (m : Machine) (path : CString) (interval : ℤ) (r : Registry) (inst : Managed)
    → r.instances path ≡ some inst
    → instance_for jdk m path interval r ≡ booted inst r
unfolding instance_for
instance_for-old jdk m path interval r inst found = rw (found, instance_for) refl

-- A boot that ends well has put its instance in the map.
unfoldable pub IsRemembered : (path : CString) → Booted → Type 0
IsRemembered path (boot_failed r) = Unit
IsRemembered path (booted inst r) = r.instances path ≡ some inst

remember-IsRemembered : (path : CString) (b : Booted) → IsRemembered path (remember path b)
unfolding IsRemembered
remember-IsRemembered path (boot_failed r) = tt
remember-IsRemembered path (booted inst r) = with_instance-here path inst r

pub instance_for-IsRemembered :
    (jdk : Jdk) (m : Machine) (path : CString) (interval : ℤ) (r : Registry)
    → IsRemembered path (instance_for jdk m path interval r)
unfolding instance_for IsRemembered
instance_for-IsRemembered jdk m path interval r = elim (Option-cases (r.instances path)) [
  | inl fresh ↦ rw (fresh, instance_for) (remember-IsRemembered path (boot jdk m path interval r))
  | inr (old, found) ↦ rw (instance_for-old jdk m path interval r old found) found
]

-- A path that is not in the map stays so, or it has the one instance that is made for it.
instance_for-new :
    (jdk : Jdk) (m : Machine) (path : CString) (interval : ℤ) (r : Registry)
    → Schedules jdk path interval
    → r.instances path ≡ none
    → (instance_for jdk m path interval r ≡ boot_failed r)
      ⊎ ((inst : Managed) × ((instance_for jdk m path interval r
              ≡ booted inst (with_instance path inst (with_started r)))
            × ((inst.id ≡ r.made) × (inst.data_dir ≡ dir_of path))))
unfolding instance_for
instance_for-new jdk m path interval r taken fresh = elim (boot-cases jdk m path interval r taken) [
  | inl fails ↦ inl (rw (fresh, instance_for) (rw fails refl))
  | inr (port, e) ↦ inr (
    record { id = r.made; port = port; data_dir = dir_of path },
    (rw (fresh, instance_for) (rw e refl), (refl, refl)),
  )
]

pub instance_for-IsTidy :
    (jdk : Jdk) (m : Machine) (path : CString) (interval : ℤ) (r : Registry)
    → Schedules jdk path interval
    → IsTidy r
    → IsTidy (registry_after (instance_for jdk m path interval r))
instance_for-IsTidy jdk m path interval r taken tidy = elim (Option-cases (r.instances path)) [
  | inr (inst, found) ↦ rw (instance_for-old jdk m path interval r inst found) tidy
  | inl fresh ↦ elim (instance_for-new jdk m path interval r taken fresh) [
    | inl fails ↦ rw fails tidy
    | inr (inst, (e, (new, dir))) ↦ rw e (IsTidy-added path inst r tidy fresh new dir)
  ]
]
