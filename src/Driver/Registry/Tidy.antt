-- ===== src/Driver/Registry/Tidy.antt =====
-- What the calls of `connect` and `closeAndEvict` make of INSTANCES.
use mathlib.Core.Path.{subst}
use pglite4j.Prelude.{
  ℕ, ◌≡◌, ◌≢◌, refl, ap, ◌∙◌, ℤ, true, false, Option, none, some, Bool-cases, inl, inr, arith,
  Option-cases, length, drop,
}
use pglite4j.Prelude.Text.{CString}
use pglite4j.Driver.Registry.{
  Managed, Registry, Jdk, Machine, Booted, booted, boot_failed, instance_for, boot, is_memory,
  with_started, close_and_evict, Properties, connect, Connected, connects, throws, no_connection,
  backup_interval, answer_of, accepts_url, url_prefix, pg_url, connection_properties,
}
use pglite4j.Driver.Registry.Laws.{
  IsTidy, Schedules, registry_after, empty_registry, close_and_evict-IsTidy, instance_for-IsTidy,
  instance_for-IsRemembered, instance_for-old, IsRemembered,
}

-- The scheduler takes the interval that the properties ask for, where the url has a directory.
unfoldable pub IsScheduled : Jdk → (url : CString) → (info : Option Properties) → Type 0
IsScheduled jdk url info =
    (interval : ℤ)
    → backup_interval jdk info ≡ some interval
    → Schedules jdk (drop (length url_prefix) url) interval

connect-booted :
    (jdk : Jdk) (m : Machine) (url : CString) (info : Option Properties) (interval : ℤ)
    (r : Registry)
    → accepts_url (some url) ≡ true
    → backup_interval jdk info ≡ some interval
    → connect jdk m (some url) info r
      ≡ answer_of info (instance_for jdk m (drop (length url_prefix) url) interval r)
unfolding connect
connect-booted jdk m url info interval r ours e = rw (ours, e, connect) refl

answer_of-IsTidy :
    (info : Option Properties) (b : Booted)
    → IsTidy (registry_after b)
    → IsTidy ((answer_of info b).1)
answer_of-IsTidy info (booted _ _) tidy = tidy
answer_of-IsTidy info (boot_failed _) tidy = tidy

connect-IsTidy :
    (jdk : Jdk) (m : Machine) (url : CString) (info : Option Properties) (r : Registry)
    → IsScheduled jdk url info
    → IsTidy r
    → IsTidy ((connect jdk m (some url) info r).1)
unfolding connect IsScheduled
connect-IsTidy jdk m url info r taken tidy = elim (Bool-cases (accepts_url (some url))) [
  | inr other ↦ rw other tidy
  | inl ours ↦ elim (Option-cases (backup_interval jdk info)) [
    | inl wrong ↦ rw (ours, wrong, connect) tidy
    | inr (interval, e) ↦
        let path : CString = drop (length url_prefix) url in
        let kept : IsTidy (registry_after (instance_for jdk m path interval r)) =
          instance_for-IsTidy jdk m path interval r (taken interval e) tidy in
        rw (connect-booted jdk m url info interval r ours e)
          (answer_of-IsTidy info (instance_for jdk m path interval r) kept)
  ]
]

-- The registries that calls lead to, from the one that the driver starts with.
pub data Reaches (jdk : Jdk) : Registry → Type 0 where
  begins : Reaches jdk empty_registry
  connected :
      {r : Registry}
      → (m : Machine) → (url : CString) → (info : Option Properties) → IsScheduled jdk url info
      → Reaches jdk r
      → Reaches jdk ((connect jdk m (some url) info r).1)
  evicted : {r : Registry} → (path : CString) → Reaches jdk r → Reaches jdk (close_and_evict path r)

-- Whatever connects, evictions and boots that fail come before, as long as the scheduler takes the
-- interval of each connect whose url has a directory: an instance runs exactly if it is in
-- INSTANCES, two paths never have the same instance, and a path has the directory that its name says.
pub Reaches-IsTidy : (jdk : Jdk) (r : Registry) → Reaches jdk r → IsTidy r
Reaches-IsTidy jdk _ begins = record {
  runs = λ p a found. absurd (ground (arith, found));
  owned = λ i on. absurd (ground (arith, on));
  apart = λ p q a b found. absurd (ground (arith, found));
  below = λ i on. absurd (ground (arith, on));
  placed = λ p a found. absurd (ground (arith, found));
}
Reaches-IsTidy jdk _ (connected {r} m url info taken before) =
    connect-IsTidy jdk m url info r taken (Reaches-IsTidy jdk r before)
Reaches-IsTidy jdk _ (evicted {r} path before) =
    close_and_evict-IsTidy path r (Reaches-IsTidy jdk r before)

-- What an answer says of a later call: the instance of its path is in the map.
unfoldable pub Remembers : (url : CString) → Connected × Registry → Type 0
Remembers url (no_connection, r) = Unit
Remembers url (throws, r) = Unit
Remembers url (connects pg props, r) =
    (accepts_url (some url) ≡ true)
    × ((inst : Managed) × ((r.instances (drop (length url_prefix) url) ≡ some inst)
          × (pg_url inst.port ≡ pg)))

answer_of-Remembers :
    (info : Option Properties) (url : CString) (b : Booted)
    → accepts_url (some url) ≡ true
    → IsRemembered (drop (length url_prefix) url) b
    → Remembers url (answer_of info b)
unfolding Remembers IsRemembered
answer_of-Remembers info url (boot_failed _) ours h = tt
answer_of-Remembers info url (booted inst r) ours h = (ours, (inst, (h, refl)))

connect-Remembers :
    (jdk : Jdk) (m : Machine) (url : CString) (info : Option Properties) (r : Registry)
    → Remembers url (connect jdk m (some url) info r)
unfolding connect Remembers
connect-Remembers jdk m url info r = elim (Bool-cases (accepts_url (some url))) [
  | inr other ↦ rw (other, connect) tt
  | inl ours ↦ elim (Option-cases (backup_interval jdk info)) [
    | inl wrong ↦ rw (ours, wrong, connect) tt
    | inr (interval, e) ↦
        let path : CString = drop (length url_prefix) url in
        rw (connect-booted jdk m url info interval r ours e) (
          answer_of-Remembers info url (instance_for jdk m path interval r) ours
            (instance_for-IsRemembered jdk m path interval r))
  ]
]

-- After a connect that gave a connection, another one with the same url, whatever its properties,
-- as long as its interval can be parsed, goes to the same server and boots nothing, though no boot
-- might succeed any more.
pub connect-connect :
    (jdk : Jdk) (m m' : Machine) (url pg : CString) (info info' : Option Properties)
    (props : Properties) (interval : ℤ) (r r' : Registry)
    → connect jdk m (some url) info r ≡ (connects pg props, r')
    → backup_interval jdk info' ≡ some interval
    → connect jdk m' (some url) info' r' ≡ (connects pg (connection_properties info'), r')
unfolding Remembers
connect-connect jdk m m' url pg info info' props interval r r' first e =
    let known : Remembers url (connects pg props, r') =
      subst (λ a. Remembers url a) first (connect-Remembers jdk m url info r) in
    let (ours, (inst, (found, port))) = known in
    connect-booted jdk m' url info' interval r' ours e
    ∙ ap (λ b. answer_of info' b)
        (instance_for-old jdk m' (drop (length url_prefix) url) interval r' inst found)
    ∙ ap (λ u. (connects u (connection_properties info'), r')) port

connect-unscheduled :
    (jdk : Jdk) (m : Machine) (url : CString) (info : Option Properties) (interval : ℤ) (port : ℕ)
    (r : Registry)
    → accepts_url (some url) ≡ true
    → backup_interval jdk info ≡ some interval
    → r.instances (drop (length url_prefix) url) ≡ none
    → is_memory (drop (length url_prefix) url) ≡ false
    → m.builds ≡ true
    → m.opens ≡ some port
    → jdk.schedules interval ≡ false
    → connect jdk m (some url) info r ≡ (throws, with_started r)
unfolding instance_for boot
connect-unscheduled jdk m url info interval port r ours e fresh dir builds opens refused =
    let lost : instance_for jdk m (drop (length url_prefix) url) interval r
        ≡ boot_failed (with_started r) =
      rw (fresh, instance_for) (rw (builds, boot) (rw opens (rw dir (rw refused refl)))) in
    connect-booted jdk m url info interval r ours e ∙ ap (λ b. answer_of info b) lost

-- An instance that no path has.
unfoldable pub IsLost : ℕ → Registry → Type 0
IsLost i r =
    (r.running i ≡ true)
    × ((path : CString) (inst : Managed) → r.instances path ≡ some inst → inst.id ≢ i)

with_started-IsLost : (r : Registry) → IsTidy r → IsLost r.made (with_started r)
unfolding IsLost
with_started-IsLost r tidy = (
  ground arith,
  λ path inst found e. ground (arith, tidy.below inst.id (tidy.runs path inst found), e),
)

-- Where a boot succeeds but for an interval that the scheduler refuses, a connect to a directory
-- throws, and leaves an instance that runs and that no path has, so that no eviction closes it.
pub connect-IsLost :
    (jdk : Jdk) (m : Machine) (url : CString) (info : Option Properties) (interval : ℤ) (port : ℕ)
    (r : Registry)
    → accepts_url (some url) ≡ true
    → backup_interval jdk info ≡ some interval
    → r.instances (drop (length url_prefix) url) ≡ none
    → is_memory (drop (length url_prefix) url) ≡ false
    → m.builds ≡ true
    → m.opens ≡ some port
    → jdk.schedules interval ≡ false
    → IsTidy r
    → ((connect jdk m (some url) info r).0 ≡ throws)
      × IsLost r.made ((connect jdk m (some url) info r).1)
connect-IsLost jdk m url info interval port r ours e fresh dir builds opens refused tidy =
    rw (connect-unscheduled jdk m url info interval port r ours e fresh dir builds opens refused)
      (refl, with_started-IsLost r tidy)
