-- ===== src/Witnesses/Registry.antt =====
-- Connections to a directory and to memory.
use mathlib.Core.Path.{refl, ◌≡◌}
use pglite4j.Prelude.{ℤ, pos, negsuc, Bool, true, false, none, some, if◌then◌else◌, suc, arith}
use pglite4j.Prelude.Text.{CString, codes, same_text}
use pglite4j.Prelude.Decimal.{decimal}
use pglite4j.Driver.Registry.{
  Registry, Jdk, Machine, Properties, connect, connects, throws, connection_properties,
  close_and_evict, backup_interval, instance_for, boot, pg_url,
}
use pglite4j.Driver.Registry.Laws.{IsTidy, empty_registry, Schedules}
use pglite4j.Driver.Registry.Tidy.{
  Reaches, begins, connected, evicted, Reaches-IsTidy, connect-connect, connect-IsLost, IsLost,
  IsScheduled,
}
use pglite4j.Driver.Registry.Settings.{connection_properties_lem}

abbrev jdk : Jdk
jdk = record {
  parse_long = λ s.
      if same_text s (codes "60")
      then some (pos 60)
      else if same_text s (codes "-1")
      then some (negsuc 0)
      else none;
  schedules = positive;
}
  where
    positive : ℤ → Bool
    positive (pos (suc _)) = true
    positive _ = false

abbrev machine : Machine
machine = record { builds = true; opens = some 5432 }

abbrev shop : CString
shop = codes "jdbc:pglite:shop.zip"

abbrev in_memory : CString
in_memory = codes "jdbc:pglite:memory:a"

abbrev shopper : Properties
shopper key =
    if same_text key (codes "user")
    then some (codes "anna")
    else if same_text key (codes "sslmode")
    then some (codes "require")
    else if same_text key (codes "pgliteBackupIntervalSeconds")
    then some (codes "-1")
    else none

shop-IsScheduled : IsScheduled jdk shop none
unfolding IsScheduled Schedules backup_interval same_text
shop-IsScheduled interval e dir = ground (arith, e)

in_memory-IsScheduled : IsScheduled jdk in_memory none
unfolding IsScheduled Schedules
in_memory-IsScheduled interval e dir = absurd (ground (arith, dir))

abbrev after_all : Registry
after_all =
    (connect jdk machine (some in_memory) none (
      close_and_evict (codes "shop.zip")
        ((connect jdk machine (some shop) none empty_registry).1))).1

abbrev way : Reaches jdk after_all
way =
    connected machine in_memory none in_memory-IsScheduled
      (evicted (codes "shop.zip") (connected machine shop none shop-IsScheduled begins))

Reaches-IsTidy_example : IsTidy after_all
Reaches-IsTidy_example = Reaches-IsTidy jdk after_all way

abbrev after_shop : Registry
after_shop = (connect jdk machine (some shop) none empty_registry).1

connect-connect_example :
    connect jdk (record { builds = false; opens = none }) (some shop) (some shopper) after_shop ≡ (
      connects
          (codes "jdbc:postgresql://127.0.0.1:5432/template1")
          (connection_properties (some shopper)),
      after_shop,
    )
unfolding connect instance_for boot pg_url backup_interval same_text decimal
connect-connect_example =
    connect-connect jdk machine (record { builds = false; opens = none }) shop
      (codes "jdbc:postgresql://127.0.0.1:5432/template1") none (some shopper)
      (connection_properties none) (negsuc 0) empty_registry after_shop refl refl

connection_properties_lem_example :
    connection_properties (some shopper) (codes "sslmode") ≡ some (codes "disable")
unfolding same_text
connection_properties_lem_example = connection_properties_lem (some shopper) (codes "sslmode")

empty_registry-IsTidy : IsTidy empty_registry
empty_registry-IsTidy = Reaches-IsTidy jdk empty_registry begins

connect-IsLost_example :
    ((connect jdk machine (some shop) (some shopper) empty_registry).0 ≡ throws)
    × IsLost 0 ((connect jdk machine (some shop) (some shopper) empty_registry).1)
unfolding backup_interval same_text
connect-IsLost_example =
    connect-IsLost jdk machine shop (some shopper) (negsuc 0) 5432 empty_registry refl refl refl
      refl refl refl refl empty_registry-IsTidy
