-- ===== src/Driver/Registry.antt =====
-- `connect` and `closeAndEvict` of PgLiteDriver.java, with the instances that they boot and close.
pub mod Laws
pub mod Tidy
pub mod Settings
use pglite4j.Prelude.{
  ℕ, ◌+◌, ◌-◌, ◌≡◌, ◌≤◌, ℤ, Bool, true, false, Option, none, some, List, [], ◌∷◌, ◌++◌, length,
  drop, if◌then◌else◌, update,
}
use pglite4j.Prelude.Text.{CString, codes, same_text}
use pglite4j.Prelude.Decimal.{decimal}
use pglite4j.DataDir.{starts_with}

-- java.util.Properties that have no defaults.
abbrev pub Properties : Type 0
Properties = CString → Option CString

unfoldable pub set_property : CString → CString → Properties → Properties
set_property key value props = λ k. if same_text k key then some value else props k

unfoldable pub put_if_absent : CString → CString → Properties → Properties
unfolding set_property
put_if_absent key value props = elim (props key) [
  | none ↦ set_property key value props
  | some _ ↦ props
]

-- `id` tells the instances of a `ManagedInstance` apart.
pub record Managed : Type 0 where
  pub id : ℕ
  pub port : ℕ
  pub data_dir : Option CString

-- INSTANCES, which of all instances that were made are running, and how many were made.
pub record Registry : Type 0 where
  pub instances : CString → Option Managed
  pub running : ℕ → Bool
  pub made : ℕ

-- What is asked of the JDK: `Long.parseLong`, and the periods that a scheduler takes.
pub record Jdk : Type 0 where
  pub parse_long : CString → Option ℤ
  pub schedules : ℤ → Bool

-- How the calls of a boot end: whether PGLite is built, for a path that is one, and the port of the
-- server socket.
pub record Machine : Type 0 where
  pub builds : Bool
  pub opens : Option ℕ

pub data Booted : Type 0 where
  booted : Managed → Registry → Booted
  boot_failed : Registry → Booted

abbrev pub is_memory : CString → Bool
is_memory path = starts_with path (codes "memory:")

abbrev pub dir_of : CString → Option CString
dir_of path = if is_memory path then none else some path

-- An instance that runs, though it is in no map.
abbrev pub with_started : Registry → Registry
with_started r = record r { running = update r.running r.made true; made = r.made + 1 }

-- An exception after the accept thread has started closes nothing.
unfoldable pub boot : Jdk → Machine → (path : CString) → (interval : ℤ) → Registry → Booted
boot jdk machine path interval r =
    if machine.builds
    then elim (machine.opens) [
      | none ↦ boot_failed r
      | some port ↦
          let inst : Managed = record { id = r.made; port = port; data_dir = dir_of path } in
          if is_memory path
          then booted inst (with_started r)
          else if jdk.schedules interval
          then booted inst (with_started r)
          else boot_failed (with_started r)
    ]
    else boot_failed r

abbrev pub remember : (path : CString) → Booted → Booted
remember path (boot_failed r) = boot_failed r
remember path (booted inst r) =
    booted inst
      (record r { instances = λ p. if same_text p path then some inst else r.instances p })

-- INSTANCES.computeIfAbsent
unfoldable pub instance_for : Jdk → Machine → (path : CString) → (interval : ℤ) → Registry → Booted
unfolding boot
instance_for jdk machine path interval r = elim (r.instances path) [
  | some inst ↦ booted inst r
  | none ↦ remember path (boot jdk machine path interval r)
]

abbrev pub url_prefix : CString
url_prefix = codes "jdbc:pglite:"

-- A null url is `none`.
abbrev pub accepts_url : Option CString → Bool
accepts_url none = false
accepts_url (some url) = starts_with url url_prefix

-- The properties of the connection to PostgreSQL.
unfoldable pub connection_properties : Option Properties → Properties
unfolding set_property put_if_absent
connection_properties info =
    let given : Properties = elim info [ none ↦ (λ _. none) | some props ↦ props ] in
    let with_user = put_if_absent (codes "user") (codes "postgres") given in
    let with_password = put_if_absent (codes "password") (codes "password") with_user in
    let no_ssl = set_property (codes "sslmode") (codes "disable") with_password in
    let no_gss = set_property (codes "gssEncMode") (codes "disable") no_ssl in
    let unnamed = set_property (codes "prepareThreshold") (codes "0") no_gss in
    put_if_absent (codes "connectTimeout") (codes "60") unnamed

-- The seconds between two backups; `none` is an exception.
unfoldable pub backup_interval : Jdk → Option Properties → Option ℤ
backup_interval jdk none = jdk.parse_long (codes "60")
backup_interval jdk (some props) = elim (props (codes "pgliteBackupIntervalSeconds")) [
  | none ↦ jdk.parse_long (codes "60")
  | some text ↦ jdk.parse_long text
]

-- `connects` is the call of PostgreSQL's own driver.
pub data Connected : Type 0 where
  no_connection throws : Connected
  connects : (pg_url : CString) → Properties → Connected

unfoldable pub pg_url : (port : ℕ) → CString
pg_url port = codes "jdbc:postgresql://127.0.0.1:" ++ decimal port ++ codes "/template1"

abbrev pub answer_of : Option Properties → Booted → Connected × Registry
answer_of info (boot_failed r) = (throws, r)
answer_of info (booted inst r) = (connects (pg_url inst.port) (connection_properties info), r)

unfoldable pub connect :
    Jdk
    → Machine
    → (url : Option CString) → (info : Option Properties) → Registry
    → Connected × Registry
unfolding instance_for backup_interval
connect jdk machine none info r = (no_connection, r)
connect jdk machine (some url) info r =
    if accepts_url (some url)
    then elim (backup_interval jdk info) [
      | none ↦ (throws, r)
      | some interval ↦
          answer_of info (instance_for jdk machine (drop (length url_prefix) url) interval r)
    ]
    else (no_connection, r)

-- `closeAndEvict`; a closed instance runs no longer.
unfoldable pub close_and_evict : (path : CString) → Registry → Registry
close_and_evict path r = elim (r.instances path) [
  | none ↦ r
  | some inst ↦ record r {
    instances = λ p. if same_text p path then none else r.instances p;
    running = update r.running inst.id false;
  }
]
