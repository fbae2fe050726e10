-- ===== src/Driver/Registry/Settings.antt =====
-- The properties of the connection to PostgreSQL.
use pglite4j.Prelude.{
  ◌≡◌, Option, none, some, if◌then◌else◌, Option-cases, inr, true, refl, inl, inr, ap, arith,
}
use pglite4j.Prelude.Text.{CString, codes, same_text, same_text_sound}
use pglite4j.Driver.Registry.{Properties, connection_properties, put_if_absent, set_property}

abbrev or_default : Option CString → Option CString → Option CString
or_default none d = d
or_default (some v) d = some v

-- What the client asks for.
abbrev asked : Option Properties → Properties
asked none = λ _. none
asked (some props) = props

abbrev default_of : Properties
default_of key =
    if same_text key (codes "user")
    then some (codes "postgres")
    else if same_text key (codes "password")
    then some (codes "password")
    else if same_text key (codes "connectTimeout")
    then some (codes "60")
    else none

same_here : (key k : CString) (props : Properties) → same_text k key ≡ true → props k ≡ props key
same_here key k props same = ap (λ z. props z) (same_text_sound k key same)

put_if_absent_lem :
    (key value : CString) (props : Properties) (k : CString)
    → put_if_absent key value props k
      ≡ (if same_text k key then or_default (props k) (some value) else props k)
unfolding put_if_absent set_property
put_if_absent_lem key value props k = elim (Option-cases (props key)) [
  | inl absent ↦
      rw (absent, put_if_absent)
        (ground (arith, absent, same_text_sound k key, same_here key k props))
  | inr (v, there) ↦ rw (there, put_if_absent) (ground (arith, there, same_here key k props))
]

set_property_lem :
    (key value : CString) (props : Properties) (k : CString)
    → set_property key value props k ≡ (if same_text k key then some value else props k)
unfolding set_property
set_property_lem key value props k = refl

-- The calls that fill the properties, at any names.
fill_lem :
    (u p s g n c : CString) (vu vp vs vg vn vc : CString) (props : Properties) (k : CString)
    → put_if_absent c vc
        (set_property n vn
          (set_property g vg (set_property s vs (put_if_absent p vp (put_if_absent u vu props)))))
        k
      ≡ (if same_text k n
          then some vn
          else if same_text k g
          then some vg
          else if same_text k s
          then some vs
          else or_default (props k) (
              if same_text k u
              then some vu
              else if same_text k p
              then some vp
              else if same_text k c
              then some vc
              else none))
fill_lem u p s g n c vu vp vs vg vn vc props k =
    let w1 : Properties = put_if_absent u vu props in
    let w2 : Properties = put_if_absent p vp w1 in
    let w3 : Properties = set_property s vs w2 in
    let w4 : Properties = set_property g vg w3 in
    let w5 : Properties = set_property n vn w4 in
    ground (
      arith,
      put_if_absent_lem u vu props k,
      put_if_absent_lem p vp w1 k,
      set_property_lem s vs w2 k,
      set_property_lem g vg w3 k,
      set_property_lem n vn w4 k,
      put_if_absent_lem c vc w5 k,
    )

-- What PostgreSQL's driver is asked for: `prepareThreshold`, `gssEncMode` and `sslmode` are the
-- driver's own whatever the client says, `user`, `password` and `connectTimeout` are the client's or
-- else the driver's, and every other property is the client's.
pub connection_properties_lem :
    (info : Option Properties) (key : CString)
    → connection_properties info key ≡ (
        if same_text key (codes "prepareThreshold")
        then some (codes "0")
        else if same_text key (codes "gssEncMode")
        then some (codes "disable")
        else if same_text key (codes "sslmode")
        then some (codes "disable")
        else or_default (asked info key) (default_of key))
unfolding connection_properties
connection_properties_lem info key =
    fill_lem (codes "user") (codes "password") (codes "sslmode") (codes "gssEncMode")
      (codes "prepareThreshold") (codes "connectTimeout") (codes "postgres") (codes "password")
      (codes "disable") (codes "disable") (codes "0") (codes "60") (asked info) key
