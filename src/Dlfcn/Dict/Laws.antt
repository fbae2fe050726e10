-- ===== src/Dlfcn/Dict/Laws.antt =====
-- The dictionary of wasm-build/wasm-build/sdk_port-wasi/sdk_port-wasi-dlfcn.c is a map from keys to
-- values, and writes inside its array.
use mathlib.Core.List.{append_assoc}
use pglite4j.Prelude.{
  ℕ, zero, suc, ◌+◌, ◌≤◌, ◌<◌, ◌≡◌, refl, sym, ◌∙◌, inl, inr, false, Option, none, some, List, [],
  ◌∷◌, ◌++◌, arith, if◌then◌else◌, length, get_elem?, set, ℤ, pos, negsuc, length-append,
  length-set, Option-cases,
}
use pglite4j.Prelude.Text.{CString, same_text, same_text_iff}
use pglite4j.Dlfcn.Dict.{
  DictEntry, dict_entry, Dict, find_loop, dict_find_index, dict_find, grown, dict_add, dict_new,
}

-- The index of the first entry with the key.
abbrev pub index_of : (key : CString) → List DictEntry → Option ℕ
index_of key [] = none
index_of key (e ∷ es) =
    if same_text e.key key
    then some 0
    else elim (index_of key es) [ none ↦ none | some i ↦ some (suc i) ]

-- The value of a key, as a map.
abbrev pub value_of : (key : CString) (def : ℤ) → List DictEntry → ℤ
value_of key def [] = def
value_of key def (e ∷ es) = if same_text e.key key then e.value else value_of key def es

-- No key stands twice.
abbrev pub AreDistinct : List DictEntry → Type 0
AreDistinct [] = Unit {0}
AreDistinct (e ∷ es) = (index_of e.key es ≡ none) × AreDistinct es

-- `len` counts the entries, which fit the array, and no key stands twice.
pub record IsDict (d : Dict) : Type 0 where
  pub counted : d.len ≡ length d.entry
  pub within : d.len ≤ d.cap
  pub room : 0 < d.cap
  pub distinct : AreDistinct d.entry

-- The index as the C function returns it, counted from `i`.
abbrev pub as_int : ℕ → Option ℕ → ℤ
as_int i none = negsuc 0
as_int i (some k) = pos (i + k)

get_elem?-middle :
    (start es : List DictEntry) (e : DictEntry) (i : ℕ)
    → i ≡ length start
    → get_elem? (start ++ e ∷ es) i ≡ some e
get_elem?-middle [] es e zero h = refl
get_elem?-middle [] es e (suc i) h = absurd (omega arith)
get_elem?-middle (x ∷ start) es e zero h = absurd (omega arith)
get_elem?-middle (x ∷ start) es e (suc i) h = get_elem?-middle start es e i (omega arith)

find_loop-eq :
    (key : CString) (es start : List DictEntry) (i : ℕ)
    → i ≡ length start
    → find_loop (length es) i key (start ++ es) ≡ some (as_int i (index_of key es))
unfolding find_loop
find_loop-eq key [] start i h = refl
find_loop-eq key (e ∷ es) start i h =
    let later : find_loop (length es) (i + 1) key (start ++ e ∷ es)
        ≡ some (as_int (i + 1) (index_of key es)) =
      rw (append_assoc start (e ∷ []) es) at (
        find_loop-eq key es (start ++ e ∷ []) (i + 1)
          (omega (arith, length-append start (e ∷ [])))) in
    ground (arith, get_elem?-middle start es e i h, later)

pub dict_find_index-eq :
    (d : Dict) (key : CString)
    → IsDict d
    → dict_find_index d key ≡ some (as_int 0 (index_of key d.entry))
unfolding dict_find_index
dict_find_index-eq d key ok = rw ok.counted (find_loop-eq key d.entry [] 0 refl)

-- What stands at the index of a key.
elem_at :
    (key : CString) (def : ℤ) (es : List DictEntry) (k : ℕ)
    → index_of key es ≡ some k
    → get_elem? es k ≡ some (dict_entry key (value_of key def es))
elem_at key def [] k h = cc
elem_at key def (e ∷ es) zero h = ground (arith, same_text_iff e.key key)
elem_at key def (e ∷ es) (suc k) h = ground (arith, elem_at key def es k)

value_of-absent :
    (key : CString) (def : ℤ) (es : List DictEntry)
    → index_of key es ≡ none
    → value_of key def es ≡ def
value_of-absent key def [] h = refl
value_of-absent key def (e ∷ es) h = ground (arith, value_of-absent key def es)

value_of-set :
    (key j : CString) (v def : ℤ) (es : List DictEntry) (k : ℕ)
    → index_of key es ≡ some k
    → value_of j def (set es k (dict_entry key v))
      ≡ (if same_text key j then v else value_of j def es)
value_of-set key j v def [] k h = cc
value_of-set key j v def (e ∷ es) zero h =
    ground (arith, same_text_iff e.key key, same_text_iff key j, same_text_iff e.key j)
value_of-set key j v def (e ∷ es) (suc k) h = ground (
  arith,
  value_of-set key j v def es k,
  same_text_iff e.key key,
  same_text_iff key j,
  same_text_iff e.key j,
)

value_of-append :
    (key j : CString) (v def : ℤ) (es : List DictEntry)
    → index_of key es ≡ none
    → value_of j def (es ++ dict_entry key v ∷ [])
      ≡ (if same_text key j then v else value_of j def es)
value_of-append key j v def [] h = refl
value_of-append key j v def (e ∷ es) h = ground (
  arith,
  value_of-append key j v def es,
  same_text_iff e.key key,
  same_text_iff key j,
  same_text_iff e.key j,
)

index_of-set :
    (key j : CString) (v : ℤ) (es : List DictEntry) (k : ℕ)
    → index_of key es ≡ some k
    → index_of j (set es k (dict_entry key v)) ≡ index_of j es
index_of-set key j v [] k h = cc
index_of-set key j v (e ∷ es) zero h = ground (arith, same_text_iff e.key key)
index_of-set key j v (e ∷ es) (suc k) h = ground (arith, index_of-set key j v es k)

AreDistinct-set :
    (key : CString) (v : ℤ) (es : List DictEntry) (k : ℕ)
    → index_of key es ≡ some k
    → AreDistinct es
    → AreDistinct (set es k (dict_entry key v))
AreDistinct-set key v [] k h d = cc
AreDistinct-set key v (e ∷ es) zero h d = (ground (arith, same_text_iff e.key key, d.0), d.1)
AreDistinct-set key v (e ∷ es) (suc k) h d = (
  ground (arith, index_of-set key e.key v es k, d.0),
  AreDistinct-set key v es k (ground arith) d.1,
)

index_of-append :
    (key j : CString) (v : ℤ) (es : List DictEntry)
    → index_of j es ≡ none
    → same_text key j ≡ false
    → index_of j (es ++ dict_entry key v ∷ []) ≡ none
index_of-append key j v [] h ne = ground arith
index_of-append key j v (e ∷ es) h ne = ground (arith, index_of-append key j v es)

AreDistinct-append :
    (key : CString) (v : ℤ) (es : List DictEntry)
    → index_of key es ≡ none
    → AreDistinct es
    → AreDistinct (es ++ dict_entry key v ∷ [])
AreDistinct-append key v [] h d = (refl, tt)
AreDistinct-append key v (e ∷ es) h d = (
  index_of-append key e.key v es d.0
      (ground (arith, same_text_iff e.key key, same_text_iff key e.key)),
  AreDistinct-append key v es (ground arith) d.1,
)

-- `dict_find` is the map's lookup, with no read outside the entries.
pub dict_find-eq :
    (d : Dict) (key : CString) (def : ℤ)
    → IsDict d
    → dict_find d key def ≡ some (value_of key def d.entry)
unfolding dict_find
dict_find-eq d key def ok = elim (Option-cases (index_of key d.entry)) [
  | inl gone ↦
      rw (dict_find_index-eq d key ok, dict_find)
        (ground (arith, gone, value_of-absent key def d.entry gone))
  | inr (k, found) ↦
      rw (dict_find_index-eq d key ok, dict_find)
        (ground (arith, found, elem_at key def d.entry k found))
]

-- What an addition makes of the dictionary.
record Added (d : Dict) (key : CString) (value : ℤ) (t : Dict) : Type 0 where
  added : dict_add d key value ≡ some t
  still : IsDict t
  lookup :
      (j : CString) (def : ℤ)
      → value_of j def t.entry ≡ (if same_text key j then value else value_of j def d.entry)

add-present :
    (d : Dict) (key : CString) (value : ℤ) (k : ℕ)
    → IsDict d
    → index_of key d.entry ≡ some k
    → Added d key value (record d { entry = set d.entry k (dict_entry key value) })
unfolding dict_add
add-present d key value k ok found = record {
  added =
      rw (dict_find_index-eq d key ok, dict_add)
        (ground (arith, found, elem_at key value d.entry k found));
  still = record {
    counted = ok.counted ∙ sym (length-set d.entry k (dict_entry key value));
    within = ok.within;
    room = ok.room;
    distinct = AreDistinct-set key value d.entry k found ok.distinct;
  };
  lookup = λ j def. value_of-set key j value def d.entry k found;
}

abbrev extended : Dict → CString → ℤ → Dict
extended d key value = record (grown d) {
  entry = d.entry ++ dict_entry key value ∷ [];
  len = d.len + 1;
}

add-absent :
    (d : Dict) (key : CString) (value : ℤ)
    → IsDict d
    → index_of key d.entry ≡ none
    → Added d key value (extended d key value)
unfolding dict_add
add-absent d key value ok gone = record {
  added = rw (dict_find_index-eq d key ok, dict_add) (ground (arith, gone, ok.within, ok.room));
  still = record {
    counted = omega (arith, ok.counted, length-append d.entry (dict_entry key value ∷ []));
    within = ground (arith, ok.within, ok.room);
    room = ground (arith, ok.room);
    distinct = AreDistinct-append key value d.entry gone ok.distinct;
  };
  lookup = λ j def. value_of-append key j value def d.entry gone;
}

dict_add-Added :
    (d : Dict) (key : CString) (value : ℤ) → IsDict d → (t : Dict) × Added d key value t
dict_add-Added d key value ok = elim (Option-cases (index_of key d.entry)) [
  | inl gone ↦ (extended d key value, add-absent d key value ok gone)
  | inr (k, found) ↦ (
    record d { entry = set d.entry k (dict_entry key value) },
    add-present d key value k ok found,
  )
]

-- `dict_add` to a well-formed dictionary writes inside its array, and gives a well-formed one in
-- which `dict_find` finds the new value under its key and is unchanged under every other.
pub dict_find-dict_add :
    (d : Dict) (key : CString) (value : ℤ)
    → IsDict d
    → (t : Dict) × (dict_add d key value ≡ some t)
      × IsDict t
      × ((j : CString) (def : ℤ)
          → dict_find t j def ≡ (if same_text key j then some value else dict_find d j def))
dict_find-dict_add d key value ok =
    let (t, a) = dict_add-Added d key value ok in
    (
      t,
      a.added,
      a.still,
      λ j def.
          ground (arith, dict_find-eq t j def a.still, dict_find-eq d j def ok, a.lookup j def),
    )

-- `dict_new` is a well-formed dictionary in which every key has the default value.
pub dict_new-IsDict :
    IsDict dict_new × ((j : CString) (def : ℤ) → dict_find dict_new j def ≡ some def)
unfolding dict_new dict_find dict_find_index
dict_new-IsDict = (
  record { counted = refl; within = omega arith; room = omega arith; distinct = tt },
  λ j def. refl,
)
