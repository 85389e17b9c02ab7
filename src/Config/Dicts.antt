-- ===== src/Config/Dicts.antt =====
-- The nested dicts that hold the settings of oteltrace/settings/, in insertion order.
use opentelemetry_auto_instr.Common.{
  ℕ, ◌≡◌, refl, Bool, not, ◌&&◌, Option, none, some, String, List, [], ◌∷◌, str_eq, eq_iff, arith,
  if◌then◌else◌, is_some,
}
use opentelemetry_auto_instr.Value.{Number}

-- A value that is no dict; an object is a number.
pub data Leaf : Type 0 where
  none_leaf : Leaf
  flag : Bool → Leaf
  numeric : Number → Leaf
  text_leaf : String → Leaf
  object_leaf : ℕ → Leaf

mutual
  pub data Setting : Type 0 where
    leaf : Leaf → Setting
    dict : Entries → Setting

  pub data Entries : Type 0 where
    end : Entries
    entry : String → Setting → Entries → Entries

-- `d.get(key)`
unfoldable pub find : String → Entries → Option Setting
find key end = none
find key (entry k v d) = if str_eq k key then some v else find key d

-- `d[key] = value`
unfoldable pub put : String → Setting → Entries → Entries
put key value end = entry key value end
put key value (entry k v d) = if str_eq k key then entry k value d else entry k v (put key value d)

pub find-put :
    (key j : String) (value : Setting) (d : Entries)
    → find j (put key value d) ≡ (if str_eq key j then some value else find j d)
unfolding find put
find-put key j value end = refl
find-put key j value (entry k v d) =
    ground (arith, eq_iff key j, eq_iff k key, eq_iff k j, find-put key j value d)

-- `d.setdefault(key, value)`, without its result
unfoldable pub set_default : String → Setting → Entries → Entries
unfolding find put
set_default key value d = if is_some (find key d) then d else put key value d

pub find-set_default :
    (key j : String) (value : Setting) (d : Entries)
    → find j (set_default key value d)
      ≡ (if str_eq key j && not (is_some (find key d)) then some value else find j d)
unfolding set_default
find-set_default key j value d = ground (arith, find-put key j value d)

pub set_default_there :
    (key : String) (value there : Setting) (d : Entries)
    → find key d ≡ some there
    → set_default key value d ≡ d
unfolding set_default
set_default_there key value there d e = rw e refl

-- Each key of the dict, and of the dicts in it, stands once.
unfoldable mutual
  pub IsKeyed : Setting → Type 0
  IsKeyed (leaf x) = Unit
  IsKeyed (dict d) = AreKeyed d

  pub AreKeyed : Entries → Type 0
  AreKeyed end = Unit
  AreKeyed (entry k v d) = (find k d ≡ none) × IsKeyed v × AreKeyed d

abbrev pub and_then : Option Setting → (Setting → Option Setting) → Option Setting
and_then none f = none
and_then (some s) f = f s

-- The setting at a path of keys.
unfoldable pub at : List String → Setting → Option Setting
at [] s = some s
at (key ∷ path) (leaf x) = none
at (key ∷ path) (dict d) = and_then (find key d) (at path)
