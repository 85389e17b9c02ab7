-- ===== src/Config/Merge.antt =====
-- oteltrace/utils/merge.py: `deepmerge`, which changes its destination and returns it.
pub mod Paths
pub mod Total
use opentelemetry_auto_instr.Common.{
  ◌≡◌, refl, Option, none, some, String, Result, ok, raised, attribute_error, type_error,
}
use opentelemetry_auto_instr.Config.Dicts.{
  Leaf, Setting, leaf, dict, Entries, end, entry, find, put,
}

abbrev pub on_ok : {A B : Type 0} → (A → Result B) → Result A → Result B
on_ok f (raised e) = raised e
on_ok f (ok a) = f a

-- A dict is merged into a value that is no dict: its first item raises.
abbrev pub into_leaf : Entries → Leaf → Result Setting
into_leaf end x = ok (leaf x)
into_leaf (entry k (leaf y) d) x = raised type_error
into_leaf (entry k (dict s) d) x = raised attribute_error

unfoldable mutual
  pub deepmerge : Entries → Entries → Result Entries
  deepmerge end destination = ok destination
  deepmerge (entry key value source) destination =
      on_ok (λ node. deepmerge source (put key node destination))
        (merge_value value (find key destination))

  -- What stands at the key afterwards, from the value and what stood there.
  pub merge_value : Setting → Option Setting → Result Setting
  merge_value (leaf x) old = ok (leaf x)
  merge_value (dict source) none = on_ok (λ node. ok (dict node)) (deepmerge source end)
  merge_value (dict source) (some (leaf x)) = into_leaf source x
  merge_value (dict source) (some (dict node)) =
      on_ok (λ node'. ok (dict node')) (deepmerge source node)
