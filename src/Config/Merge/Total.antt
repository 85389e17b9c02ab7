-- ===== src/Config/Merge/Total.antt =====
-- oteltrace/utils/merge.py: `deepmerge` returns unless a dict of the source meets a value that is none.
use mathlib.Core.Path.{subst}
use opentelemetry_auto_instr.Common.{
  ◌≡◌, refl, sym, ◌∙◌, ap, false, Option, none, some, String, str_eq, eq_iff, arith, Result, ok,
  Bool-cases, inl, inr,
}
use opentelemetry_auto_instr.Config.Dicts.{
  Setting, leaf, dict, Entries, end, entry, find, put, find-put, IsKeyed, AreKeyed,
}
use opentelemetry_auto_instr.Config.Merge.{on_ok, into_leaf, deepmerge, merge_value}

-- No dict of the source that has an item meets a value that is no dict.
unfoldable mutual
  pub Fits : Entries → Entries → Type 0
  Fits end d = Unit
  Fits (entry k v source) d = FitsAt v (find k d) × Fits source d

  pub FitsAt : Setting → Option Setting → Type 0
  FitsAt (leaf x) old = Unit
  FitsAt (dict source) none = Unit
  FitsAt (dict source) (some (leaf x)) = source ≡ end
  FitsAt (dict source) (some (dict d)) = Fits source d

Fits-put :
    (source d : Entries) (key : String) (node : Setting)
    → find key source ≡ none
    → Fits source d
    → Fits source (put key node d)
unfolding Fits find
Fits-put end d key node new h = tt
Fits-put (entry k v source) d key node new h = elim (Bool-cases (str_eq k key)) [
  | inl same ↦ absurd (let bad = rw same at new in ground (arith, bad))
  | inr other ↦
      (let apart : str_eq key k ≡ false = ground (arith, eq_iff key k, eq_iff k key, other) in
        let e : find k (put key node d) ≡ find k d = find-put key k node d ∙ rw apart refl in
        (subst (FitsAt v) (sym e) h.0, Fits-put source d key node (rw other at new) h.1))
]

Fits-end : (source : Entries) → Fits source end
unfolding Fits find
Fits-end end = tt
Fits-end (entry k (leaf x) source) = (tt, Fits-end source)
Fits-end (entry k (dict s) source) = (tt, Fits-end source)

bind_returns :
    {A B : Type 0} (m : Result A) (f : A → Result B)
    → ((a : A) × (m ≡ ok a))
    → ((a : A) → (b : B) × (f a ≡ ok b))
    → (b : B) × (on_ok f m ≡ ok b)
bind_returns m f (a, e) k = let (b, g) = k a in (b, ap (on_ok f) e ∙ g)

mutual
  unfolding deepmerge merge_value Fits AreKeyed

  deepmerge_returns :
      (source d : Entries)
      → AreKeyed source
      → Fits source d
      → (r : Entries) × (deepmerge source d ≡ ok r)
  deepmerge_returns end d keyed h = (d, refl)
  deepmerge_returns (entry k v source) d keyed h =
      bind_returns (merge_value v (find k d)) (λ node. deepmerge source (put k node d))
        (merge_value_returns v (find k d) keyed.1 h.0)
        (λ node.
          deepmerge_returns source (put k node d) keyed.2 (Fits-put source d k node keyed.0 h.1))

  merge_value_returns :
      (value : Setting) (old : Option Setting)
      → IsKeyed value
      → FitsAt value old
      → (node : Setting) × (merge_value value old ≡ ok node)
  merge_value_returns (leaf x) old keyed h = (leaf x, refl)
  merge_value_returns (dict source) none keyed h =
      bind_returns (deepmerge source end) (λ r. ok (dict r))
        (deepmerge_returns source end keyed (Fits-end source)) (λ r. (dict r, refl))
  merge_value_returns (dict source) (some (leaf x)) keyed h = (leaf x, ap (λ s. into_leaf s x) h)
  merge_value_returns (dict source) (some (dict d)) keyed h =
      bind_returns (deepmerge source d) (λ r. ok (dict r)) (deepmerge_returns source d keyed h)
        (λ r. (dict r, refl))

-- A source whose keys are distinct, no dict of which with an item meets a value that is no dict, is
-- merged without raising.
pub deepmerge-Fits :
    (source d : Entries)
    → AreKeyed source
    → Fits source d
    → (r : Entries) × (deepmerge source d ≡ ok r)
deepmerge-Fits source d keyed h = deepmerge_returns source d keyed h
