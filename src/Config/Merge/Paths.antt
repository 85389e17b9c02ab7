-- ===== src/Config/Merge/Paths.antt =====
-- oteltrace/utils/merge.py: when `deepmerge` returns, and what its result holds at every path of keys.
use mathlib.Core.Path.{subst}
use opentelemetry_auto_instr.Common.{
  ◌≡◌, refl, sym, ◌∙◌, ap, Option, none, some, String, List, [], ◌∷◌, str_eq, eq_iff, arith, Result,
  ok, raised, Bool-cases, inl, inr,
}
use opentelemetry_auto_instr.Config.Dicts.{
  Leaf, Setting, leaf, dict, Entries, end, entry, find, put, find-put, IsKeyed, AreKeyed, and_then,
  at,
}
use opentelemetry_auto_instr.Config.Merge.{on_ok, into_leaf, deepmerge, merge_value}

-- A successful step, taken apart.
bind_ok :
    {A B : Type 0} (m : Result A) (f : A → Result B) {b : B}
    → on_ok f m ≡ ok b
    → (a : A) × (m ≡ ok a) × (f a ≡ ok b)
bind_ok (ok a) f h = (a, refl, h)
bind_ok (raised e) f h = absurd (ground (arith, h))

-- What a key holds after the merge, from what the source and the destination hold at it.
abbrev pub Merged : Option Setting → Option Setting → Option Setting → Type 0
Merged none old new = new ≡ old
Merged (some value) old new =
    (node : Setting) × (merge_value value old ≡ ok node) × (new ≡ some node)

pub deepmerge-find :
    (source d : Entries) {r : Entries} (key : String)
    → AreKeyed source
    → deepmerge source d ≡ ok r
    → Merged (find key source) (find key d) (find key r)
unfolding deepmerge AreKeyed find
deepmerge-find end d key keyed h = let e : d ≡ _ = ground (arith, h) in ap (find key) (sym e)
deepmerge-find (entry k v source) d {r} key keyed h =
    let (node, merged, rest) = bind_ok (merge_value v (find k d)) _ h in
    let ih = deepmerge-find source (put k node d) key keyed.2 rest in
    elim (Bool-cases (str_eq k key)) [
      | inl same ↦
          (let e = (eq_iff k key).0 same in
            let once : find key source ≡ none = subst (λ j. find j source ≡ none) e keyed.0 in
            let kept : find key r ≡ find key (put k node d) =
              subst (λ o. Merged o (find key (put k node d)) (find key r)) once ih in
            rw same (
              node,
              subst (λ j. merge_value v (find j d) ≡ ok node) e merged,
              kept ∙ find-put k key node d ∙ rw same refl,
            ))
      | inr other ↦ rw other (
          subst (λ o. Merged (find key source) o (find key r))
            (find-put k key node d ∙ rw other refl) ih)
    ]

abbrev pub MissingOr : (Setting → Type 0) → Option Setting → Type 0
MissingOr P none = Unit
MissingOr P (some s) = P s

-- The path leaves the source at a key that is not there.
pub Leaves : List String → Setting → Type 0
Leaves [] s = ⊥
Leaves (key ∷ path) (leaf x) = ⊥
Leaves (key ∷ path) (dict d) = MissingOr (Leaves path) (find key d)

IsKeyed-find :
    (key : String) (d : Entries) {s : Setting} → AreKeyed d → find key d ≡ some s → IsKeyed s
unfolding find AreKeyed
IsKeyed-find key end h e = absurd (ground (arith, e))
IsKeyed-find key (entry k v d) {s} h e = elim (Bool-cases (str_eq k key)) [
  | inl same ↦ (let f : v ≡ s = ground (arith, rw same at e) in subst IsKeyed f h.1)
  | inr other ↦ IsKeyed-find key d h.2 (rw other at e)
]

-- What the result has at a path, where the source has a leaf or is left.
abbrev pub AtPath : List String → Setting → Option Setting → Setting → Type 0
AtPath path value old node =
    ((x : Leaf) → at path value ≡ some (leaf x) → at path node ≡ some (leaf x))
    × (Leaves path value → at path node ≡ and_then old (at path))

-- The statement for two dicts, at one path.
abbrev MergesAt : List String → Type 0
MergesAt path =
    (source d r : Entries)
    → AreKeyed source
    → deepmerge source d ≡ ok r
    → AtPath path (dict source) (some (dict d)) (dict r)

into_leaf-AtPath :
    (key : String) (path : List String) (source : Entries) (x : Leaf) (node : Setting)
    → into_leaf source x ≡ ok node
    → AtPath (key ∷ path) (dict source) (some (leaf x)) node
unfolding Leaves at find
into_leaf-AtPath key path end x node h =
    let e : leaf x ≡ node = ground (arith, h) in
    (λ y e. absurd (ground (arith, e)), λ l. ap (at (key ∷ path)) (sym e))
into_leaf-AtPath key path (entry k (leaf y) source) x node h = absurd (ground (arith, h))
into_leaf-AtPath key path (entry k (dict s) source) x node h = absurd (ground (arith, h))

merge_value-AtPath :
    (path : List String) (value : Setting) (old : Option Setting) (node : Setting)
    → MergesAt path
    → IsKeyed value
    → merge_value value old ≡ ok node
    → AtPath path value old node
unfolding merge_value Leaves at AreKeyed find
merge_value-AtPath [] (leaf x) old node ih keyed h =
    let e : leaf x ≡ node = ground (arith, h) in (λ y f. ap some (sym e) ∙ f, λ l. absurd l)
merge_value-AtPath [] (dict s) old node ih keyed h =
    (λ y f. absurd (ground (arith, f)), λ l. absurd l)
merge_value-AtPath (key ∷ path) (leaf x) old node ih keyed h =
    (λ y f. absurd (ground (arith, f)), λ l. absurd l)
merge_value-AtPath (key ∷ path) (dict source) none node ih keyed h =
    let (r, merged, f) = bind_ok (deepmerge source end) (λ r. ok (dict r)) h in
    let e : dict r ≡ node = ground (arith, f) in
    let p = ih source end r keyed merged in
    subst (AtPath (key ∷ path) (dict source) none) e (p.0, p.1)
merge_value-AtPath (key ∷ path) (dict source) (some (leaf x)) node ih keyed h =
    into_leaf-AtPath key path source x node h
merge_value-AtPath (key ∷ path) (dict source) (some (dict d)) node ih keyed h =
    let (r, merged, f) = bind_ok (deepmerge source d) (λ r. ok (dict r)) h in
    let e : dict r ≡ node = ground (arith, f) in
    subst (AtPath (key ∷ path) (dict source) (some (dict d))) e (ih source d r keyed merged)

-- one key on the path, from what the source holds at it
step-AtPath :
    (path : List String) (old new : Option Setting) (o : Option Setting)
    → MergesAt path
    → ((v : Setting) → o ≡ some v → IsKeyed v)
    → Merged o old new
    → ((x : Leaf) → and_then o (at path) ≡ some (leaf x) → and_then new (at path) ≡ some (leaf x))
      × (MissingOr (Leaves path) o → and_then new (at path) ≡ and_then old (at path))
step-AtPath path old new none ih keyed m =
    (λ x f. absurd (ground (arith, f)), λ l. ap (λ n. and_then n (at path)) m)
step-AtPath path old new (some v) ih keyed (node, merged, e) =
    let p = merge_value-AtPath path v old node ih (keyed v refl) merged in
    subst
      (λ n.
        ((x : Leaf) → at path v ≡ some (leaf x) → and_then n (at path) ≡ some (leaf x))
        × (Leaves path v → and_then n (at path) ≡ and_then old (at path)))
      (sym e) p

-- Merging a source whose keys are distinct, where it returns: whatever leaf the source has at a path
-- of keys, the result has there; and where the path leaves the source at a key that is not there, the
-- result has what the destination had.
pub deepmerge-AtPath :
    (path : List String) (source d r : Entries)
    → AreKeyed source
    → deepmerge source d ≡ ok r
    → AtPath path (dict source) (some (dict d)) (dict r)
unfolding at Leaves
deepmerge-AtPath [] source d r keyed h = (λ x e. absurd (ground (arith, e)), λ l. absurd l)
deepmerge-AtPath (key ∷ path) source d r keyed h =
    step-AtPath path (find key d) (find key r) (find key source) (deepmerge-AtPath path)
      (λ v e. IsKeyed-find key source keyed e) (deepmerge-find source d key keyed h)
