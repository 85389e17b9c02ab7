-- ===== src/Hooks/Calls.antt =====
-- oteltrace/settings/hooks.py: which functions a hook calls.
use opentelemetry_auto_instr.Common.{
  ℕ, ◌≡◌, refl, ap, sym, ◌∙◌, ◌==◌, ==_true, not, Bool, true, false, ◌||◌, String, List, [], ◌∷◌,
  ◌++◌, lookup, lookup-insert, keep, arith, str_eq, if◌then◌else◌, Bool-cases, inl, inr,
}
use opentelemetry_auto_instr.Hooks.{Hooks, has, add, registered, register, deregister}

has-append : (func g : ℕ) (funcs : List ℕ) → has g (funcs ++ func ∷ []) ≡ (has g funcs || func == g)
has-append func g [] = ground arith
has-append func g (f ∷ funcs) = ground (arith, has-append func g funcs)

or_true : (b : Bool) → (b || true) ≡ true
or_true true = refl
or_true false = refl

or_false : (b : Bool) → (b || false) ≡ b
or_false true = refl
or_false false = refl

has-add : (func g : ℕ) (funcs : List ℕ) → has g (add func funcs) ≡ (has g funcs || func == g)
has-add func g funcs = elim (Bool-cases (has func funcs)) [
  | inl there ↦ simp there (elim (Bool-cases (func == g)) [
    | inl same ↦
        simp same
          (ap (λ k. has k funcs) (sym (==_true func g same)) ∙ there ∙ sym (or_true (has g funcs)))
    | inr other ↦ simp other (sym (or_false (has g funcs)))
  ])
  | inr missing ↦ simp missing (has-append func g funcs)
]

-- After `register`, a function is called by a hook if it was before, or if it is the one that was
-- registered and the hook is the one that it was registered for.
pub has-register :
    (hook j : String) (func g : ℕ) (hooks : Hooks)
    → has g (registered (lookup j (register hook func hooks))) ≡ (
        if str_eq hook j
        then has g (registered (lookup hook hooks)) || func == g
        else has g (registered (lookup j hooks)))
unfolding register
has-register hook j func g hooks = elim (Bool-cases (str_eq hook j)) [
  | inl same ↦ simp (lookup-insert, same) (has-add func g (registered (lookup hook hooks)))
  | inr other ↦ simp (lookup-insert, other) refl
]

has-keep :
    (func g : ℕ) (funcs : List ℕ)
    → has g (keep (λ f. not (f == func)) funcs) ≡ (if func == g then false else has g funcs)
has-keep func g [] = ground arith
has-keep func g (f ∷ funcs) = ground (arith, has-keep func g funcs)

-- After `deregister`, no hook calls the function, and every hook calls the other functions as before.
pub has-deregister :
    (func g : ℕ) (j : String) (hooks : Hooks)
    → has g (registered (lookup j (deregister func hooks)))
      ≡ (if func == g then false else has g (registered (lookup j hooks)))
unfolding deregister lookup
has-deregister func g j [] = ground arith
has-deregister func g j ((hook, funcs) ∷ hooks) = elim (Bool-cases (str_eq hook j)) [
  | inl same ↦ simp same (has-keep func g funcs)
  | inr other ↦ simp other (has-deregister func g j hooks)
]
