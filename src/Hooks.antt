-- ===== src/Hooks.antt =====
-- oteltrace/settings/hooks.py: `class Hooks`. A hook function is a number, and what calling it does to
-- the spans is a parameter; log lines are left out.
pub mod Calls
mod Tests
use opentelemetry_auto_instr.Common.{
  ℕ, ◌==◌, not, Bool, true, false, Option, none, some, String, List, [], ◌∷◌, ◌++◌, Dict, lookup,
  insert, keep, any_of, Exec, if◌then◌else◌,
}
use opentelemetry_auto_instr.World.{World}

-- The set of functions of each hook, without repetition; a set that is empty counts as an entry.
abbrev pub Hooks : Type 0
Hooks = Dict (List ℕ)

abbrev pub has : ℕ → List ℕ → Bool
has func funcs = any_of (λ f. f == func) funcs

-- `set.add`
abbrev pub add : ℕ → List ℕ → List ℕ
add func funcs = if has func funcs then funcs else funcs ++ func ∷ []

abbrev pub registered : Option (List ℕ) → List ℕ
registered none = []
registered (some funcs) = funcs

-- `register`, with a function: the dictionary makes an empty set for a new hook.
pub register : String → ℕ → Hooks → Hooks
register hook func hooks = insert hook (add func (registered (lookup hook hooks))) hooks

-- `deregister`
pub deregister : ℕ → Hooks → Hooks
deregister func [] = []
deregister func ((hook, funcs) ∷ hooks) =
    (hook, keep (λ f. not (f == func)) funcs) ∷ deregister func hooks

-- Calling a set of functions on a span, one after the other; what one raises is caught.
pub call_all : (ℕ → ℕ → Exec World Unit) → List ℕ → ℕ → World → World
call_all call [] span w = w
call_all call (func ∷ funcs) span w = call_all call funcs span (call func span w).1

-- `_emit`; no span stands for an argument that is not a `Span`.
pub emit : (ℕ → ℕ → Exec World Unit) → String → Option ℕ → Hooks → World → World
unfolding call_all
emit call hook none hooks w = w
emit call hook (some span) hooks w = call_all call (registered (lookup hook hooks)) span w
