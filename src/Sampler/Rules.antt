-- ===== src/Sampler/Rules.antt =====
-- oteltrace/sampler.py: which `SamplingRule` decides for a span.
use mathlib.Core.Path.{subst}
use opentelemetry_auto_instr.Common.{
  ◌≡◌, refl, ap, true, false, Option, none, some, String, List, [], ◌∷◌, ◌++◌, All, Bool-cases, inl,
  inr, Bool, ◌&&◌, or_default, arith, str_eq, eq_iff, eq_refl,
}
use opentelemetry_auto_instr.Sampler.{
  Pattern, no_rule, callable, regex, exactly, SamplingRule, eq_text, pattern_matches, matches,
  first_match,
}

-- What a pattern asks of a service or a name: nothing; that the callable returns true on it; that the
-- expression matches its text, which is "None" for None; or that it is the value.
abbrev pub Asks : Pattern → Option String → Type 0
Asks no_rule prop = Unit
Asks (callable f) prop = f prop ≡ some true
Asks (regex f) none = f "None" ≡ some true
Asks (regex f) (some s) = f s ≡ some true
Asks (exactly value) prop = prop ≡ value

abbrev pub Matches : Option String → String → SamplingRule → Type 0
Matches service name rule = Asks rule.service service × Asks rule.name (some name)

-- What it means for a rule, or for none, to be the first that matches.
abbrev pub FirstMatch : Option String → String → List SamplingRule → Option SamplingRule → Type 0
FirstMatch service name rules none = All (λ rule. ¬ Matches service name rule) rules
FirstMatch service name rules (some rule) =
    (before : List SamplingRule) × (after : List SamplingRule) × (rules ≡ before ++ rule ∷ after)
    × All (λ earlier. ¬ Matches service name earlier) before
    × Matches service name rule

-- A test that decides a proposition.
abbrev Decides : Type 0 → Bool → Type 0
Decides P true = P
Decides P false = ¬ P

answers : (o : Option Bool) → Decides (o ≡ some true) (or_default o false)
answers none = λ e. ground arith
answers (some true) = refl
answers (some false) = λ e. ground arith

equal_texts : (s t : String) → Decides (some s ≡ some t) (str_eq s t)
equal_texts s t = elim (Bool-cases (str_eq s t)) [
  | inl same ↦ rw same (ap some ((eq_iff s t).0 same))
  | inr differ ↦ rw differ (λ e.
      let same : s ≡ t = ground (arith, e) in
      let test : str_eq s t ≡ true = subst (λ x. str_eq s x ≡ true) same (eq_refl s) in
      ground (arith, differ, test))
]

eq_text-Decides : (prop value : Option String) → Decides (prop ≡ value) (eq_text prop value)
eq_text-Decides none none = refl
eq_text-Decides none (some t) = λ e. ground arith
eq_text-Decides (some s) none = λ e. ground arith
eq_text-Decides (some s) (some t) = equal_texts s t

pattern_matches-Decides :
    (prop : Option String) (pattern : Pattern)
    → Decides (Asks pattern prop) (pattern_matches prop pattern)
unfolding pattern_matches
pattern_matches-Decides prop no_rule = tt
pattern_matches-Decides prop (callable f) = answers (f prop)
pattern_matches-Decides none (regex f) = answers (f "None")
pattern_matches-Decides (some s) (regex f) = answers (f s)
pattern_matches-Decides prop (exactly value) = eq_text-Decides prop value

both_decide : (P Q : Type 0) (a b : Bool) → Decides P a → Decides Q b → Decides (P × Q) (a && b)
both_decide P Q true true p q = (p, q)
both_decide P Q true false p q = λ x. q x.1
both_decide P Q false b p q = λ x. p x.0

matches-Decides :
    (service : Option String) (name : String) (rule : SamplingRule)
    → Decides (Matches service name rule) (matches service name rule)
unfolding matches
matches-Decides service name rule =
    both_decide _ _ (pattern_matches service rule.service) (pattern_matches (some name) rule.name)
      (pattern_matches-Decides service rule.service) (pattern_matches-Decides (some name) rule.name)

later_match :
    (service : Option String) (name : String) (head : SamplingRule) (rules : List SamplingRule)
    (found : Option SamplingRule)
    → ¬ Matches service name head
    → FirstMatch service name rules found
    → FirstMatch service name (head ∷ rules) found
later_match service name head rules none miss h = (miss, h)
later_match service name head rules (some rule) miss (before, after, split, none_before, hit) =
    (head ∷ before, after, ap (λ l. head ∷ l) split, (miss, none_before), hit)

-- The loop over the rules finds the first one whose patterns ask what the service and the name meet,
-- in the user's order, and falls through to its `else` exactly when there is none. A callable that
-- raises asks what nothing meets.
pub first_match-FirstMatch :
    (service : Option String) (name : String) (rules : List SamplingRule)
    → FirstMatch service name rules (first_match service name rules)
unfolding first_match
first_match-FirstMatch service name [] = tt
first_match-FirstMatch service name (rule ∷ rules) =
    let decided = matches-Decides service name rule in
    elim (Bool-cases (matches service name rule)) [
      | inl hit ↦ rw hit ([], rules, refl, tt, rw hit at decided)
      | inr miss ↦ rw miss (
          later_match service name rule rules _ (rw miss at decided)
            (first_match-FirstMatch service name rules))
    ]
