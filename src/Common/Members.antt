-- ===== src/Common/Members.antt =====
-- Lists of references: membership, repetition, and what a filter does to them.
use Prim.Native.Nat.{ℕ, suc, ◌+◌, ◌≤◌}
use mathlib.Core.Path.{◌≡◌, refl, ap, sym, subst, fun_ext}
use mathlib.Core.Logic.{inl, inr}
use mathlib.Core.Bool.{Bool, true, false, not, ◌||◌}
use mathlib.Core.List.{List, [], ◌∷◌, ◌++◌}
use native.Mathlib.Omega.{arith}
use opentelemetry_auto_instr.Common.Tests.{◌==◌, ==_true, if◌then◌else◌, Bool-cases}
use opentelemetry_auto_instr.Common.Lists.{length, keep, All}

abbrev pub occurs : ℕ → List ℕ → Bool
occurs r [] = false
occurs r (x ∷ xs) = r == x || occurs r xs

abbrev pub Distinct : List ℕ → Type 0
Distinct [] = Unit
Distinct (x ∷ xs) = (occurs x xs ≡ false) × Distinct xs

pub keep_ext {ℓ} :
    {A : Type ℓ} (p q : A → Bool) (xs : List A) → ((x : A) → p x ≡ q x) → keep p xs ≡ keep q xs
keep_ext p q xs h = ap (λ f. keep f xs) (fun_ext h)

pub keep-append {ℓ} :
    {A : Type ℓ} (p : A → Bool) (xs ys : List A) → keep p (xs ++ ys) ≡ keep p xs ++ keep p ys
keep-append p [] ys = refl
keep-append p (x ∷ xs) ys = ground (arith, keep-append p xs ys)

pub length-keep-le {ℓ} : {A : Type ℓ} (p : A → Bool) (xs : List A) → length (keep p xs) ≤ length xs
length-keep-le p [] = omega arith
length-keep-le p (x ∷ xs) = ground (arith, length-keep-le p xs)

pub All-mono {ℓ κ μ} :
    {A : Type ℓ} (P : A → Type κ) (Q : A → Type μ) (xs : List A)
    → ((x : A) → P x → Q x)
    → All P xs
    → All Q xs
All-mono P Q [] h a = tt
All-mono P Q (x ∷ xs) h a = (h x a.0, All-mono P Q xs h a.1)

pub All-keep_of {ℓ κ} :
    {A : Type ℓ} (P : A → Type κ) (p : A → Bool) (xs : List A) → All P xs → All P (keep p xs)
All-keep_of P p [] a = tt
All-keep_of P p (x ∷ xs) a = elim (Bool-cases (p x)) [
  | inl yes_x ↦ rw yes_x (a.0, All-keep_of P p xs a.1)
  | inr no_x ↦ rw no_x (All-keep_of P p xs a.1)
]

pub All-occurs {κ} : (P : ℕ → Type κ) (r : ℕ) (xs : List ℕ) → All P xs → occurs r xs ≡ true → P r
All-occurs P r [] a h = absurd (ground arith)
All-occurs P r (x ∷ xs) a h = elim (Bool-cases (r == x)) [
  | inl same ↦ subst P (sym (==_true r x same)) a.0
  | inr other ↦ All-occurs P r xs a.1 (ground arith)
]

pub occurs-append : (r : ℕ) (xs ys : List ℕ) → occurs r (xs ++ ys) ≡ (occurs r xs || occurs r ys)
occurs-append r [] ys = refl
occurs-append r (x ∷ xs) ys = ground (arith, occurs-append r xs ys)

pub Distinct-append_one :
    (xs : List ℕ) (r : ℕ) → Distinct xs → occurs r xs ≡ false → Distinct (xs ++ r ∷ [])
Distinct-append_one [] r d h = (refl, tt)
Distinct-append_one (x ∷ xs) r d h =
    (ground (arith, occurs-append x xs (r ∷ []), d.0), Distinct-append_one xs r d.1 (ground arith))

pub occurs-keep :
    (p : ℕ → Bool) (r : ℕ) (xs : List ℕ) → p r ≡ true → occurs r (keep p xs) ≡ occurs r xs
occurs-keep p r [] h = refl
occurs-keep p r (x ∷ xs) h = elim (Bool-cases (r == x)) [
  | inl same ↦ ground (arith, ap p (==_true r x same), occurs-keep p r xs h)
  | inr other ↦ ground (arith, occurs-keep p r xs h)
]

occurs-keep_not :
    (p : ℕ → Bool) (r : ℕ) (xs : List ℕ) → occurs r xs ≡ false → occurs r (keep p xs) ≡ false
occurs-keep_not p r [] h = refl
occurs-keep_not p r (x ∷ xs) h = ground (arith, occurs-keep_not p r xs)

pub Distinct-keep : (p : ℕ → Bool) (xs : List ℕ) → Distinct xs → Distinct (keep p xs)
Distinct-keep p [] d = tt
Distinct-keep p (x ∷ xs) d = elim (Bool-cases (p x)) [
  | inl yes_x ↦ rw yes_x (occurs-keep_not p x xs d.0, Distinct-keep p xs d.1)
  | inr no_x ↦ rw no_x (Distinct-keep p xs d.1)
]

-- A test that accepts one more reference.
abbrev pub also : ℕ → (ℕ → Bool) → ℕ → Bool
also r p x = if r == x then true else p x

pub keep-also_absent :
    (p : ℕ → Bool) (r : ℕ) (xs : List ℕ) → occurs r xs ≡ false → keep (also r p) xs ≡ keep p xs
keep-also_absent p r [] h = refl
keep-also_absent p r (x ∷ xs) h = ground (arith, keep-also_absent p r xs)

pub length-keep-also :
    (p : ℕ → Bool) (r : ℕ) (xs : List ℕ)
    → Distinct xs
    → occurs r xs ≡ true
    → p r ≡ false
    → length (keep (also r p) xs) ≡ suc (length (keep p xs))
length-keep-also p r [] d h n = absurd (ground arith)
length-keep-also p r (x ∷ xs) d h n = elim (Bool-cases (r == x)) [
  | inl same ↦
      let e : r ≡ x = ==_true r x same in
      let gone : occurs r xs ≡ false = subst (λ k. occurs k xs ≡ false) (sym e) d.0 in
      ground (arith, ap p e, keep-also_absent p r xs gone)
  | inr other ↦ ground (arith, length-keep-also p r xs d.1)
]

-- What fails a test has nothing left that passes it.
pub keep-keep-not : (p : ℕ → Bool) (xs : List ℕ) → keep p (keep (λ x. not (p x)) xs) ≡ []
keep-keep-not p [] = refl
keep-keep-not p (x ∷ xs) = ground (arith, keep-keep-not p xs)

pub keep-All {ℓ} :
    {A : Type ℓ} (p : A → Bool) (xs : List A) → All (λ x. p x ≡ true) xs → keep p xs ≡ xs
keep-All p [] h = refl
keep-All p (x ∷ xs) h = ground (arith, h.0, keep-All p xs h.1)

pub keep_full : (p : ℕ → Bool) (xs : List ℕ) → length (keep p xs) ≡ length xs → keep p xs ≡ xs
keep_full p [] e = refl
keep_full p (x ∷ xs) e = ground (arith, length-keep-le p xs, keep_full p xs)

pub keep_none :
    (p : ℕ → Bool) (xs : List ℕ) → length (keep p xs) ≡ length xs → keep (λ x. not (p x)) xs ≡ []
keep_none p [] e = refl
keep_none p (x ∷ xs) e = ground (arith, length-keep-le p xs, keep_none p xs)

pub keep_ext_on {ℓ} :
    {A : Type ℓ} (p q : A → Bool) (xs : List A) → All (λ x. p x ≡ q x) xs → keep p xs ≡ keep q xs
keep_ext_on p q [] h = refl
keep_ext_on p q (x ∷ xs) h = ground (arith, h.0, keep_ext_on p q xs h.1)

pub length-keep {ℓ} :
    {A : Type ℓ} (p : A → Bool) (xs : List A)
    → length (keep p xs) + length (keep (λ x. not (p x)) xs) ≡ length xs
length-keep p [] = refl
length-keep p (x ∷ xs) = ground (arith, length-keep p xs)
