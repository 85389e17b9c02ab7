-- ===== src/Propagation/W3c/Total.antt =====
-- oteltrace/propagation/w3c.py: `extract` returns a context for every text that a request brings.
use Prim.Native.Char.{Char}
use Prim.Native.Nat.{◌^◌}
use opentelemetry_auto_instr.Common.{
  ℕ, zero, suc, ◌≡◌, refl, pos, nonzero, Bool, true, not, ◌&&◌, ◌||◌, Option, none, some, String,
  List, [], ◌∷◌, length, ◌+◌, ◌≤◌, ◌<◌, Dict, lookup, insert, str_eq, arith, Result, ok, Bool-cases,
  inl, inr, ◌⊎◌, contains, ltb,
}
use opentelemetry_auto_instr.Propagation.B3.Fields.{IsField, parse_hex-IsField}
use opentelemetry_auto_instr.Propagation.W3c.RoundTrip.{arrived}
use opentelemetry_auto_instr.Propagation.W3c.{
  StateContext, no_context, Groups, is_lower_hex, prepend, ◌>>?◌, take_hex, take_dash, match_more,
  skip_blanks, match_traceparent, traceparent_header, tracestate_header, context_of_ids, of_groups,
  of_parent, extract, parse_tracestate, parse_members, match_member, take_member, split_members,
  is_odd,
}

-- What is found has the property.
abbrev Finds : {A : Type 0} → (A → Type 0) → Option A → Type 0
Finds P none = Unit
Finds P (some a) = P a

module _ {A B : Type 0} (P : A → Type 0) (Q : B → Type 0) where
  Finds-bind :
      (o : Option A) (f : A → Option B)
      → Finds P o
      → ((a : A) → P a → Finds Q (f a))
      → Finds Q (o >>? f)
  Finds-bind none f h k = tt
  Finds-bind (some a) f h k = k a h

abbrev Found : ℕ → String × String → Type 0
Found n (digits, rest) = IsField n digits

prepend-Finds :
    (n : ℕ) (c : Char) (o : Option (String × String))
    → is_lower_hex c ≡ true
    → Finds (Found n) o
    → Finds (Found (suc n)) (prepend c o)
prepend-Finds n c none h f = tt
prepend-Finds n c (some (digits, rest)) h f = record {
  digits = simp h f.digits;
  long = omega (arith, f.long);
}

take_hex-Finds : (n : ℕ) (s : String) → Finds (Found n) (take_hex n s)
unfolding take_hex
take_hex-Finds zero s = record { digits = refl; long = refl }
take_hex-Finds (suc n) String.[] = tt
take_hex-Finds (suc n) (String.◌∷◌ c s) = elim (Bool-cases (is_lower_hex c)) [
  | inl digit ↦ simp digit (prepend-Finds n c (take_hex n s) digit (take_hex-Finds n s))
  | inr other ↦ simp other tt
]

Finds-anything : {A : Type 0} (o : Option A) → Finds (λ _. Unit {0}) o
Finds-anything none = tt
Finds-anything (some a) = tt

record Fielded (g : Groups) : Type 0 where
  trace_id : IsField 32 g.trace_id
  span_id : IsField 16 g.span_id
  options : IsField 2 g.options

match_traceparent-Finds : (header : String) → Finds Fielded (match_traceparent header)
unfolding match_traceparent
match_traceparent-Finds header =
    Finds-bind (Found 2) Fielded (take_hex 2 (skip_blanks header)) _
      (take_hex-Finds 2 (skip_blanks header))
      (λ (v, s₁) _.
        Finds-bind (λ _. Unit) Fielded (take_dash s₁) _ (Finds-anything _)
          (λ t₁ _.
            Finds-bind (Found 32) Fielded (take_hex 32 t₁) _ (take_hex-Finds 32 t₁)
              (λ (t, s₂) traced.
                Finds-bind (λ _. Unit) Fielded (take_dash s₂) _ (Finds-anything _)
                  (λ t₂ _.
                    Finds-bind (Found 16) Fielded (take_hex 16 t₂) _ (take_hex-Finds 16 t₂)
                      (λ (s, s₃) spanned.
                        Finds-bind (λ _. Unit) Fielded (take_dash s₃) _ (Finds-anything _)
                          (λ t₃ _.
                            Finds-bind (Found 2) Fielded (take_hex 2 t₃) _ (take_hex-Finds 2 t₃)
                              (λ (o, s₄) optioned.
                                Finds-bind (λ _. Unit) Fielded (match_more s₄) _ (Finds-anything _)
                                  (λ more _. record {
                                    trace_id = traced;
                                    span_id = spanned;
                                    options = optioned;
                                  }))))))))

length-insert : (key value : String) (d : Dict String) → length (insert key value d) ≤ length d + 1
unfolding insert
length-insert key value [] = omega arith
length-insert key value ((k, v) ∷ d) = ground (arith, length-insert key value d)

module _ (continue : ℕ → Dict String → Dict String)
    (bounded : (count : ℕ) (state : Dict String)
      → length state ≤ count
      → count ≤ 32
      → length (continue count state) ≤ 32) where
  length-take_member :
      (count : ℕ) (state : Dict String) (match : Option (String × String))
      → length state ≤ count
      → length (take_member continue count state match) ≤ 32
  unfolding take_member
  length-take_member count state none h = omega arith
  length-take_member count state (some (key, value)) h =
      elim (Bool-cases (contains key state || ltb 32 (count + 1))) [
        | inl refused ↦ rw refused (omega arith)
        | inr taken ↦ rw taken (
            bounded (count + 1) (insert key value state)
              (omega (arith, length-insert key value state)) (ground arith))
      ]

length-parse_members :
    (members : List String) (count : ℕ) (state : Dict String)
    → length state ≤ count
    → count ≤ 32
    → length (parse_members members count state) ≤ 32
unfolding parse_members
length-parse_members [] count state h few = omega arith
length-parse_members (member ∷ members) count state h few = elim (Bool-cases (str_eq member "")) [
  | inl empty ↦ rw empty (length-parse_members members count state h few)
  | inr given ↦ rw given (
      length-take_member (parse_members members) (length-parse_members members) count state
        (match_member member) h)
]

-- `_parse_tracestate` keeps at most 32 members.
length-parse_tracestate : (header : Option String) → length (parse_tracestate header) ≤ 32
unfolding parse_tracestate
length-parse_tracestate none = omega arith
length-parse_tracestate (some header) =
    length-parse_members (split_members header) 0 [] (omega arith) (omega arith)

-- A context with ids other than 0 of the widths of the header, and at most 32 members of state.
pub record Continues (c : StateContext) : Type 0 where
  pub trace_id : ℕ
  pub span_id : ℕ
  pub keeps : Bool
  pub state : Dict String
  pub traced : 0 < trace_id
  pub trace_width : trace_id < 16 ^ 32
  pub spanned : 0 < span_id
  pub span_width : span_id < 16 ^ 16
  pub bounded : length state ≤ 32
  pub is_arrived : c ≡ arrived trace_id span_id keeps state

-- It returns the empty context, or one to continue.
abbrev pub Returns : Result StateContext → Type 0
Returns r = (r ≡ ok no_context) ⊎ ((c : StateContext) × (r ≡ ok c) × Continues c)

ids-Returns :
    (trace_id span_id options : ℕ) (state : Dict String)
    → trace_id < 16 ^ 32
    → span_id < 16 ^ 16
    → length state ≤ 32
    → Returns (context_of_ids (some (pos trace_id)) (some (pos span_id)) (some (pos options)) state)
unfolding context_of_ids
ids-Returns trace_id span_id options state wide narrow few =
    elim (Bool-cases (not (nonzero (pos trace_id)) || not (nonzero (pos span_id)))) [
      | inl zero_id ↦ rw zero_id (inl refl)
      | inr ids ↦ rw ids (
          inr (
            arrived trace_id span_id (is_odd (pos options)) state,
            refl,
            record {
              trace_id = trace_id;
              span_id = span_id;
              keeps = is_odd (pos options);
              state = state;
              traced = ground (arith, ids);
              trace_width = wide;
              spanned = ground (arith, ids);
              span_width = narrow;
              bounded = few;
              is_arrived = refl;
            },
          ))
    ]

groups-Returns :
    (g : Option Groups) (state : Option String) → Finds Fielded g → Returns (of_groups g state)
unfolding of_groups
groups-Returns none state f = inl refl
groups-Returns (some g) state f = elim (Bool-cases (str_eq g.version "00" && g.has_more)) [
  | inl longer ↦ rw longer (inl refl)
  | inr shorter ↦ rw shorter (elim (Bool-cases (str_eq g.version "ff")) [
    | inl forbidden ↦ rw forbidden (inl refl)
    | inr allowed ↦ rw allowed (
        let (t, te, wide) = parse_hex-IsField 31 g.trace_id f.trace_id in
        let (s, se, narrow) = parse_hex-IsField 15 g.span_id f.span_id in
        let (o, oe, _) = parse_hex-IsField 1 g.options f.options in
        rw (te, se, oe)
          (ids-Returns t s o (parse_tracestate state) wide narrow (length-parse_tracestate state)))
  ])
]

parent-Returns : (parent state : Option String) → Returns (of_parent parent state)
unfolding of_parent
parent-Returns none state = inl refl
parent-Returns (some header) state = elim (Bool-cases (str_eq header "")) [
  | inl empty ↦ rw empty (inl refl)
  | inr given ↦
      rw given (groups-Returns (match_traceparent header) state (match_traceparent-Finds header))
]

-- Whatever headers a request brings, `extract` returns: the empty context, or one with a trace id and
-- a span id other than 0, of at most 32 and 16 hexadecimal digits, AUTO_KEEP or AUTO_REJECT as its priority, and a state of at most 32 members.
pub extract-Returns : (headers : Dict String) → Returns (extract headers)
unfolding extract
extract-Returns headers =
    parent-Returns (lookup traceparent_header headers) (lookup tracestate_header headers)
