-- ===== src/Writer/Filtered.antt =====
-- oteltrace/internal/writer.py: what the filters leave of the traces.
use opentelemetry_auto_instr.Common.{
  ◌≡◌, refl, Option, none, some, List, [], ◌∷◌, arith, Result, ok, raised,
}
use opentelemetry_auto_instr.Writer.{Filter, filter_trace, filter_all, collect}

module _ {A : Type 0} where
  -- The traces that pass the filters one after the other, in order.
  pub data Passes (filters : List (Filter A)) : List (List A) → List (List A) → Type 0 where
    done : Passes filters [] []
    passed :
        {trace trace' : List A} {traces kept : List (List A)}
        → filter_trace filters trace ≡ ok (some trace')
        → Passes filters traces kept
        → Passes filters (trace ∷ traces) (trace' ∷ kept)
    stopped :
        {trace : List A} {traces kept : List (List A)}
        → filter_trace filters trace ≡ ok none
        → Passes filters traces kept
        → Passes filters (trace ∷ traces) kept

  filter_all-cons :
      (filters : List (Filter A)) (trace : List A) (traces : List (List A))
      (one : Result (Option (List A))) (rest : Result (List (List A))) (kept : List (List A))
      → filter_trace filters trace ≡ one
      → filter_all filters traces ≡ rest
      → ((before : List (List A)) → rest ≡ ok before → Passes filters traces before)
      → filter_all filters (trace ∷ traces) ≡ ok kept
      → Passes filters (trace ∷ traces) kept
  unfolding filter_all
  filter_all-cons filters trace traces (raised x) rest kept e r ih h = absurd (ground arith)
  filter_all-cons filters trace traces (ok none) rest kept e r ih h =
      stopped e (ih kept (ground arith))
  filter_all-cons filters trace traces (ok (some trace')) (raised x) kept e r ih h =
      absurd (ground arith)
  filter_all-cons filters trace traces (ok (some trace')) (ok before) kept e r ih h =
      let split : kept ≡ trace' ∷ before = ground arith in rw split (passed e (ih before refl))

  -- What the filters leave of the traces is those that no filter stops, as the filters return them.
  pub filter_all-Passes :
      (filters : List (Filter A)) (traces kept : List (List A))
      → filter_all filters traces ≡ ok kept
      → Passes filters traces kept
  filter_all-Passes filters [] kept h =
      let split : kept ≡ [] = (unfold filter_all in ground arith) in rw split done
  filter_all-Passes filters (trace ∷ traces) kept h =
      filter_all-cons filters trace traces _ _ kept refl refl
        (λ before e. filter_all-Passes filters traces before e) h

  pub filter_one :
      (filtr : Filter A) (trace : List A) (kept : Option (List A))
      → filtr trace ≡ ok kept
      → filter_trace (filtr ∷ []) trace ≡ ok kept
  unfolding filter_trace
  filter_one filtr trace none e = ground (arith, e)
  filter_one filtr trace (some trace') e = ground (arith, e)

  pub filter_all-nil : (filters : List (Filter A)) → filter_all filters [] ≡ ok []
  unfolding filter_all
  filter_all-nil filters = refl

  pub filter_all-collect :
      (filters : List (Filter A)) (trace : List A) (traces : List (List A)) (kept : Option (List A))
      → filter_trace filters trace ≡ ok kept
      → filter_all filters (trace ∷ traces) ≡ collect kept (filter_all filters traces)
  unfolding filter_all
  filter_all-collect filters trace traces none e = ground (arith, e)
  filter_all-collect filters trace traces (some trace') e = ground (arith, e)
