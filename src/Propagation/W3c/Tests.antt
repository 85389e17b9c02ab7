-- ===== src/Propagation/W3c/Tests.antt =====
-- oteltrace/propagation/w3c.py at concrete headers, and its theorems applied to them.
use opentelemetry_auto_instr.Common.{
  ◌≡◌, refl, pos, String, some, none, [], ◌∷◌, ok, true, Dict, insert, lookup, contains, arith,
}
use opentelemetry_auto_instr.Context.{new_context}
use opentelemetry_auto_instr.Propagation.{skip_spaces}
use opentelemetry_auto_instr.Propagation.W3c.{
  is_key, is_vendor_key, StateContext, inject, extract, cut_at, drop_end_blanks, match_member,
  member_of,
}
use opentelemetry_auto_instr.Propagation.W3c.Members.{IsMember}
use opentelemetry_auto_instr.Propagation.W3c.RoundTrip.{arrived, extract-inject_w3c}
use opentelemetry_auto_instr.Propagation.W3c.Total.{Returns, extract-Returns}

abbrev headers : Dict String
headers =
    ("traceparent", " 00-0000000000000000000000000000000c-000000000000000a-03\t")
    ∷ ("tracestate", "foo=1 , ,a@b=x y,bar=2\t")
    ∷ []

extract-headers :
    extract headers
    ≡ ok (record {
      context = new_context (some (pos 12)) (some (pos 10)) (some (pos 1)) none;
      tracestate = some (("foo", "1") ∷ ("a@b", "x y") ∷ ("bar", "2") ∷ []);
    })
unfolding extract new_context lookup skip_spaces contains insert match_member member_of cut_at
    drop_end_blanks is_key is_vendor_key
extract-headers = refl

-- version 00 allows nothing after the options, and a later version does
later_version :
    extract (("traceparent", "01-0000000000000000000000000000000c-000000000000000a-00-x") ∷ [])
    ≡ ok (record {
      context = new_context (some (pos 12)) (some (pos 10)) (some (pos 0)) none;
      tracestate = some [];
    })
unfolding extract new_context lookup skip_spaces
later_version = refl

extract-Returns_example : Returns (extract headers)
extract-Returns_example = extract-Returns headers

abbrev foo : String × String
foo = ("foo", "1")

abbrev vendor : String × String
vendor = ("a@b", "x y")

foo-IsMember : IsMember foo
unfolding cut_at drop_end_blanks is_key is_vendor_key
foo-IsMember = record { key = refl; value = refl; ended = refl }

vendor-IsMember : IsMember vendor
unfolding cut_at drop_end_blanks is_key is_vendor_key
vendor-IsMember = record { key = refl; value = refl; ended = refl }

abbrev sampled : StateContext
sampled = record {
  context =
      new_context (some (pos 340282366920938463463374607431768211455)) (some (pos 7)) (some (pos 2))
        none;
  tracestate = some (foo ∷ vendor ∷ []);
}

extract-inject_w3c_example :
    ((inject sampled []).0 ≡ ok tt)
    × (extract (inject sampled []).1
        ≡ ok (arrived 340282366920938463463374607431768211455 7 true (foo ∷ vendor ∷ [])))
unfolding new_context lookup contains
extract-inject_w3c_example =
    extract-inject_w3c sampled 340282366920938463463374607431768211455 7 [] refl refl (omega arith)
      (omega arith) (omega arith) (omega arith) refl
      ((foo-IsMember, (vendor-IsMember, tt)), (refl, (refl, tt)), omega arith) refl
