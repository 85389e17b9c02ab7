-- ===== src/Contrib/Celery/Spans.antt =====
-- oteltrace/contrib/celery/utils.py: the spans that tasks hold, and the tags of a context.
use Prim.Native.String.{◌++◌}
use opentelemetry_auto_instr.Common.{
  ℕ, zero, suc, ℤ, pos, Bool, true, false, not, ◌&&◌, ◌||◌, Option, none, some, String, List, [],
  ◌∷◌, Dict, lookup, insert, str_eq, if◌then◌else◌,
}
use opentelemetry_auto_instr.Value.{
  Number, whole, fraction, Value, none_value, text, number, object,
}
use opentelemetry_auto_instr.World.{World, update}
use opentelemetry_auto_instr.Pin.{Pins}

-- `(task_id, is_publish)`
abbrev pub Key : Type 0
Key = String × Bool

abbrev pub is_same : Bool → Bool → Bool
is_same true b = b
is_same false b = not b

abbrev pub key_eq : Key → Key → Bool
key_eq (id, publish) (id', publish') = str_eq id id' && is_same publish publish'

-- the dict of a task
abbrev pub SpanDict : Type 0
SpanDict = List (Key × ℕ)

unfoldable pub get_span : Key → SpanDict → Option ℕ
get_span key [] = none
get_span key ((k, r) ∷ d) = if key_eq k key then some r else get_span key d

unfoldable pub put_span : Key → ℕ → SpanDict → SpanDict
put_span key r [] = (key, r) ∷ []
put_span key r ((k, q) ∷ d) =
    let rest = put_span key r d in if key_eq k key then (k, r) ∷ d else (k, q) ∷ rest

unfoldable pub pop_span : Key → SpanDict → SpanDict
pop_span key [] = []
pop_span key ((k, q) ∷ d) =
    let rest = pop_span key d in if key_eq k key then rest else (k, q) ∷ rest

-- The tracer's objects, the pins, and the dicts of the tasks that have one.
pub record Worker : Type 0 where
  pub tracing : World
  pub pins : Pins
  pub dicts : ℕ → Option SpanDict

abbrev pub or_empty : Option SpanDict → SpanDict
or_empty none = []
or_empty (some d) = d

-- `attach_span`
unfoldable pub attach_span : ℕ → String → ℕ → Bool → Worker → Worker
attach_span task task_id r is_publish s = record s {
  dicts = update s.dicts task (some (put_span (task_id, is_publish) r (or_empty (s.dicts task))));
}

abbrev pub detach_from : Option SpanDict → ℕ → String → Bool → Worker → Worker
detach_from none task task_id is_publish s = s
detach_from (some d) task task_id is_publish s = record s {
  dicts = update s.dicts task (some (pop_span (task_id, is_publish) d));
}

-- `detach_span`
unfoldable pub detach_span : ℕ → String → Bool → Worker → Worker
detach_span task task_id is_publish s = detach_from (s.dicts task) task task_id is_publish s

-- `retrieve_span`
unfoldable pub retrieve_span : ℕ → String → Bool → Worker → Option ℕ
retrieve_span task task_id is_publish s = get_span (task_id, is_publish) (or_empty (s.dicts task))

-- `retrieve_task_id`: the headers of the message, if there are any, or its body
unfoldable pub retrieve_task_id : Option (Dict String) → Dict String → Option String
retrieve_task_id none body = lookup "id" body
retrieve_task_id (some []) body = lookup "id" body
retrieve_task_id (some (h ∷ hs)) body = lookup "id" (h ∷ hs)

abbrev pub tag_keys : List String
tag_keys =
    "compression" ∷ "correlation_id" ∷ "countdown" ∷ "delivery_info" ∷ "eta" ∷ "exchange"
    ∷ "expires" ∷ "hostname" ∷ "id" ∷ "priority" ∷ "queue" ∷ "reply_to" ∷ "retries" ∷ "routing_key"
    ∷ "serializer" ∷ "timelimit" ∷ "origin" ∷ "state" ∷ []

-- `value is None or value == ''`
abbrev pub is_unset : Value → Bool
is_unset none_value = true
is_unset (text s f) = str_eq s ""
is_unset (number n s) = false
is_unset (object f s) = false

-- `value == 0`
abbrev pub is_zero : Value → Bool
is_zero none_value = false
is_zero (text s f) = false
is_zero (number (whole (pos zero)) s) = true
is_zero (number (whole (pos (suc n))) s) = false
is_zero (number (whole (ℤ.negsuc n)) s) = false
is_zero (number (fraction (pos zero) d) s) = true
is_zero (number (fraction (pos (suc n)) d) s) = false
is_zero (number (fraction (ℤ.negsuc n) d) s) = false
is_zero (number Number.nan s) = false
is_zero (number Number.infinite s) = false
is_zero (object f s) = false

-- whether a value of the context gives no tag; `is_no_limit` is whether it is a pair of None
unfoldable pub is_skipped : (Value → Bool) → String → Value → Bool
is_skipped is_no_limit key value =
    is_unset value
    || (str_eq key "timelimit" && is_no_limit value)
    || (str_eq key "retries" && is_zero value)

abbrev pub tag_name : String → String
tag_name key = "celery." ++ (if str_eq key "origin" then "hostname" else key)

abbrev pub value_or_none : Option Value → Value
value_or_none none = none_value
value_or_none (some v) = v

-- the loop of `tags_from_context`
unfoldable pub add_tags : (Value → Bool) → Dict Value → List String → Dict Value → Dict Value
add_tags is_no_limit context [] tags = tags
add_tags is_no_limit context (key ∷ keys) tags =
    let value = value_or_none (lookup key context) in
    add_tags is_no_limit context keys
      (if is_skipped is_no_limit key value then tags else insert (tag_name key) value tags)

-- `tags_from_context`
unfoldable pub tags_from_context : (Value → Bool) → Dict Value → Dict Value
tags_from_context is_no_limit context = add_tags is_no_limit context tag_keys []
