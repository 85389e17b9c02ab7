-- ===== src/Hooks/Tests.antt =====
-- oteltrace/settings/hooks.py: hooks that are registered, removed and called.
use opentelemetry_auto_instr.Common.{refl, insert, ◌≡◌, [], ◌∷◌, lookup}
use opentelemetry_auto_instr.Hooks.{Hooks, register}

abbrev on_request : Hooks
on_request = ("request", 1 ∷ 2 ∷ []) ∷ []

registered_thrice : register "request" 3 on_request ≡ ("request", 1 ∷ 2 ∷ 3 ∷ []) ∷ []
unfolding register lookup insert
registered_thrice = refl
