-- ===== src/Contrib/Redis/Bounds.antt =====
-- oteltrace/contrib/redis/util.py: how long a formatted command is.
use opentelemetry_auto_instr.Common.{
  ℕ, ◌+◌, ◌-◌, ◌≤◌, arith, ltb, Bool-cases, inl, inr, Option, none, some, String, List, [], ◌∷◌,
  length,
}
use opentelemetry_auto_instr.Value.{Value, stringify}
use opentelemetry_auto_instr.Text.{
  text_length, take_text, join_by, text_length-take_text, text_length-append, text_length-join_by,
}
use opentelemetry_auto_instr.Contrib.Redis.{
  cmd_max_len, too_long_mark, shorten, append_cmd, format_each, format_command_args,
}

-- A step adds at most itself and a separator to what the steps after it give, or ends the loop.
append_cmd_bound :
    (cmd : String) (so_far n : ℕ) (rest : List String)
    → so_far ≤ 1000
    → (so_far + text_length cmd ≤ 1000
        → text_length (join_by " " rest) + (so_far + text_length cmd) ≤ 1003 + n)
    → text_length (join_by " " (append_cmd cmd so_far rest)) + so_far ≤ 1004 + n
unfolding append_cmd join_by
append_cmd_bound cmd so_far n rest small h =
    elim (Bool-cases (ltb cmd_max_len (so_far + text_length cmd))) [
      | inl over ↦ rw over (
          let k = text_length-take_text (1000 - so_far) cmd in
          let e = text_length-append (take_text (1000 - so_far) cmd) too_long_mark in omega arith)
      | inr fits ↦
          let k = text_length-join_by " " cmd rest in
          let le : so_far + text_length cmd ≤ 1000 = ground (arith, fits) in
          let i = h le in rw fits (omega arith)
    ]

format_each_bound :
    (args : List Value) (so_far : ℕ)
    → so_far ≤ 1000
    → text_length (join_by " " (format_each args so_far)) + so_far ≤ 1003 + length args
unfolding format_each join_by
format_each_bound [] so_far small = omega arith
format_each_bound (arg ∷ args) so_far small =
    let h =
      shown (stringify arg) (λ s. format_each_bound args (so_far + text_length (shorten s))) in
    omega arith
  where
    shown :
        (o : Option String)
        → ((s : String)
            → so_far + text_length (shorten s) ≤ 1000
            → text_length (join_by " " (format_each args (so_far + text_length (shorten s))))
                + (so_far + text_length (shorten s))
              ≤ 1003 + length args)
        → text_length (
              join_by " " (elim o as (λ _. List String) [
                | none ↦ "?" ∷ []
                | some s ↦
                    append_cmd
                      (shorten s)
                      so_far
                      (format_each args (so_far + text_length (shorten s)))
              ]))
            + so_far
          ≤ 1004 + length args
    shown none h = omega arith
    shown (some s) h = append_cmd_bound (shorten s) so_far (length args) _ small (h s)

-- A formatted command of n arguments has at most 1003 + n characters, however long the arguments are.
pub format_command_args_bound :
    (args : List Value) → text_length (format_command_args args) ≤ 1003 + length args
unfolding format_command_args
format_command_args_bound args = let h = format_each_bound args 0 (omega arith) in omega arith
