-- ===== src/Config/Added.antt =====
-- oteltrace/settings/config.py: what `_add` makes of the settings of an integration.
use mathlib.Core.Path.{subst}
use opentelemetry_auto_instr.Common.{
  ◌≡◌, refl, ◌∙◌, ap, true, false, none, some, String, List, [], lookup, lookup-insert, str_eq,
  eq_refl, ok,
}
use opentelemetry_auto_instr.Config.Dicts.{
  Leaf, Setting, leaf, dict, Entries, end, entry, find, put, find-put, set_default,
  set_default_there, AreKeyed,
}
use opentelemetry_auto_instr.Config.Merge.{deepmerge}
use opentelemetry_auto_instr.Config.Merge.Paths.{AtPath, Merged, deepmerge-find, deepmerge-AtPath}
use opentelemetry_auto_instr.Config.Merge.Total.{Fits, deepmerge-Fits}
use opentelemetry_auto_instr.Config.Env.{Environ, get_env}
use opentelemetry_auto_instr.Config.{
  IntegrationConfig, Config, enabled_key, rate_key, env_flag, env_rate, new_integration, register,
  get_settings, add, with_rate,
}
use opentelemetry_auto_instr.Config.Http.{new_http}

abbrev configured : String → Entries → IntegrationConfig
configured name settings = record {
  integration_name = name;
  settings = settings;
  hooks = [];
  http = new_http;
}

-- The settings that the constructor leaves: with distinct keys, and the two of the analytics.
pub record IsConfigured (settings : Entries) : Type 0 where
  pub keyed : AreKeyed settings
  pub enabled : Setting
  pub rate : Setting
  pub has_enabled : find enabled_key settings ≡ some enabled
  pub has_rate : find rate_key settings ≡ some rate

-- A key that the source has stands in the result.
merged_there :
    (source d r : Entries) (key : String) (value : Setting)
    → AreKeyed source
    → deepmerge source d ≡ ok r
    → find key source ≡ some value
    → (node : Setting) × (find key r ≡ some node)
merged_there source d r key value keyed h e =
    let m =
      subst (λ o. Merged o (find key d) (find key r)) e (deepmerge-find source d key keyed h) in
    (m.0, m.2)

-- Nothing is added to settings that have the two of the analytics.
new_integration_there :
    (environ : Environ) (name : String) (settings : Entries) (rate : Leaf) (e s : Setting)
    → env_rate (get_env environ name rate_key) ≡ ok rate
    → find enabled_key settings ≡ some e
    → find rate_key settings ≡ some s
    → new_integration environ name settings ≡ ok (configured name settings)
unfolding new_integration
new_integration_there environ name settings rate e s rated he hr =
    let enabled = leaf (env_flag (get_env environ name enabled_key)) in
    let same : set_default rate_key (leaf rate) (set_default enabled_key enabled settings)
        ≡ settings =
      ap (set_default rate_key (leaf rate)) (set_default_there enabled_key enabled e settings he)
      ∙ set_default_there rate_key (leaf rate) s settings hr in
    ap (with_rate name settings (env_flag (get_env environ name enabled_key))) rated
    ∙ ap (λ d. ok (configured name d)) same

-- What the configuration holds after an integration was added.
pub record Added (name : String) (settings : Entries) (existing : Entries) (config after : Config)
    : Type 0 where
  pub new : IntegrationConfig
  pub stored : lookup name after.integrations ≡ some new
  pub merged :
      (path : List String) → AtPath path (dict existing) (some (dict settings)) (dict new.settings)
  pub others :
      (j : String)
      → str_eq name j ≡ false
      → lookup j after.integrations ≡ lookup j config.integrations

-- `_add` with merging, of an integration that is configured, and of settings in which none of its dicts
-- with an item meets a value that is no dict, where the environment has no sample rate for it or one
-- that is a number: it returns. The integration then has, at every path of keys, the leaf that it had;
-- and where its settings had nothing on the path, what the new settings have. The other integrations
-- are as they were.
pub add-Added :
    (environ : Environ) (name : String) (settings : Entries) (rate : Leaf) (config : Config)
    (existing : IntegrationConfig)
    → lookup name config.integrations ≡ some existing
    → IsConfigured existing.settings
    → Fits existing.settings settings
    → env_rate (get_env environ name rate_key) ≡ ok rate
    → let x = add environ name settings true config in
      (x.0 ≡ ok tt) × Added name settings existing.settings config x.1
unfolding add get_settings register
add-Added environ name settings rate config existing found c fits rated =
    let (r, e) = deepmerge-Fits existing.settings settings c.keyed fits in
    let (n₁, has_enabled) =
      merged_there existing.settings settings r enabled_key c.enabled c.keyed e c.has_enabled in
    let (n₂, has_rate) =
      merged_there existing.settings settings r rate_key c.rate c.keyed e c.has_rate in
    let made = new_integration_there environ name r rate n₁ n₂ rated has_enabled has_rate in
    rw (found, e, made)
      (
        refl,
        record {
          new = configured name r;
          stored = simp (lookup-insert, eq_refl) refl;
          merged = λ path. deepmerge-AtPath path existing.settings settings r c.keyed e;
          others = λ j other. simp (lookup-insert, other) refl;
        },
      )

-- the settings of an integration that was not there
abbrev fresh : Environ → String → Leaf → Entries
fresh environ name rate =
    entry enabled_key (leaf (env_flag (get_env environ name enabled_key)))
      (entry rate_key (leaf rate) end)

new_integration-fresh :
    (environ : Environ) (name : String) (rate : Leaf)
    → env_rate (get_env environ name rate_key) ≡ ok rate
    → new_integration environ name end ≡ ok (configured name (fresh environ name rate))
unfolding new_integration set_default find put
new_integration-fresh environ name rate rated =
    ap (with_rate name end (env_flag (get_env environ name enabled_key))) rated

-- What an integration that was not there has after `_add`.
pub record First (environ : Environ) (name : String) (settings : Entries) (rate : Leaf)
    (after : Config) : Type 0 where
  pub new : IntegrationConfig
  pub stored : lookup name after.integrations ≡ some new
  pub enabled :
      find enabled_key new.settings ≡ some (leaf (env_flag (get_env environ name enabled_key)))
  pub sampled : find rate_key new.settings ≡ some (leaf rate)
  pub given :
      (key : String)
      → str_eq enabled_key key ≡ false
      → str_eq rate_key key ≡ false
      → find key new.settings ≡ find key settings

-- `_add` with merging, of an integration that is not configured yet, whose sample rate in the
-- environment is none or a number: it returns, and whatever the given settings say of the two settings
-- of the analytics, they are what the environment says, or None and 1.0. All others are as given.
pub add-First :
    (environ : Environ) (name : String) (settings : Entries) (rate : Leaf) (config : Config)
    → lookup name config.integrations ≡ none
    → env_rate (get_env environ name rate_key) ≡ ok rate
    → let x = add environ name settings true config in
      (x.0 ≡ ok tt) × First environ name settings rate x.1
unfolding add get_settings register deepmerge
add-First environ name settings rate config missing rated =
    let enabled = leaf (env_flag (get_env environ name enabled_key)) in
    let r = put rate_key (leaf rate) (put enabled_key enabled settings) in
    let made =
      new_integration_there environ name r rate enabled (leaf rate) rated (simp find-put refl)
        (simp find-put refl) in
    rw (missing, new_integration-fresh environ name rate rated, made)
      (
        refl,
        record {
          new = configured name r;
          stored = simp (lookup-insert, eq_refl) refl;
          enabled = simp find-put refl;
          sampled = simp find-put refl;
          given = λ key other other'. simp (find-put, other, other') refl;
        },
      )
