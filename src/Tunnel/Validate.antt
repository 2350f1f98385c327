-- ===== src/Tunnel/Validate.antt =====
-- Which configurations `Validate` of internal/tunnel/mode.go accepts, and the arguments that args.go
-- builds of them.
use herdr_phone.Base.{
  List, [], ◌∷◌, ◌≡◌, ◌≢◌, ◌⊎◌, ◌↔◌, inl, inr, refl, true, none, some, arith, Str, if◌then◌else◌,
  Option-cases, ◌∙◌, ap, sym, subst,
}
use herdr_phone.Tunnel.Config.{
  Mode, named, quick, no_mode, other_mode, Strategy, by_config, by_credentials, by_token_file,
  by_token_command, no_strategy, other_strategy, Config, Result, failed, valid, Net, apply_defaults,
  found_strategies, resolve_from, resolve_strategy, validate_strategy, with_strategy, validate_mode,
  port_in_range, uses_token_command, metrics_addr_is_loopback, validate_defaulted, validate,
  build_args,
}

-- The strategy is named, or it is the only one whose fields are filled in.
abbrev pub IsChosen : Config → Strategy → Type 0
IsChosen c s = (c.strategy ≡ s) ⊎ ((c.strategy ≡ no_strategy) × (found_strategies c ≡ s ∷ []))

abbrev pub HasFields : Config → Strategy → Type 0
HasFields c by_config = c.config_file ≢ []
HasFields c by_credentials = (c.credentials_file ≢ []) × (c.tunnel ≢ [])
HasFields c by_token_file = c.token_file ≢ []
HasFields c by_token_command = c.token_command ≢ []
HasFields c no_strategy = ⊥
HasFields c (other_strategy s) = ⊥

-- The configuration that a named tunnel starts from.
abbrev pub IsNamed : Config → Config → Type 0
IsNamed c c' =
    (s : Strategy) × IsChosen c s
    × (c.public_url ≢ [])
    × HasFields c s
    × (c' ≡ record c { strategy = s })

abbrev pub IsStartable : Net → Config → Config → Type 0
IsStartable lib c c' =
    (port_in_range c.loopback_port ≡ true)
    × (metrics_addr_is_loopback lib (apply_defaults c).metrics_addr ≡ true)
    × (((c.mode ≡ quick) × (c.quick_enabled ≡ true) × (c' ≡ apply_defaults c))
        ⊎ ((c.mode ≡ named) × IsNamed (apply_defaults c) c'))

fields-filled :
    (c c' : Config) (s : Strategy) → validate_strategy c s ≡ valid c' → HasFields c s × (c' ≡ c)
unfolding validate_strategy
fields-filled c c' by_config h = ground arith
fields-filled c c' by_credentials h = ground arith
fields-filled c c' by_token_file h = ground arith
fields-filled c c' by_token_command h = ground arith
fields-filled c c' no_strategy h = ground arith
fields-filled c c' (other_strategy s) h = ground arith

filled-fields : (c : Config) (s : Strategy) → HasFields c s → validate_strategy c s ≡ valid c
unfolding validate_strategy
filled-fields c by_config h = ground arith
filled-fields c by_credentials h = ground arith
filled-fields c by_token_file h = ground arith
filled-fields c by_token_command h = ground arith
filled-fields c no_strategy h = ground arith
filled-fields c (other_strategy s) h = ground arith

IsFrom : Strategy → List Strategy → Strategy → Type 0
IsFrom s ss t = (s ≡ t) ⊎ ((s ≡ no_strategy) × (ss ≡ t ∷ []))

resolved :
    (s : Strategy) (ss : List Strategy) (t : Strategy) → resolve_from s ss ≡ valid t → IsFrom s ss t
unfolding IsFrom
resolved no_strategy (s ∷ []) t h = ground arith
resolved no_strategy [] t h = ground arith
resolved no_strategy (s ∷ s' ∷ ss) t h = ground arith
resolved (other_strategy s) ss t h = ground arith
resolved s ss t h = ground arith

-- A strategy with fields is resolved to itself.
resolves : (c : Config) (t : Strategy) → IsChosen c t → HasFields c t → resolve_strategy c ≡ valid t
unfolding resolve_strategy
resolves c no_strategy h f = ground arith
resolves c (other_strategy s) h f = ground arith
resolves c t (inl h) f = rw h refl
resolves c t (inr (h, k)) f = rw (h, k) refl

fields_moved :
    (c : Config) (s t : Strategy) → HasFields (record c { strategy = s }) t ↔ HasFields c t
fields_moved c s by_config = (λ h. h, λ h. h)
fields_moved c s by_credentials = (λ h. h, λ h. h)
fields_moved c s by_token_file = (λ h. h, λ h. h)
fields_moved c s by_token_command = (λ h. h, λ h. h)
fields_moved c s no_strategy = (λ h. h, λ h. h)
fields_moved c s (other_strategy t) = (λ h. h, λ h. h)

with_strategy-valid :
    (c c' : Config) (s : Strategy)
    → with_strategy c (valid s) ≡ valid c'
    → (c.public_url ≢ []) × (validate_strategy (record c { strategy = s }) s ≡ valid c')
with_strategy-valid c c' s h = ground arith

IsNamed-valid :
    (c c' : Config) (r : Result Strategy)
    → resolve_strategy c ≡ r
    → with_strategy c r ≡ valid c'
    → IsNamed c c'
unfolding resolve_strategy IsFrom
IsNamed-valid c c' (failed e) h k = ground arith
IsNamed-valid c c' (valid s) h k =
    let (url, fields) = with_strategy-valid c c' s k in
    let (has, same) = fields-filled (record c { strategy = s }) c' s fields in
    (s, resolved c.strategy (found_strategies c) s h, url, (fields_moved c s s).0 has, same)

mode_valid :
    (c c' : Config) (m : Mode)
    → validate_mode c m ≡ valid c'
    → ((m ≡ quick) × (c.quick_enabled ≡ true) × (c' ≡ c)) ⊎ ((m ≡ named) × IsNamed c c')
unfolding validate_mode
mode_valid c c' quick h = inl (ground arith)
mode_valid c c' named h = inr (refl, IsNamed-valid c c' (resolve_strategy c) refl h)
mode_valid c c' no_mode h = ground arith
mode_valid c c' (other_mode m) h = ground arith

named_accepted :
    (c : Config) (s : Strategy)
    → IsChosen c s
    → c.public_url ≢ []
    → HasFields c s
    → validate_mode c named ≡ valid (record c { strategy = s })
unfolding validate_mode
named_accepted c s h k f =
    rw (resolves c s h f)
      (rw (filled-fields (record c { strategy = s }) s ((fields_moved c s s).1 f)) (ground arith))

module _ (lib : Net) where
  checks-valid :
      (c c' : Config)
      → validate_defaulted lib c ≡ valid c'
      → (port_in_range c.loopback_port ≡ true)
        × (metrics_addr_is_loopback lib c.metrics_addr ≡ true)
        × (validate_mode c c.mode ≡ valid c')
  checks-valid c c' h = ground arith

  checks-pass :
      (c c' : Config)
      → port_in_range c.loopback_port ≡ true
      → metrics_addr_is_loopback lib c.metrics_addr ≡ true
      → validate_mode c c.mode ≡ valid c'
      → validate_defaulted lib c ≡ valid c'
  checks-pass c c' h k m = rw (h, k) m

  mode_accepted :
      (c c' : Config) (m : Mode)
      → ((m ≡ quick) × (c.quick_enabled ≡ true) × (c' ≡ c)) ⊎ ((m ≡ named) × IsNamed c c')
      → validate_mode c m ≡ valid c'
  unfolding validate_mode
  mode_accepted c c' quick h = ground arith
  mode_accepted c c' named (inl h) = ground arith
  mode_accepted c c' named (inr (m, (s, chosen, url, has, e))) =
      named_accepted c s chosen url has ∙ ap valid (sym e)
  mode_accepted c c' no_mode h = ground arith
  mode_accepted c c' (other_mode m) h = ground arith

  -- `Validate` accepts a configuration exactly if its port is between 1 and 65535, its metrics
  -- address, the default for an empty one, is a loopback address, and either it is a quick tunnel
  -- that is enabled or a named tunnel with a public URL and a credential strategy, the one it names
  -- or else the only one with fields filled in, whose fields are all filled in; and what it leaves is
  -- the configuration with the defaults and, for a named tunnel, that strategy.
  pub validate_lem : (c c' : Config) → (validate lib c ≡ valid c') ↔ IsStartable lib c c'
  unfolding validate apply_defaults
  validate_lem c c' = (
    λ h.
        let (port, metrics, m) = checks-valid (apply_defaults c) c' h in
        (port, metrics, mode_valid (apply_defaults c) c' c.mode m),
    λ (port, metrics, m).
        checks-pass (apply_defaults c) c' port metrics
          (mode_accepted (apply_defaults c) c' c.mode m),
  )

  -- Where a token file is used, its path: the temporary one of the token command, or the configured.
  abbrev pub token_path : Config → Str → Str
  token_path c temporary = if uses_token_command c then temporary else c.token_file

  quick_args : (c : Config) (path : Str) → c.mode ≡ quick → build_args lib c path ≢ none
  unfolding build_args
  quick_args c path h = ground arith

  named_args :
      (c : Config) (s : Strategy) (temporary : Str)
      → c.mode ≡ named
      → c.strategy ≡ s
      → HasFields c s
      → temporary ≢ []
      → build_args lib c (token_path c temporary) ≢ none
  unfolding build_args uses_token_command
  named_args c by_config temporary m e h t = ground arith
  named_args c by_credentials temporary m e h t = ground arith
  named_args c by_token_file temporary m e h t = ground arith
  named_args c by_token_command temporary m e h t = ground arith
  named_args c no_strategy temporary m e h t = ground arith
  named_args c (other_strategy s) temporary m e h t = ground arith

  startable_args :
      (c c' : Config) (temporary : Str)
      → IsStartable lib c c'
      → temporary ≢ []
      → build_args lib c' (token_path c' temporary) ≢ none
  unfolding apply_defaults
  startable_args c c' temporary (port, metrics, inl (m, enabled, same)) t =
      quick_args c' (token_path c' temporary) (rw same m)
  startable_args c c' temporary (port, metrics, inr (m, (s, chosen, url, has, same))) t =
      named_args c' s temporary (rw same m) (rw same refl)
        (subst (λ d. HasFields d s) (sym same) ((fields_moved (apply_defaults c) s s).1 has)) t

  -- Once a configuration is validated, and if the temporary token file has a path, `buildArgs` gives
  -- arguments and no error.
  pub validate-build_args :
      (c c' : Config) (temporary : Str)
      → validate lib c ≡ valid c'
      → temporary ≢ []
      → (args : List Str) × (build_args lib c' (token_path c' temporary) ≡ some args)
  validate-build_args c c' temporary h t =
      elim (Option-cases (build_args lib c' (token_path c' temporary))) [
        | inr found ↦ found
        | inl e ↦ absurd (startable_args c c' temporary ((validate_lem c c').0 h) t e)
      ]
