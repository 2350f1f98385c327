-- ===== src/Config/Unmixed.antt =====
-- When the tunnel of internal/tunnel starts from a configuration that internal/config has accepted.
use herdr_phone.Base.{
  ℤ, pos, List, [], ◌∷◌, ◌++◌, ◌≡◌, ◌≢◌, ◌⊎◌, ◌↔◌, ◌∙◌, inl, inr, refl, sym, subst, arith, true,
  not, ◌||◌, none, Str, bytes, str_eq, length, append_assoc,
}
use herdr_phone.Config.Model.{Config, Cloudflare, Go, mode_named}
use herdr_phone.Config.Validation.{credential_strategies, validate, one_if}
use herdr_phone.Config.Accepted.{IsBetween}
use herdr_phone.Config.Forms.{strategies_one}
use herdr_phone.Config.Gate.{IsFront, validate-IsRunnable}
use herdr_phone.Config.Front.{tunnel_config, tunnel_mode}
use herdr_phone.Tunnel.Config.{
  Strategy, by_config, by_credentials, by_token_file, by_token_command, no_strategy, other_strategy,
  Net, valid, is_empty, named, metrics_addr_is_loopback, apply_defaults, port_in_range,
  one_if as one_strategy, Config as TunnelConfig,
}
use herdr_phone.Tunnel.Validate.{IsStartable, IsChosen, HasFields, validate_lem}
use herdr_phone.Tunnel.Config.{validate as validate_tunnel}

-- A configuration file without the credentials and the tunnel, or the two of them without it, or none
-- of the three.
abbrev pub Three : Str → Str → Str → Type 0
Three config_file credentials_file tunnel =
    ((config_file ≢ []) × (credentials_file ≡ []) × (tunnel ≡ []))
    ⊎ (((config_file ≡ []) × (credentials_file ≢ []) × (tunnel ≢ []))
        ⊎ ((config_file ≡ []) × (credentials_file ≡ []) × (tunnel ≡ [])))

abbrev pub IsUnmixed : Cloudflare → Type 0
IsUnmixed c = Three c.config_file c.credentials_file c.tunnel

-- As `resolveStrategy` counts.
abbrev found_of : Str → Str → Str → List Strategy → List Strategy
found_of cf cr tn rest =
    one_strategy (not (is_empty cf)) by_config
    ++ one_strategy (not (is_empty cr) || not (is_empty tn)) by_credentials
    ++ rest

abbrev FieldsOf : Str → Str → Str → Strategy → Type 0
FieldsOf cf cr tn by_config = cf ≢ []
FieldsOf cf cr tn by_credentials = (cr ≢ []) × (tn ≢ [])
FieldsOf cf cr tn by_token_file = Unit
FieldsOf cf cr tn by_token_command = Unit
FieldsOf cf cr tn no_strategy = ⊥
FieldsOf cf cr tn (other_strategy s) = ⊥

Three-of :
    (cf cr tn : Str) (rest : List Strategy) (s : Strategy)
    → found_of cf cr tn rest ≡ s ∷ []
    → FieldsOf cf cr tn s
    → Three cf cr tn
Three-of [] [] [] rest s h f = inr (inr (refl, refl, refl))
Three-of [] (b ∷ cr) (a ∷ tn) rest s h f =
    inr (inl (refl, (λ e. ground (arith, e)), (λ e. ground (arith, e))))
Three-of (d ∷ cf) [] [] rest s h f = inl ((λ e. ground (arith, e)), refl, refl)
Three-of (d ∷ cf) (b ∷ cr) tn rest s h f = ground arith
Three-of (d ∷ cf) [] (a ∷ tn) rest s h f = ground arith
Three-of [] [] (a ∷ tn) rest by_credentials h f = ground arith
Three-of [] (b ∷ cr) [] rest by_credentials h f = ground arith
Three-of [] [] (a ∷ tn) rest s h f = ground arith
Three-of [] (b ∷ cr) [] rest s h f = ground arith

abbrev tokens : Str → List Str → List Strategy
tokens tf tc =
    one_strategy (not (is_empty tf)) by_token_file
    ++ one_strategy (not (is_empty tc)) by_token_command

-- As `credentialStrategies` counts.
abbrev counted : Str → Str → Str → Str → List Str → List Str
counted cf cr tn tf tc =
    one_if (not (is_empty cf) || not (is_empty cr) || not (is_empty tn))
      (bytes "config/credentials")
    ++ one_if (not (is_empty tf)) (bytes "token file")
    ++ one_if (not (is_empty tc)) (bytes "token command")

abbrev Filled : Str → Str → Str → Str → List Str → Strategy → Type 0
Filled cf cr tn tf tc by_config = cf ≢ []
Filled cf cr tn tf tc by_credentials = (cr ≢ []) × (tn ≢ [])
Filled cf cr tn tf tc by_token_file = tf ≢ []
Filled cf cr tn tf tc by_token_command = tc ≢ []
Filled cf cr tn tf tc no_strategy = ⊥
Filled cf cr tn tf tc (other_strategy s) = ⊥

cons-nil : {A : Type 0} (a : A) (x : List A) → a ∷ x ≢ []
cons-nil a x e = ground (arith, e)

pick :
    (cf cr tn tf : Str) (tc : List Str)
    → Three cf cr tn
    → length (counted cf cr tn tf tc) ≡ 1
    → (s : Strategy) × (found_of cf cr tn (tokens tf tc) ≡ s ∷ []) × Filled cf cr tn tf tc s
pick (a ∷ cf) [] [] [] [] h n = (by_config, refl, cons-nil a cf)
pick [] (a ∷ cr) (b ∷ tn) [] [] h n = (by_credentials, refl, (cons-nil a cr, cons-nil b tn))
pick [] [] [] (a ∷ tf) [] h n = (by_token_file, refl, cons-nil a tf)
pick [] [] [] [] (a ∷ tc) h n = (by_token_command, refl, cons-nil a tc)
pick cf cr tn tf tc h n = ground arith

abbrev startable : Config → Str → TunnelConfig
startable c mode = apply_defaults (tunnel_config c mode c.server.port)

fields_found :
    (c : Config) (mode : Str) (s : Strategy)
    → HasFields (startable c mode) s
    → FieldsOf c.cloudflare.config_file c.cloudflare.credentials_file c.cloudflare.tunnel s
unfolding tunnel_config apply_defaults
fields_found c mode by_config h = h
fields_found c mode by_credentials h = h
fields_found c mode by_token_file h = tt
fields_found c mode by_token_command h = tt
fields_found c mode no_strategy h = h
fields_found c mode (other_strategy s) h = h

Filled-fields :
    (c : Config) (mode : Str) (s : Strategy)
    → Filled c.cloudflare.config_file c.cloudflare.credentials_file c.cloudflare.tunnel
        c.cloudflare.token_file c.cloudflare.token_command s
    → HasFields (startable c mode) s
unfolding tunnel_config apply_defaults
Filled-fields c mode by_config h = h
Filled-fields c mode by_credentials h = h
Filled-fields c mode by_token_file h = h
Filled-fields c mode by_token_command h = h
Filled-fields c mode no_strategy h = h
Filled-fields c mode (other_strategy s) h = h

chosen_found :
    (c : Config) (mode : Str) (s : Strategy)
    → IsChosen (startable c mode) s
    → HasFields (startable c mode) s
    → found_of c.cloudflare.config_file c.cloudflare.credentials_file c.cloudflare.tunnel
        (tokens c.cloudflare.token_file c.cloudflare.token_command)
      ≡ s ∷ []
unfolding tunnel_config apply_defaults
chosen_found c mode s (inl e) h = absurd (subst (λ t. HasFields (startable c mode) t) (sym e) h)
chosen_found c mode s (inr (e, k)) h =
    sym (
      append_assoc
        (one_strategy (not (is_empty c.cloudflare.config_file)) by_config
          ++ one_strategy
              (not (is_empty c.cloudflare.credentials_file) || not (is_empty c.cloudflare.tunnel))
              by_credentials)
        (one_strategy (not (is_empty c.cloudflare.token_file)) by_token_file)
        (one_strategy (not (is_empty c.cloudflare.token_command)) by_token_command))
    ∙ k

module _ (go : Go) (net : Net) where
  named_mode : (mode : Str) → mode ≡ mode_named → tunnel_mode mode ≡ named
  unfolding tunnel_mode str_eq
  named_mode mode m = rw m refl

  starts-IsUnmixed :
      (c : Config) (mode : Str) (c' : TunnelConfig)
      → mode ≡ mode_named
      → IsStartable net (tunnel_config c mode c.server.port) c'
      → IsUnmixed c.cloudflare
  unfolding tunnel_config tunnel_mode str_eq
  starts-IsUnmixed c mode c' m (port, metrics, inl (q, on, same)) =
      ground (arith, named_mode mode m, q)
  starts-IsUnmixed c mode c' m (port, metrics, inr (n, (s, chosen, url, has, same))) =
      Three-of _ _ _ (tokens c.cloudflare.token_file c.cloudflare.token_command) s
        (chosen_found c mode s chosen has) (fields_found c mode s has)

  named_of :
      (c : Config) (mode : Str)
      → mode ≡ mode_named
      → IsFront go mode c.cloudflare c.access
      → (c.cloudflare.public_url ≢ []) × (length (credential_strategies c.cloudflare) ≡ 1)
  named_of c mode m (inl (e, url, one, gated)) = (url, (strategies_one c.cloudflare).1 one)
  named_of c mode m (inr (inl (e, url, one, gated))) = ground (arith, m, e)
  named_of c mode m (inr (inr (e, on))) = ground (arith, m, e)

  found-IsChosen :
      (c : Config) (mode : Str) (s : Strategy)
      → found_of c.cloudflare.config_file c.cloudflare.credentials_file c.cloudflare.tunnel
          (tokens c.cloudflare.token_file c.cloudflare.token_command)
        ≡ s ∷ []
      → IsChosen (startable c mode) s
  unfolding tunnel_config apply_defaults
  found-IsChosen c mode s e = inr (
    refl,
    append_assoc
          (one_strategy (not (is_empty c.cloudflare.config_file)) by_config
            ++ one_strategy
                (not (is_empty c.cloudflare.credentials_file) || not (is_empty c.cloudflare.tunnel))
                by_credentials)
          (one_strategy (not (is_empty c.cloudflare.token_file)) by_token_file)
          (one_strategy (not (is_empty c.cloudflare.token_command)) by_token_command)
        ∙ e,
  )

  IsUnmixed-starts :
      (c : Config) (mode : Str)
      → mode ≡ mode_named
      → port_in_range c.server.port ≡ true
      → metrics_addr_is_loopback net (bytes "127.0.0.1:0") ≡ true
      → c.cloudflare.public_url ≢ []
      → length (credential_strategies c.cloudflare) ≡ 1
      → IsUnmixed c.cloudflare
      → (c' : TunnelConfig) × IsStartable net (tunnel_config c mode c.server.port) c'
  unfolding credential_strategies apply_defaults tunnel_config
  IsUnmixed-starts c mode m port metrics url one h =
      let (s, found, filled) =
        pick _ _ _ c.cloudflare.token_file c.cloudflare.token_command h one in
      (
        record (startable c mode) { strategy = s },
        (
          port,
          metrics,
          inr (
            named_mode mode m,
            (s, found-IsChosen c mode s found, url, Filled-fields c mode s filled, refl),
          ),
        ),
      )

  port_ok : (p : ℤ) → IsBetween 1 65_535 p → port_in_range p ≡ true
  port_ok (pos n) h = ground arith
  port_ok p h = ground arith

  -- The tunnel accepts an accepted configuration in named mode, on the condition that `net` reads the
  -- default metrics address as a loopback one, exactly if it does not mix a configuration file with
  -- credentials or a tunnel name, and gives the credentials and the tunnel name together or not at
  -- all.
  pub validate-tunnel_config :
      metrics_addr_is_loopback net (bytes "127.0.0.1:0") ≡ true
      → (c : Config) → validate go c ≡ none
      → c.cloudflare.mode ≡ mode_named
      → ((c' : TunnelConfig) × (validate_tunnel net
              (tunnel_config c c.cloudflare.mode c.server.port)
            ≡ valid c'))
        ↔ IsUnmixed c.cloudflare
  validate-tunnel_config metrics c ok m =
      let run = (validate-IsRunnable go c).0 ok in
      let (url, one) = named_of c c.cloudflare.mode m run.front in
      (
        λ (c', e).
            starts-IsUnmixed c c.cloudflare.mode c' m
              ((validate_lem net (tunnel_config c c.cloudflare.mode c.server.port) c').0 e),
        λ h.
            let (c', start) =
              IsUnmixed-starts c c.cloudflare.mode m (port_ok c.server.port run.server.has_port)
                metrics url one h in
            (c', (validate_lem net (tunnel_config c c.cloudflare.mode c.server.port) c').1 start),
      )
