-- ===== src/Config/Loaded.antt =====
-- What a configuration that `Load` of internal/config/config.go gives satisfies, and the one it never
-- gives.
use herdr_phone.Base.{List, [], ◌≡◌, inl, inr, refl, arith, Option, none, some, Str, ap, sym, ◌∙◌}
use herdr_phone.Config.Model.{Config, Fault, Result, failed, done, Go, default, mode_named}
use herdr_phone.Config.Decode.{RawConfig, and_then, decode_into}
use herdr_phone.Config.Validation.{validate}
use herdr_phone.Config.Expand.{
  with_paths, expand_roots, expand_if_path, expand, validated, finish_load, load_data, load,
}
use herdr_phone.Config.Gate.{IsRunnable, IsFront, validate-IsRunnable}

and_then-done :
    {A B : Type 0} (r : Result A) (k : A → Result B) (b : B)
    → and_then r k ≡ done b
    → (a : A) × (r ≡ done a) × (k a ≡ done b)
and_then-done (failed e) k b h = ground (arith, h)
and_then-done (done a) k b h = (a, refl, h)

-- What holds of every result of what follows holds of the result.
and_then_all :
    {A B : Type 0} (P : Type 0) (r : Result A) (k : A → Result B) (b : B)
    → ((a : A) → k a ≡ done b → P)
    → and_then r k ≡ done b
    → P
and_then_all P (failed e) k b each h = ground (arith, h)
and_then_all P (done a) k b each h = each a h

module _ (go : Go) (env : Str → Str) where
  validated-done :
      (o : Option Fault) (c d : Config) → validated go env o c ≡ done d → (o ≡ none) × (c ≡ d)
  validated-done none c d h = (refl, ground (arith, h))
  validated-done (some e) c d h = ground (arith, h)

  finished : (c d : Config) → finish_load go env c ≡ done d → validate go d ≡ none
  finished c d h =
      let (c', expanded, valid) = and_then-done (expand go env c) _ d h in
      let (ok, same) = validated-done (validate go c') c' d valid in
      ap (validate go) (sym same) ∙ ok

  -- A configuration that is loaded, from a file or from none, is runnable.
  pub load-IsRunnable :
      (file : Option (Option (RawConfig × List Str))) (c : Config)
      → load go env file ≡ done c
      → IsRunnable go c
  unfolding load load_data
  load-IsRunnable none c h = (validate-IsRunnable go c).0 (finished default c h)
  load-IsRunnable (some decoded) c h =
      let (d, e, k) = and_then-done (decode_into go decoded default) _ c h in
      (validate-IsRunnable go c).0 (finished d c k)

  -- Expanding changes neither the mode nor the URL.
  expand_front :
      (c d : Config)
      → expand go env c ≡ done d
      → (d.cloudflare.mode ≡ c.cloudflare.mode)
        × (d.cloudflare.public_url ≡ c.cloudflare.public_url)
  unfolding expand
  expand_front c d =
      and_then_all Same (expand_roots go env c.server.allowed_workspace_roots) _ d λ roots.
        and_then_all Same (expand_if_path go env c.cloudflare.config_file) _ d λ config_file.
          and_then_all Same (expand_if_path go env c.cloudflare.credentials_file) _ d
            λ credentials_file.
              and_then_all Same (expand_if_path go env c.cloudflare.token_file) _ d λ token_file.
                and_then_all Same (expand_if_path go env c.cloudflare.binary) _ d λ binary.
                  and_then_all Same (expand_if_path go env c.herdr.socket_path) _ d λ socket_path.
                    and_then_all Same (expand_if_path go env c.herdr.herdr_binary) _ d
                      λ herdr_binary h.
                        same_front
                          (with_paths c roots config_file credentials_file token_file binary
                            socket_path herdr_binary)
                          h
    where
      Same : Type 0
      Same =
          (d.cloudflare.mode ≡ c.cloudflare.mode)
          × (d.cloudflare.public_url ≡ c.cloudflare.public_url)

      same_front :
          (e : Config)
          → done e ≡ done d
          → (d.cloudflare.mode ≡ e.cloudflare.mode)
            × (d.cloudflare.public_url ≡ e.cloudflare.public_url)
      same_front e h = ground (arith, h)

  -- A configuration in named mode without a URL is not runnable.
  no_front :
      (c : Config)
      → c.cloudflare.mode ≡ mode_named
      → c.cloudflare.public_url ≡ []
      → ¬ IsRunnable go c
  no_front c m u h = none_of h.front
    where
      none_of : ¬ IsFront go c.cloudflare.mode c.cloudflare c.access
      none_of (inl (e, url, one, gated)) = url u
      none_of (inr (inl (e, url, no_one, gated))) = url u
      none_of (inr (inr (e, _))) = ground (arith, m, e)

  never_done : (r : Result Config) → ((c : Config) → r ≡ done c → ⊥) → (f : Fault) × (r ≡ failed f)
  never_done (failed f) h = (f, refl)
  never_done (done c) h = absurd (h c refl)

  -- With no file `Load` is an error, in every environment: the defaults cannot run.
  pub load_default : (f : Fault) × (load go env none ≡ failed f)
  unfolding load default
  load_default = never_done (load go env none) λ c h.
      let (d, expanded, valid) = and_then-done (expand go env default) _ c h in
      let (ok, same) = validated-done (validate go d) d c valid in
      let (mode, url) = expand_front default d expanded in
      no_front d mode url ((validate-IsRunnable go d).0 ok)
