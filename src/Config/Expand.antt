-- ===== src/Config/Expand.antt =====
-- Paths (internal/config/paths.go), and the loading of a configuration: `expand`, `LoadData` and
-- `Load` of config.go. The environment is a function, empty where a variable is not set.
use herdr_phone.Base.{
  List, [], ◌∷◌, Bool, true, false, not, ◌||◌, Option, none, some, Str, bytes, str_eq, has_prefix,
  if◌then◌else◌,
}
use herdr_phone.Config.Model.{
  Config, Fault, empty_root, unset_variable, no_home, empty_path, Result, failed, done, Go, default,
}
use herdr_phone.Config.Decode.{RawConfig, and_then, decode_into}
use herdr_phone.Config.Validation.{is_empty, is_blank, has_any, validate}

-- `s[len("~/"):]` of a text that has that prefix.
abbrev after_tilde : Str → Str
after_tilde (a ∷ b ∷ s) = s
after_tilde s = []

abbrev any_unset : (Str → Str) → List Str → Bool
any_unset env [] = false
any_unset env (name ∷ names) = if is_empty (env name) then true else any_unset env names

-- The paths that `expand` rewrites in place.
abbrev pub with_paths : Config → List Str → Str → Str → Str → Str → Str → Str → Config
with_paths c roots config_file credentials_file token_file binary socket_path herdr_binary =
    record c {
      server = record c.server { allowed_workspace_roots = roots };
      cloudflare = record c.cloudflare {
        config_file = config_file;
        credentials_file = credentials_file;
        token_file = token_file;
        binary = binary;
      };
      herdr = record c.herdr { socket_path = socket_path; herdr_binary = herdr_binary };
    }

module _ (go : Go) (env : Str → Str) where
  abbrev cleaned : Str → Result Str
  cleaned p = if is_blank go p then failed empty_path else done (go.clean_path p)

  abbrev at_home : Str → Str → Result Str
  at_home [] p = failed no_home
  at_home (b ∷ home) p =
      cleaned (if str_eq p (bytes "~") then b ∷ home else go.join_path (b ∷ home) (after_tilde p))

  abbrev expand_home : Str → Result Str
  expand_home p =
      if str_eq p (bytes "~") || has_prefix (bytes "~/") p
      then at_home (env (bytes "HOME")) p
      else cleaned p

  unfoldable pub expand_path : Str → Result Str
  expand_path p =
      if is_blank go p
      then failed empty_path
      else if any_unset env (go.expand_names p)
      then failed unset_variable
      else expand_home (go.expand_text env p)

  abbrev looks_like_path : Str → Bool
  looks_like_path s = has_any (bytes "/~$") s

  unfoldable pub expand_if_path : Str → Result Str
  expand_if_path s = if is_empty s || not (looks_like_path s) then done s else expand_path s

  unfoldable pub expand_roots : List Str → Result (List Str)
  expand_roots [] = done []
  expand_roots (root ∷ roots) =
      let rest = expand_roots roots in
      if is_blank go root
      then failed empty_root
      else and_then (expand_path root) λ r. and_then rest λ rs. done (r ∷ rs)

  unfoldable pub expand : Config → Result Config
  expand c = and_then (expand_roots c.server.allowed_workspace_roots) λ roots.
      and_then (expand_if_path c.cloudflare.config_file) λ config_file.
        and_then (expand_if_path c.cloudflare.credentials_file) λ credentials_file.
          and_then (expand_if_path c.cloudflare.token_file) λ token_file.
            and_then (expand_if_path c.cloudflare.binary) λ binary.
              and_then (expand_if_path c.herdr.socket_path) λ socket_path.
                and_then (expand_if_path c.herdr.herdr_binary) λ herdr_binary. done (
                  with_paths c roots config_file credentials_file token_file binary socket_path
                    herdr_binary)

  abbrev pub validated : Option Fault → Config → Result Config
  validated none c = done c
  validated (some e) c = failed e

  abbrev pub finish_load : Config → Result Config
  finish_load c = and_then (expand c) λ c'. validated (validate go c') c'

  -- `LoadData`, after `toml.Decode`.
  unfoldable pub load_data : Option (RawConfig × List Str) → Result Config
  load_data decoded = and_then (decode_into go decoded default) λ c. finish_load c

  -- `Load`, given the decoded file if there is one.
  unfoldable pub load : Option (Option (RawConfig × List Str)) → Result Config
  load none = finish_load default
  load (some decoded) = load_data decoded
