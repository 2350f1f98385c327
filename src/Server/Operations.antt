-- ===== src/Server/Operations.antt =====
-- The allowlists of internal/server/mutations.go, and the error codes of internal/server/errors.go
-- and internal/server/upstream.go that the handlers map.
use herdr_phone.Base.{ℕ, List, [], ◌∷◌, Bool, true, false, Str, bytes, str_eq}

pub record OpSpec : Type 0 where
  pub requires_confirmation : Bool
  pub resource_field : Str
  pub alt_resource_field : Str

abbrev pub is_empty : Str → Bool
is_empty [] = true
is_empty (c ∷ s) = false

abbrev pub pane_id : Str
pane_id = bytes "pane_id"

-- `generationChecked`, of an operation and of a confirmable action.
unfoldable pub generation_checked : Str → Bool
generation_checked resource_field = str_eq resource_field pane_id

abbrev plain : Str → OpSpec
plain field = record {
  requires_confirmation = false;
  resource_field = field;
  alt_resource_field = [];
}

abbrev destructive : Str → OpSpec
destructive field = record {
  requires_confirmation = true;
  resource_field = field;
  alt_resource_field = [];
}

abbrev targeted : OpSpec
targeted = record {
  requires_confirmation = false;
  resource_field = pane_id;
  alt_resource_field = bytes "target";
}

abbrev worktree_removal : OpSpec
worktree_removal = record {
  requires_confirmation = true;
  resource_field = bytes "worktree_id";
  alt_resource_field = bytes "workspace_id";
}

unfoldable pub operations : List (Str × OpSpec)
operations =
    (bytes "workspace.create", plain [])
    ∷ (bytes "workspace.focus", plain (bytes "workspace_id"))
    ∷ (bytes "workspace.rename", plain (bytes "workspace_id"))
    ∷ (bytes "workspace.close", destructive (bytes "workspace_id"))
    ∷ (bytes "tab.create", plain [])
    ∷ (bytes "tab.focus", plain (bytes "tab_id"))
    ∷ (bytes "tab.rename", plain (bytes "tab_id"))
    ∷ (bytes "tab.move", plain (bytes "tab_id"))
    ∷ (bytes "tab.close", destructive (bytes "tab_id"))
    ∷ (bytes "pane.focus", plain pane_id)
    ∷ (bytes "pane.split", plain pane_id)
    ∷ (bytes "pane.resize", plain pane_id)
    ∷ (bytes "pane.zoom", plain pane_id)
    ∷ (bytes "pane.swap", plain pane_id)
    ∷ (bytes "pane.move", plain pane_id)
    ∷ (bytes "pane.rename", plain pane_id)
    ∷ (bytes "pane.close", destructive pane_id)
    ∷ (bytes "agent.focus", targeted)
    ∷ (bytes "agent.prompt", targeted)
    ∷ (bytes "agent.send_keys", targeted)
    ∷ (bytes "agent.rename", targeted)
    ∷ (bytes "agent.start", plain pane_id)
    ∷ (bytes "worktree.create", plain [])
    ∷ (bytes "worktree.open", plain [])
    ∷ (bytes "worktree.remove", worktree_removal)
    ∷ (bytes "worktree.remove_force", worktree_removal)
    ∷ []

pub record ConfirmSpec : Type 0 where
  pub resource_field : Str
  pub alt_resource_field : Str

abbrev pub op_takeover : Str
op_takeover = bytes "terminal.takeover"

abbrev simple : Str → ConfirmSpec
simple field = record { resource_field = field; alt_resource_field = [] }

abbrev removal : ConfirmSpec
removal = record { resource_field = bytes "worktree_id"; alt_resource_field = bytes "workspace_id" }

unfoldable pub confirmable : List (Str × ConfirmSpec)
confirmable =
    (bytes "workspace.close", simple (bytes "workspace_id"))
    ∷ (bytes "tab.close", simple (bytes "tab_id"))
    ∷ (bytes "pane.close", simple pane_id)
    ∷ (bytes "worktree.remove", removal)
    ∷ (bytes "worktree.remove_force", removal)
    ∷ (op_takeover, simple pane_id)
    ∷ []

-- The API error codes that the handlers use.
pub data Code : Type 0 where
  code_bad_request code_not_found code_conflict code_generation_stale code_confirmation_needed :
      Code
  code_confirmation_invalid code_deadline_exceeded code_unavailable code_internal : Code
  code_unsupported code_run_unavailable code_run_read_failed : Code

-- The upstream codes that `classifyMutateErr` tells apart; `other` is any other.
pub data Upstream : Type 0 where
  upstream_not_found upstream_invalid_params upstream_invalid_request : Upstream
  upstream_feature_disabled upstream_platform_unsupported upstream_plugin_disabled : Upstream
  upstream_incompatible upstream_stream_conflict upstream_timeout upstream_connect : Upstream
  upstream_transport upstream_canceled other : Upstream

-- `ctx.Err()` when a mutation has failed.
pub data ContextErr : Type 0 where
  running deadline_passed cancelled : ContextErr

unfoldable pub classify_upstream : Upstream → Code × ℕ × Bool
classify_upstream upstream_not_found = (code_not_found, 404, false)
classify_upstream upstream_invalid_params = (code_bad_request, 400, false)
classify_upstream upstream_invalid_request = (code_bad_request, 400, false)
classify_upstream upstream_feature_disabled = (code_unsupported, 501, false)
classify_upstream upstream_platform_unsupported = (code_unsupported, 501, false)
classify_upstream upstream_plugin_disabled = (code_unsupported, 501, false)
classify_upstream upstream_incompatible = (code_unsupported, 501, false)
classify_upstream upstream_stream_conflict = (code_conflict, 409, false)
classify_upstream upstream_timeout = (code_deadline_exceeded, 504, true)
classify_upstream upstream_connect = (code_unavailable, 503, true)
classify_upstream upstream_transport = (code_unavailable, 503, true)
classify_upstream upstream_canceled = (code_unavailable, 503, true)
classify_upstream other = (code_internal, 502, false)

unfoldable pub classify_mutate_err : ContextErr → Upstream → Code × ℕ × Bool
unfolding classify_upstream
classify_mutate_err deadline_passed e = (code_deadline_exceeded, 504, true)
classify_mutate_err cancelled e = (code_unavailable, 503, true)
classify_mutate_err running e = classify_upstream e
