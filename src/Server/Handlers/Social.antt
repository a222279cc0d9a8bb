-- ===== src/Server/Handlers/Social.antt =====
-- fastkv-server/src/social_handlers.rs: its handlers check parameters and reply with nothing yet.
use key_manager.Base.{false, Option, none, some, [], Result, ok, ◌>>◌}
use key_manager.Base.Text.{Str, codes}
use key_manager.Server.Errors.{ApiError}
use key_manager.Server.Action.{pure}
use key_manager.Server.Validate.{validate_account_id}
use key_manager.Server.Models.{PaginationMeta}
use key_manager.Server.Models.Params.{
  SocialGetBody, SocialKeysBody, SocialIndexParams, SocialProfileParams, SocialFollowParams,
  SocialAccountFeedParams,
}
use key_manager.Server.Handlers.{Services, Handler, HttpResponse, Body, Value, respond_ok}
use key_manager.Server.Handlers.Checks.{account}

module _ {W E : Type 0} (services : Services W E) where
  abbrev Reply : Type 0
  Reply = HttpResponse (Value services)

  unfoldable pub resolve_contract : Option Str → Result Str ApiError
  resolve_contract none = ok services.social_contract
  resolve_contract (some id) = do validate_account_id id (codes "contract_id"); ok id

  abbrev nothing : Reply
  nothing = respond_ok (Body.social_object (services.json.object services.json.new_map))

  abbrev no_meta : PaginationMeta
  no_meta = record { has_more = false; truncated = false; next_cursor = none; dropped_rows = none }

  abbrev no_entries : Reply
  no_entries = respond_ok (Body.social_index (record { items = []; meta = no_meta }))

  abbrev no_accounts : Reply
  no_accounts =
      respond_ok (Body.social_follow (record { accounts = []; count = 0; meta = no_meta }))

  unfoldable pub social_get_handler : SocialGetBody → Handler W Reply
  social_get_handler body = pure nothing

  unfoldable pub social_keys_handler : SocialKeysBody → Handler W Reply
  social_keys_handler body = pure nothing

  unfoldable pub social_index_handler : SocialIndexParams → Handler W Reply
  social_index_handler query = pure no_entries

  unfoldable pub social_profile_handler : SocialProfileParams → Handler W Reply
  unfolding resolve_contract
  social_profile_handler query state = (
    do validate_account_id query.account_id account; resolve_contract query.contract_id; ok nothing,
    state,
  )

  unfoldable pub social_followers_handler : SocialFollowParams → Handler W Reply
  unfolding resolve_contract
  social_followers_handler query state = (
    do
      validate_account_id query.account_id account
      resolve_contract query.contract_id
      ok no_accounts,
    state,
  )

  unfoldable pub social_following_handler : SocialFollowParams → Handler W Reply
  unfolding resolve_contract
  social_following_handler query state = (
    do
      validate_account_id query.account_id account
      resolve_contract query.contract_id
      ok no_accounts,
    state,
  )

  unfoldable pub social_account_feed_handler : SocialAccountFeedParams → Handler W Reply
  social_account_feed_handler query = pure no_entries
