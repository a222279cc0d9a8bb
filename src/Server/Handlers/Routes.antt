-- ===== src/Server/Handlers/Routes.antt =====
-- The services of fastkv-server/src/main.rs: a request reaches the handler of its path.
pub mod Guards
pub mod Bounds
pub mod Listed
mod Tests
use key_manager.Base.{Option, List, Result}
use key_manager.Base.Text.{Str}
use key_manager.Server.Models.Params.{
  GetParams, QueryParams, WritersParams, HistoryParams, AccountsQueryParams, ContractsQueryParams,
  DiffParams, TimelineParams, BatchQuery, EdgesParams, EdgesCountParams, WatchParams, SocialGetBody,
  SocialKeysBody, SocialIndexParams, SocialProfileParams, SocialFollowParams,
  SocialAccountFeedParams,
}
use key_manager.Server.Handlers.{Services, Handler, HttpRequest, HttpResponse, Value}
use key_manager.Server.Handlers.Entries.{
  get_kv_handler, query_kv_handler, history_kv_handler, writers_handler, diff_kv_handler,
  timeline_kv_handler,
}
use key_manager.Server.Handlers.Lists.{
  health_check_handler, accounts_handler, contracts_handler, batch_kv_handler, edges_handler,
  edges_count_handler, status_handler,
}
use key_manager.Server.Handlers.Watch.{watch_kv_handler}
use key_manager.Server.Handlers.Social.{
  social_get_handler, social_keys_handler, social_index_handler, social_profile_handler,
  social_followers_handler, social_following_handler, social_account_feed_handler,
}

-- A request, by its path and method, with the parameters that were read from it.
pub data Route : Type 0 where
  health : Route
  status : Route
  get : GetParams → Route
  query : QueryParams → Route
  history : HistoryParams → Route
  writers : WritersParams → Route
  batch : BatchQuery → Route
  diff : DiffParams → Route
  timeline : TimelineParams → Route
  accounts : AccountsQueryParams → Route
  contracts : ContractsQueryParams → Route
  edges : EdgesParams → Route
  edges_count : EdgesCountParams → Route
  watch : WatchParams → Route
  social_get : SocialGetBody → Route
  social_keys : SocialKeysBody → Route
  social_index : SocialIndexParams → Route
  social_profile : SocialProfileParams → Route
  social_followers : SocialFollowParams → Route
  social_following : SocialFollowParams → Route
  social_account_feed : SocialAccountFeedParams → Route

unfoldable pub serve :
    {W E : Type 0} (services : Services W E)
    → HttpRequest
    → Route
    → Handler W (HttpResponse (Value services))
serve services req health = health_check_handler services
serve services req status = status_handler services req
serve services req (get q) = get_kv_handler services q
serve services req (query q) = query_kv_handler services q
serve services req (history q) = history_kv_handler services q
serve services req (writers q) = writers_handler services q
serve services req (batch q) = batch_kv_handler services q
serve services req (diff q) = diff_kv_handler services q
serve services req (timeline q) = timeline_kv_handler services q
serve services req (accounts q) = accounts_handler services req q
serve services req (contracts q) = contracts_handler services req q
serve services req (edges q) = edges_handler services q
serve services req (edges_count q) = edges_count_handler services q
serve services req (watch q) = watch_kv_handler services q req
serve services req (social_get q) = social_get_handler services q
serve services req (social_keys q) = social_keys_handler services q
serve services req (social_index q) = social_index_handler services q
serve services req (social_profile q) = social_profile_handler services q
serve services req (social_followers q) = social_followers_handler services q
serve services req (social_following q) = social_following_handler services q
serve services req (social_account_feed q) = social_account_feed_handler services q
