-- ===== src/Server/Models/Params.antt =====
-- The parameters of the requests, of fastkv-server/src/models.rs. An i64 is an integer.
use key_manager.Base.{ℕ, Bool, Option, List}
use key_manager.Base.Text.{Str}
use key_manager.Base.Decimal.{ℤ}

pub record GetParams : Type 0 where
  pub predecessor_id : Str
  pub current_account_id : Str
  pub key : Str
  pub fields : Option Str
  pub value_format : Option Str

pub record QueryParams : Type 0 where
  pub predecessor_id : Str
  pub current_account_id : Str
  pub key_prefix : Option Str
  pub exclude_deleted : Option Bool
  pub limit : ℕ
  pub offset : ℕ
  pub fields : Option Str
  pub format : Option Str
  pub value_format : Option Str
  pub after_key : Option Str

pub record WritersParams : Type 0 where
  pub current_account_id : Str
  pub key : Str
  pub predecessor_id : Option Str
  pub exclude_deleted : Option Bool
  pub limit : ℕ
  pub offset : ℕ
  pub fields : Option Str
  pub value_format : Option Str
  pub after_account : Option Str

pub record HistoryParams : Type 0 where
  pub predecessor_id : Str
  pub current_account_id : Str
  pub key : Str
  pub limit : ℕ
  pub order : Str
  pub from_block : Option ℤ
  pub to_block : Option ℤ
  pub fields : Option Str
  pub value_format : Option Str
  pub cursor : Option Str

pub record AccountsParams : Type 0 where
  pub current_account_id : Str
  pub key : Str
  pub exclude_deleted : Option Bool
  pub limit : ℕ
  pub offset : ℕ
  pub after_account : Option Str

pub record AccountsQueryParams : Type 0 where
  pub contract_id : Option Str
  pub key : Option Str
  pub limit : ℕ
  pub offset : ℕ
  pub after_account : Option Str

pub record ContractsQueryParams : Type 0 where
  pub predecessor_id : Option Str
  pub limit : ℕ
  pub after_contract : Option Str

pub record DiffParams : Type 0 where
  pub predecessor_id : Str
  pub current_account_id : Str
  pub key : Str
  pub block_height_a : ℤ
  pub block_height_b : ℤ
  pub fields : Option Str
  pub value_format : Option Str

pub record TimelineParams : Type 0 where
  pub predecessor_id : Str
  pub current_account_id : Str
  pub limit : ℕ
  pub order : Str
  pub from_block : Option ℤ
  pub to_block : Option ℤ
  pub fields : Option Str
  pub value_format : Option Str
  pub cursor : Option Str

pub record BatchQuery : Type 0 where
  pub predecessor_id : Str
  pub current_account_id : Str
  pub keys : List Str

pub record EdgesParams : Type 0 where
  pub edge_type : Str
  pub target : Str
  pub limit : ℕ
  pub offset : ℕ
  pub after_source : Option Str

pub record EdgesCountParams : Type 0 where
  pub edge_type : Str
  pub target : Str

pub record WatchParams : Type 0 where
  pub predecessor_id : Str
  pub current_account_id : Str
  pub key : Str
  pub interval : ℕ

pub record SocialGetOptions : Type 0 where
  pub with_block_height : Option Bool
  pub return_deleted : Option Bool

pub record SocialGetBody : Type 0 where
  pub keys : List Str
  pub contract_id : Option Str
  pub options : Option SocialGetOptions

pub record SocialKeysOptions : Type 0 where
  pub return_type : Option Str
  pub return_deleted : Option Bool
  pub values_only : Option Bool

pub record SocialKeysBody : Type 0 where
  pub keys : List Str
  pub contract_id : Option Str
  pub options : Option SocialKeysOptions

pub record SocialIndexParams : Type 0 where
  pub action : Str
  pub key : Str
  pub order : Str
  pub limit : ℕ
  pub from_height : Option ℕ
  pub account_id : Option Str
  pub contract_id : Option Str

pub record SocialProfileParams : Type 0 where
  pub account_id : Str
  pub contract_id : Option Str

pub record SocialFollowParams : Type 0 where
  pub account_id : Str
  pub limit : ℕ
  pub offset : ℕ
  pub contract_id : Option Str
  pub after_account : Option Str

pub record SocialAccountFeedParams : Type 0 where
  pub account_id : Str
  pub order : Str
  pub limit : ℕ
  pub from_height : Option ℕ
  pub include_replies : Option Bool
  pub contract_id : Option Str
