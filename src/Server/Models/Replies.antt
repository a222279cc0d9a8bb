-- ===== src/Server/Models/Replies.antt =====
-- The bodies of the replies, of fastkv-server/src/models.rs. The field `data` is named `items` or
-- `item` here.
use key_manager.Base.{ℕ, Bool, Option, List}
use key_manager.Base.Text.{Str}
use key_manager.Server.Models.{PaginationMeta}

pub record PaginatedResponse (A : Type 0) : Type 0 where
  pub items : List A
  pub meta : PaginationMeta

pub record DataResponse (A : Type 0) : Type 0 where
  pub item : A

pub record TreeResponse (V : Type 0) : Type 0 where
  pub tree : V
  pub has_more : Bool

pub record HealthResponse : Type 0 where
  pub status : Str
  pub database : Option Str

pub record DiffResponse (A : Type 0) : Type 0 where
  pub a : Option A
  pub b : Option A

pub record BatchResultItem : Type 0 where
  pub key : Str
  pub value : Option Str
  pub found : Bool
  pub error : Option Str

pub record StatusResponse : Type 0 where
  pub indexer_block : Option ℕ
  pub timestamp : Str

pub record EdgesCountResponse : Type 0 where
  pub edge_type : Str
  pub target : Str
  pub count : ℕ

pub record WatchEvent : Type 0 where
  pub key : Str
  pub value : Str
  pub block_height : ℕ
  pub block_timestamp : ℕ
  pub predecessor_id : Str
  pub current_account_id : Str

pub record IndexEntry (V : Type 0) : Type 0 where
  pub account_id : Str
  pub block_height : ℕ
  pub value : Option V

pub record SocialFollowResponse : Type 0 where
  pub accounts : List Str
  pub count : ℕ
  pub meta : PaginationMeta
