-- ===== src/Contract/Handlers/Access.antt =====
-- Which requests are refused to those who are not members, and what members share.
use key_manager.Base.{false, ◌≡◌, arith, ok}
use key_manager.Base.Text.{Str, codes}
use key_manager.Contract.Types.{Request}
use key_manager.Contract.Runtime.{Runtime}
use key_manager.Contract.Membership.{check_membership}
use key_manager.Contract.Handlers.{
  error_response, as_member, handle_get_key, handle_request, handle_wrap_key, handle_unwrap_key,
  handle_encrypt, handle_decrypt, handle_batch_encrypt, handle_batch_decrypt, execute,
}

-- The group and the account that a request names.
abbrev pub group_of : Request → Str
group_of (Request.get_key g a) = g
group_of (Request.get_group_key_id g a) = g
group_of (Request.wrap_key g a k) = g
group_of (Request.unwrap_key g a k) = g
group_of (Request.encrypt g a p) = g
group_of (Request.decrypt g a c) = g
group_of (Request.verify_membership g a) = g
group_of (Request.batch_encrypt g a items) = g
group_of (Request.batch_decrypt g a items) = g

abbrev pub account_of : Request → Str
account_of (Request.get_key g a) = a
account_of (Request.get_group_key_id g a) = a
account_of (Request.wrap_key g a k) = a
account_of (Request.unwrap_key g a k) = a
account_of (Request.encrypt g a p) = a
account_of (Request.decrypt g a c) = a
account_of (Request.verify_membership g a) = a
account_of (Request.batch_encrypt g a items) = a
account_of (Request.batch_decrypt g a items) = a

-- The requests that use the key of the group.
abbrev pub UsesKey : Request → Type 0
UsesKey (Request.get_group_key_id g a) = ⊥
UsesKey (Request.verify_membership g a) = ⊥
UsesKey _ = Unit

module _ (rt : Runtime) where
  abbrev pub denied : Str
  denied = error_response rt (codes "Not a group member") 403

  as_member-denied :
      (g a reply : Str) → check_membership g a ≡ false → as_member rt g a reply ≡ denied
  unfolding as_member
  as_member-denied g a reply h = ground arith

  handle_request-denied :
      (req : Request)
      → UsesKey req
      → check_membership (group_of req) (account_of req) ≡ false
      → handle_request rt req ≡ denied
  unfolding handle_request handle_get_key handle_wrap_key handle_unwrap_key handle_encrypt
      handle_decrypt handle_batch_encrypt handle_batch_decrypt
  handle_request-denied (Request.get_group_key_id g a) u h = absurd u
  handle_request-denied (Request.verify_membership g a) u h = absurd u
  handle_request-denied (Request.get_key g a) u h = as_member-denied g a _ h
  handle_request-denied (Request.wrap_key g a k) u h = as_member-denied g a _ h
  handle_request-denied (Request.unwrap_key g a k) u h = as_member-denied g a _ h
  handle_request-denied (Request.encrypt g a k) u h = as_member-denied g a _ h
  handle_request-denied (Request.decrypt g a k) u h = as_member-denied g a _ h
  handle_request-denied (Request.batch_encrypt g a k) u h = as_member-denied g a _ h
  handle_request-denied (Request.batch_decrypt g a k) u h = as_member-denied g a _ h

  execute-eq-handle_request :
      (input : Str) (req : Request)
      → rt.request_from_str input ≡ ok req
      → execute rt input ≡ handle_request rt req
  unfolding execute
  execute-eq-handle_request input req e = rw (e, execute)

  -- Every request that uses the key of a group is answered with the error 403, and with nothing
  -- else, if the account is not a member of that group, whatever else the request holds.
  pub execute-denied :
      (input : Str) (req : Request)
      → rt.request_from_str input ≡ ok req
      → UsesKey req
      → check_membership (group_of req) (account_of req) ≡ false
      → execute rt input ≡ denied
  execute-denied input req e u h =
      rw (execute-eq-handle_request input req e) (handle_request-denied req u h)
