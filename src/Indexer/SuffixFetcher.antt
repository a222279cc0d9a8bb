-- ===== src/Indexer/SuffixFetcher.antt =====
-- fastdata-indexer/suffix-fetcher/src/lib.rs: fast data from Redis to a sub-indexer. The replies to
-- SCAN, the flag `is_running` and the end of the channel are the environment's: inputs of a run.
pub mod Stream
pub mod Turns
pub mod Keys
mod Tests
use key_manager.Base.{
  ℕ, suc, ◌+◌, Bool, true, false, ◌||◌, not, Option, none, some, List, [], ◌∷◌, ◌++◌, Result, ok,
  err, ltb, length, if◌then◌else◌,
}
use key_manager.Base.Text.{Str, split}
use key_manager.Base.Decimal.{parse_u64}
use key_manager.Indexer.RedisDb.{FastData}

-- `parts[3].parse::<u64>()` of a key with at least five parts
abbrev fourth : List Str → Option Str
fourth (a ∷ b ∷ c ∷ part ∷ parts) = some part
fourth _ = none

unfoldable pub key_height : Str → Option ℕ
key_height key =
    let parts = split b':' key in
    if ltb (length parts) 5
    then none
    else elim (fourth parts) [ none ↦ none | some part ↦ parse_u64 part ]

-- What GET and serde_json give for a key, and whether the receiver still takes what is sent.
pub record Source (E : Type 0) : Type 0 where
  pub get : Str → Result (Option Str) E
  pub from_str : Str → Option FastData
  pub is_open : List FastData → Bool

-- The replies to SCAN in a stream: at each turn of the loop the flag may be found cleared, the
-- command may fail, or it yields keys, with a cursor that ends the scan or not.
pub data Replies (E : Type 0) : Type 0 where
  shutdown : Replies E
  failed : E → Replies E
  last_page : List Str → Replies E
  page : List Str → Replies E → Replies E

pub record Progress : Type 0 where
  pub sent : List FastData
  pub had_data : Bool
  pub last_block : Option ℕ

-- After a key the stream goes on, or returns.
pub data KeyStep (E : Type 0) : Type 0 where
  next_key : Progress → KeyStep E
  return_ok : Progress → KeyStep E
  return_err : E → Progress → KeyStep E

module _ {E : Type 0} (source : Source E) (from_block to_block : ℕ) where
  open source use {get, from_str, is_open}

  -- `sink.send(fastdata)`: what was sent before decides whether the receiver is still there.
  unfoldable pub send : Progress → FastData → KeyStep E
  send p fastdata =
      if is_open p.sent
      then next_key (record {
        sent = p.sent ++ fastdata ∷ [];
        had_data = true;
        last_block = some fastdata.block_height;
      })
      else return_ok
          (record { sent = p.sent; had_data = true; last_block = some fastdata.block_height })

  unfoldable pub handle_key : Progress → Str → KeyStep E
  unfolding key_height send
  handle_key p key = elim (key_height key) [
    | none ↦ next_key p
    | some block_height ↦
        if ltb block_height from_block || ltb to_block block_height
        then next_key p
        else elim (get key) [
          | err e ↦ return_err e p
          | ok found ↦ elim found [
            | none ↦ next_key p
            | some json ↦ elim (from_str json) [
              | none ↦ next_key p
              | some fastdata ↦ send p fastdata
            ]
          ]
        ]
  ]

  unfoldable pub handle_keys : Progress → List Str → KeyStep E
  unfolding handle_key
  handle_keys p [] = next_key p
  handle_keys p (key ∷ keys) = elim (handle_key p key) [
    | next_key p' ↦ handle_keys p' keys
    | return_ok p' ↦ return_ok p'
    | return_err e p' ↦ return_err e p'
  ]

  unfoldable pub stream_suffix_data : Replies E → Progress → Result Bool E × Progress
  unfolding handle_keys
  stream_suffix_data shutdown p = (ok true, p)
  stream_suffix_data (failed e) p = (err e, p)
  stream_suffix_data (last_page keys) p = elim (handle_keys p keys) [
    | next_key p' ↦ (ok p'.had_data, p')
    | return_ok p' ↦ (ok true, p')
    | return_err e p' ↦ (err e, p')
  ]
  stream_suffix_data (page keys replies) p = elim (handle_keys p keys) [
    | next_key p' ↦ stream_suffix_data replies p'
    | return_ok p' ↦ (ok true, p')
    | return_err e p' ↦ (err e, p')
  ]

  -- The attempts for a range, each with its replies: what all of them sent, and the last block of
  -- the one that succeeded.
  unfoldable pub fetch_range : List (Replies E) → List FastData → Option (Option ℕ) × List FastData
  unfolding stream_suffix_data
  fetch_range [] sent = (none, sent)
  fetch_range (replies ∷ attempts) sent =
      let streamed =
        stream_suffix_data replies (record { sent = sent; had_data = false; last_block = none }) in
      elim streamed.0 [
        | ok had_data ↦ (some streamed.1.last_block, streamed.1.sent)
        | err e ↦ fetch_range attempts streamed.1.sent
      ]

-- What a turn of the loop of `start` does: the fast data it sends, the end of range it sends, and
-- the height it goes on from, or that it stops.
pub record Turn : Type 0 where
  pub sent : List FastData
  pub end_of_range : Option ℕ
  pub next_from : Option ℕ

-- What the environment does in a turn: the reply to the query for the last height, the replies in
-- each of the four attempts, the flag afterwards, and whether the end of range can be sent.
pub record Events (E : Type 0) : Type 0 where
  pub last_block_height : Result (Option ℕ) E
  pub attempts : List (Replies E)
  pub is_running : Bool
  pub takes_end : Bool

abbrev finish : List FastData → ℕ → Bool → Turn
finish sent checkpoint_height takes_end =
    if takes_end
    then record {
      sent = sent;
      end_of_range = some checkpoint_height;
      next_from = some (checkpoint_height + 1);
    }
    else record { sent = sent; end_of_range = none; next_from = none }

module _ {E : Type 0} (source : Source E) where
  -- A failed or empty reply, or a height that is not reached yet, makes the loop wait.
  unfoldable pub start_turn : ℕ → Events E → Turn
  unfolding fetch_range
  start_turn from_block_height events =
      let wait : Turn = record {
        sent = [];
        end_of_range = none;
        next_from = some from_block_height;
      } in
      elim events.last_block_height [
        | err e ↦ wait
        | ok found ↦ elim found [
          | none ↦ wait
          | some last_block_height ↦
              if ltb last_block_height from_block_height
              then wait
              else (let fetched =
                    fetch_range source from_block_height last_block_height events.attempts [] in
                  elim fetched.0 [
                    | none ↦ record { sent = fetched.1; end_of_range = none; next_from = none }
                    | some range_last_block ↦ elim range_last_block [
                      | some checkpoint_height ↦ finish fetched.1 checkpoint_height events.takes_end
                      | none ↦
                          if events.is_running
                          then finish fetched.1 last_block_height events.takes_end
                          else record {
                            sent = fetched.1;
                            end_of_range = none;
                            next_from = some from_block_height;
                          }
                    ]
                  ])
        ]
      ]
