-- ===== src/Indexer/SuffixFetcher/Tests.antt =====
-- Turns of the fetcher over a database of three keys.
use key_manager.Base.{
  ℕ, ◌+◌, ◌≡◌, refl, true, false, none, some, [], ◌∷◌, ok, arith, unwrap_or, All, if◌then◌else◌,
}
use key_manager.Base.Text.{Str, codes, split, ◌==ₛ◌}
use key_manager.Base.Decimal.{show, digits, parse_u64, parse_digits, scan_digits}
use key_manager.Indexer.RedisDb.{FastData, fastdata_key}
use key_manager.Indexer.SuffixFetcher.{key_height, Source, last_page, page, shutdown, start_turn}
use key_manager.Indexer.SuffixFetcher.Stream.{IsReliable, collect, last_height}
use key_manager.Indexer.SuffixFetcher.Turns.{
  key_of, IsHeld, in_range, start_turn-in_range, start_turn-shutdown,
}

abbrev datum : ℕ → FastData
datum height = record {
  receipt_id = codes "r";
  action_index = 0;
  suffix = codes "kv";
  base64 = [];
  tx_hash = none;
  signer_id = codes "alice.near";
  predecessor_id = codes "alice.near";
  current_account_id = codes "kv.near";
  block_height = height;
  block_timestamp = 5;
  shard_id = 0;
  receipt_index = 0;
}

-- Each key is its own value, and reads as a datum of block 7.
abbrev sevens : Source Str
sevens = record { get = λ k. ok (some k); from_str = λ s. some (datum 7); is_open = λ sent. true }

sevens-IsReliable : IsReliable sevens
sevens-IsReliable = record { takes_all = λ sent. refl; answers = λ k. (some k, refl) }

abbrev seven : Str
seven = codes "fastdata:m:kv:7:r"

-- The datum of block 9 is under another key than that of block 7.
abbrev two : Source Str
two = record {
  get = λ k. ok (some k);
  from_str = λ s. if s ==ₛ key_of (codes "m") (datum 9) then some (datum 9) else some (datum 7);
  is_open = λ sent. true;
}

two-IsReliable : IsReliable two
two-IsReliable = record { takes_all = λ sent. refl; answers = λ k. (some k, refl) }

two-IsHeld : All (IsHeld two (codes "m")) (datum 7 ∷ datum 9 ∷ [])
unfolding ◌==ₛ◌ fastdata_key show digits
two-IsHeld = (
  (key_of (codes "m") (datum 7), refl, refl, ground arith, omega arith),
  ((key_of (codes "m") (datum 9), refl, refl, ground arith, omega arith), tt),
)

start_turn-in_range_example :
    (checkpoint : ℕ) × (checkpoint
      ≡ unwrap_or (last_height two 5 8 none (in_range 5 8 (datum 7 ∷ datum 9 ∷ []))) 8)
    × (start_turn two 5 (record {
      last_block_height = ok (some 8);
      attempts =
          page (key_of (codes "m") (datum 7) ∷ []) (last_page (key_of (codes "m") (datum 9) ∷ []))
          ∷ [];
      is_running = true;
      takes_end = true;
    })
        ≡ record {
          sent = in_range 5 8 (datum 7 ∷ datum 9 ∷ []);
          end_of_range = some checkpoint;
          next_from = some (checkpoint + 1);
        })
start_turn-in_range_example =
    start_turn-in_range two two-IsReliable (codes "m") 5 8 (datum 7 ∷ datum 9 ∷ [])
      (page (key_of (codes "m") (datum 7) ∷ []) (last_page (key_of (codes "m") (datum 9) ∷ []))) []
      (omega arith) (ground arith) two-IsHeld refl

last_is_seven : last_height sevens 5 8 none (collect sevens 5 8 (seven ∷ [])) ≡ some 7
unfolding key_height split parse_u64 parse_digits scan_digits
last_is_seven = refl

start_turn-shutdown_example :
    start_turn sevens 5 (record {
      last_block_height = ok (some 8);
      attempts = page (seven ∷ []) shutdown ∷ [];
      is_running = false;
      takes_end = true;
    })
    ≡ record {
      sent = collect sevens 5 8 (seven ∷ []);
      end_of_range = some 7;
      next_from = some (7 + 1);
    }
start_turn-shutdown_example =
    start_turn-shutdown sevens sevens-IsReliable 5 8 (seven ∷ []) [] 7 (omega arith) last_is_seven
