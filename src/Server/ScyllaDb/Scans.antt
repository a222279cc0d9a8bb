-- ===== src/Server/ScyllaDb/Scans.antt =====
-- What the queries of fastkv-server/src/scylladb.rs for names carry from row to row.
use key_manager.Base.{
  ℕ, ◌+◌, Bool, true, false, ◌&&◌, not, Option, none, some, List, [], ◌∷◌, ◌++◌, Result, ok, err,
  length, leb, is_some, if◌then◌else◌,
}
use key_manager.Base.Text.{Str, ◌==ₛ◌}
use key_manager.Server.Models.{contains}
use key_manager.Server.Prefix.{before}

abbrev pub max_dedup_scan : ℕ
max_dedup_scan = 100_000

-- The accounts that the scan has found, and its other variables.
pub record Accounts : Type 0 where
  pub seen : List Str
  pub accounts : List Str
  pub truncated : Bool
  pub dropped_rows : ℕ

-- `cursor <= …`: the account is not behind the cursor
unfoldable pub not_after : Option Str → Str → Bool
not_after none account = false
not_after (some cursor) account = not (before cursor account)

-- The loop of `query_accounts_by_contract`.
unfoldable pub scan_accounts {κ} :
    {E : Type κ} → Bool → ℕ → Option Str → List (Result Str E) → Accounts → Accounts
unfolding contains not_after
scan_accounts needs_dedup target_count after_account [] v = v
scan_accounts needs_dedup target_count after_account (row ∷ rows) v =
    elim (needs_dedup && leb max_dedup_scan (length v.seen)) [
      | true ↦ record v { truncated = true }
      | false ↦ elim row [
        | err e ↦
            scan_accounts needs_dedup target_count after_account rows
              (record v { dropped_rows = v.dropped_rows + 1 })
        | ok account ↦ elim (needs_dedup && contains v.seen account) [
          | true ↦ scan_accounts needs_dedup target_count after_account rows v
          | false ↦
              (let v' = record v { seen = if needs_dedup then account ∷ v.seen else v.seen } in
                elim (not_after after_account account) [
                  | true ↦ scan_accounts needs_dedup target_count after_account rows v'
                  | false ↦
                      (let v'' = record v' { accounts = v'.accounts ++ account ∷ [] } in
                        elim (leb target_count (length v''.accounts)) [
                          | true ↦ v''
                          | false ↦ scan_accounts needs_dedup target_count after_account rows v''
                        ])
                ])
        ]
      ]
    ]

-- `skipped_cursor`: the cursor's own row is dropped once.
unfoldable pub skip_cursor : Option Str → Bool → Str → Option Str × Bool
skip_cursor none skipped_cursor account = (some account, skipped_cursor)
skip_cursor (some c) skipped_cursor account =
    if not skipped_cursor && account ==ₛ c then (none, true) else (some account, skipped_cursor)

-- `last_contract` and `past_cursor`
pub record Distinct : Type 0 where
  pub last_contract : Option Str
  pub past_cursor : Bool

abbrev pub is_last : Option Str → Str → Bool
is_last none contract = false
is_last (some prev) contract = contract ==ₛ prev

-- Each contract once, where `skips` tells the ones to skip up to the cursor.
unfoldable pub distinct : (Str → Bool) → Distinct → Str → Option Str × Distinct
distinct skips v contract =
    if is_last v.last_contract contract
    then (none, v)
    else if not v.past_cursor && skips contract
    then (none, record v { last_contract = some contract })
    else (some contract, record { last_contract = some contract; past_cursor = true })

abbrev pub start_distinct : Option Str → Distinct
start_distinct after = record { last_contract = none; past_cursor = not (is_some after) }

abbrev pub is_cursor : Option Str → Str → Bool
is_cursor none contract = false
is_cursor (some c) contract = contract ==ₛ c
