-- ===== src/Server/Throttle.antt =====
-- `check_scan_throttle` of fastkv-server/src/handlers.rs. Instants are nanoseconds; the map from
-- clients to the instants of their last scans is a list of pairs.
pub mod Laws
use key_manager.Base.{
  ℕ, ◌+◌, ◌-◌, Bool, true, false, Option, none, some, List, [], ◌∷◌, ◌++◌, Result, ok, err, ltb,
  leb, length, if◌then◌else◌,
}
use key_manager.Base.Text.{Str, codes, ◌==ₛ◌}
use key_manager.Server.Errors.{ApiError}

abbrev pub second : ℕ
second = 1_000_000_000

abbrev pub throttle_expiry : ℕ
throttle_expiry = 60_000_000_000

abbrev pub max_throttle_entries : ℕ
max_throttle_entries = 50_000

abbrev pub Throttle : Type 0
Throttle = List (Str × ℕ)

-- `retain(|_, ts| *ts > now - THROTTLE_EXPIRY)`
unfoldable pub retain : ℕ → Throttle → Throttle
retain now [] = []
retain now ((ip, ts) ∷ t) =
    let rest = retain now t in if ltb now (ts + throttle_expiry) then (ip, ts) ∷ rest else rest

unfoldable pub get : Throttle → Str → Option ℕ
get [] ip = none
get ((other, ts) ∷ t) ip = let rest = get t ip in if other ==ₛ ip then some ts else rest

-- `HashMap::insert` replaces the value of a key that is there.
unfoldable pub insert : Throttle → Str → ℕ → Throttle
insert [] ip now = (ip, now) ∷ []
insert ((other, ts) ∷ t) ip now =
    let rest = insert t ip now in if other ==ₛ ip then (ip, now) ∷ t else (other, ts) ∷ rest

abbrev pub too_many : ApiError
too_many = ApiError.too_many_requests (codes "Too many scan requests. Try again shortly.")

-- `duration_since(last) < 1 s`, which is zero for an instant in the future
abbrev pub is_recent : Option ℕ → ℕ → Bool
is_recent none now = false
is_recent (some last) now = ltb (now - last) second

unfoldable pub check_scan_throttle : Throttle → Str → ℕ → Result (Unit {0}) ApiError × Throttle
unfolding retain get insert
check_scan_throttle throttle ip now =
    let kept = retain now throttle in
    if is_recent (get kept ip) now
    then (err too_many, kept)
    else if leb max_throttle_entries (length kept)
    then (err too_many, kept)
    else (ok tt, insert kept ip now)
