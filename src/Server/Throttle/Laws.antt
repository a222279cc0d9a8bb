-- ===== src/Server/Throttle/Laws.antt =====
-- The throttle lets a client scan once in a second and never holds more than its limit.
use key_manager.Base.{ℕ, suc, ◌+◌, ◌<◌, ◌≤◌, ◌≡◌, ap, ◌∙◌, some, [], ◌∷◌, ok, err, length, arith}
use key_manager.Base.Text.{Str}
use key_manager.Base.Text.Laws.{==ₛ_refl}
use key_manager.Server.Throttle.{
  second, throttle_expiry, Throttle, retain, get, insert, too_many, check_scan_throttle,
}

length-retain : (now : ℕ) (t : Throttle) → length (retain now t) ≤ length t
unfolding retain
length-retain now [] = omega arith
length-retain now ((ip, ts) ∷ t) = ground (arith, length-retain now t)

length-insert : (t : Throttle) (ip : Str) (now : ℕ) → length (insert t ip now) ≤ suc (length t)
unfolding insert
length-insert [] ip now = omega arith
length-insert ((other, ts) ∷ t) ip now = ground (arith, length-insert t ip now)

get-insert : (t : Throttle) (ip : Str) (now : ℕ) → get (insert t ip now) ip ≡ some now
unfolding insert get
get-insert [] ip now = ground (arith, ==ₛ_refl ip)
get-insert ((other, ts) ∷ t) ip now = ground (arith, ==ₛ_refl ip, get-insert t ip now)

get-retain :
    (later : ℕ) (t : Throttle) (ip : Str) (ts : ℕ)
    → get t ip ≡ some ts
    → later < ts + throttle_expiry
    → get (retain later t) ip ≡ some ts
unfolding retain get
get-retain later [] ip ts h k = absurd (ground (arith, h))
get-retain later ((other, at) ∷ t) ip ts h k = ground (arith, h, k, get-retain later t ip ts)

-- A check keeps the number of clients at 50,000 or below, if it was.
pub length-check_scan_throttle :
    (t : Throttle) (ip : Str) (now : ℕ)
    → length t ≤ 50_000
    → length (check_scan_throttle t ip now).1 ≤ 50_000
unfolding check_scan_throttle
length-check_scan_throttle t ip now h =
    ground (arith, h, length-retain now t, length-insert (retain now t) ip now)

admitted :
    (t : Throttle) (ip : Str) (now : ℕ)
    → (check_scan_throttle t ip now).0 ≡ ok tt
    → (check_scan_throttle t ip now).1 ≡ insert (retain now t) ip now
unfolding check_scan_throttle
admitted t ip now h = ground (arith, h)

refused :
    (t : Throttle) (ip : Str) (now ts : ℕ)
    → get (retain now t) ip ≡ some ts
    → now < ts + second
    → (check_scan_throttle t ip now).0 ≡ err too_many
unfolding check_scan_throttle
refused t ip now ts h k = ground (arith, h, k)

-- A client whose scan is admitted is refused another within the second that follows, whatever the
-- throttle held before.
pub check_scan_throttle-again :
    (t : Throttle) (ip : Str) (now later : ℕ)
    → (check_scan_throttle t ip now).0 ≡ ok tt
    → now ≤ later
    → later < now + second
    → (check_scan_throttle (check_scan_throttle t ip now).1 ip later).0 ≡ err too_many
check_scan_throttle-again t ip now later h k l =
    let found = ap (λ u. get u ip) (admitted t ip now h) ∙ get-insert (retain now t) ip now in
    refused (check_scan_throttle t ip now).1 ip later now
      (get-retain later (check_scan_throttle t ip now).1 ip now found (omega (arith, l))) l
