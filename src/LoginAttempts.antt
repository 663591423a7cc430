-- ===== src/LoginAttempts.antt =====
-- Lockout after failed logins: backend/src/services/auth/loginAttemptService.js. The store is the list
-- of the entries of the `Map`; a key is a normalized e-mail address, which is only compared, and 0 is
-- the empty one. Logs and metrics are left out.
pub mod Window
mod Examples
use rent_a_car_v.Base.{
  ℕ, suc, ◌+◌, ◌-◌, Bool, true, false, not, Option, none, some, List, [], ◌∷◌, keep, ltb, leb, ◌==◌,
  if◌then◌else◌,
}

abbrev pub max_attempts : ℕ
max_attempts = 5

abbrev pub lockout_ms : ℕ
lockout_ms = 900_000

pub record Attempt : Type 0 where
  pub count : ℕ
  pub first_attempt_at : ℕ
  pub locked_until : Option ℕ

abbrev pub Attempts : Type 0
Attempts = List (ℕ × Attempt)

unfoldable pub get : ℕ → Attempts → Option Attempt
get key [] = none
get key (entry ∷ rest) = if entry.0 == key then some entry.1 else get key rest

unfoldable pub delete : ℕ → Attempts → Attempts
delete key entries = keep (λ entry. not (entry.0 == key)) entries

unfoldable pub set : ℕ → Attempt → Attempts → Attempts
set key a entries = (key, a) ∷ delete key entries

abbrev pub lock_over : ℕ → Option ℕ → Bool
lock_over now none = false
lock_over now (some until) = leb until now

-- The record is forgotten: its window is over, or its lock.
abbrev pub forgotten : ℕ → Attempt → Bool
forgotten now a =
    if ltb lockout_ms (now - a.first_attempt_at) then true else lock_over now a.locked_until

-- The record, and the store without it where it was forgotten.
unfoldable pub get_record : ℕ → ℕ → Attempts → Option Attempt × Attempts
get_record key now entries = if key == 0 then (none, entries) else elim (get key entries) [
  | none ↦ (none, entries)
  | some a ↦ if forgotten now a then (none, delete key entries) else (some a, entries)
]

abbrev pub too_many : Option Attempt → Bool
too_many none = false
too_many (some a) = leb max_attempts a.count

unfoldable pub is_locked : ℕ → ℕ → Attempts → Bool
is_locked key now entries = too_many (get_record key now entries).0

abbrev pub fresh : ℕ → Option Attempt → Attempt
fresh now none = record { count = 0; first_attempt_at = now; locked_until = none }
fresh now (some a) = a

abbrev pub counted : ℕ → Attempt → Attempt
counted now a = record a {
  count = suc a.count;
  locked_until = if leb max_attempts (suc a.count) then some (now + lockout_ms) else a.locked_until;
}

unfoldable pub record_failure : ℕ → ℕ → Attempts → Attempts
record_failure key now entries =
    if key == 0
    then entries
    else set key (counted now (fresh now (get_record key now entries).0))
        (get_record key now entries).1

unfoldable pub clear_attempts : ℕ → Attempts → Attempts
clear_attempts key entries = delete key entries
