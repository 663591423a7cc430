-- ===== src/LoginAttempts/Examples.antt =====
-- The theorems on the lockout at concrete times, and tests.
use rent_a_car_v.Base.{◌+◌, ◌≡◌, refl, true, false, none, some, [], ◌∷◌, arith}
use rent_a_car_v.LoginAttempts.{Attempt, lockout_ms, get, is_locked, record_failure}
use rent_a_car_v.LoginAttempts.Window.{fail_all, locked_iff_five, lock_cut_short}

no_record : get 9 [] ≡ none
unfolding get
no_record = refl

-- Five failures, one each second.
locked_iff_five_example :
    is_locked 9 6000 (fail_all 9 (2000 ∷ 3000 ∷ 4000 ∷ 5000 ∷ []) (record_failure 9 1000 [])) ≡ true
locked_iff_five_example =
    locked_iff_five 9 1000 6000 (2000 ∷ 3000 ∷ 4000 ∷ 5000 ∷ []) [] (λ e. ground arith) no_record
      ((
        ground arith,
        ground arith,
        (
          ground arith,
          ground arith,
          (ground arith, ground arith, (ground arith, ground arith, tt)),
        ),
      ))
      (ground arith) (ground arith)

-- The fifth failure comes at 14 minutes; the record says that the lock lasts to 29 minutes.
lock_cut_short_example :
    let after = record_failure 9 840_000 (fail_all 9 (1 ∷ 2 ∷ 3 ∷ []) (record_failure 9 0 [])) in
    ((a : Attempt) × (get 9 after ≡ some a) × (a.locked_until ≡ some (840_000 + lockout_ms)))
    × (is_locked 9 900_001 after ≡ false)
lock_cut_short_example =
    lock_cut_short 9 0 840_000 900_001 (1 ∷ 2 ∷ 3 ∷ []) [] (λ e. ground arith) no_record
      (ground arith, ground arith, (ground arith, ground arith, (ground arith, ground arith, tt)))
      (ground arith) (ground arith) (ground arith) (ground arith)
