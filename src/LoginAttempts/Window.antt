-- ===== src/LoginAttempts/Window.antt =====
-- When an account is locked.
use rent_a_car_v.Base.{
  ℕ, suc, ◌+◌, ◌≤◌, ◌<◌, ◌≡◌, ◌≢◌, refl, false, Option, none, some, List, [], ◌∷◌, leb, ◌==◌, arith,
  length,
}
use rent_a_car_v.LoginAttempts.{
  Attempt, Attempts, max_attempts, lockout_ms, get, set, get_record, is_locked, forgotten,
  lock_over, fresh, counted, record_failure,
}

get-set : (key : ℕ) (a : Attempt) (m : Attempts) → get key (set key a m) ≡ some a
unfolding get set
get-set key a m = ground arith

-- The failures of one account, in the order of their times.
unfoldable pub fail_all : ℕ → List ℕ → Attempts → Attempts
fail_all key [] m = m
fail_all key (t ∷ ts) m = fail_all key ts (record_failure key t m)

-- Each time is in the window from `first` on.
abbrev pub Within : ℕ → List ℕ → Type 0
Within first [] = Unit
Within first (t ∷ ts) = (first ≤ t) × (t < first + lockout_ms) × Within first ts

-- The record of `n` failures, the first of them at `first`, whose lock outlasts the window.
abbrev Counts : ℕ → ℕ → Attempt → Type 0
Counts first n a =
    (a.count ≡ n)
    × (a.first_attempt_at ≡ first)
    × (lock_over (first + 899_999) a.locked_until ≡ false)

lock_over_mono : (t u : ℕ) (l : Option ℕ) → t ≤ u → lock_over u l ≡ false → lock_over t l ≡ false
lock_over_mono t u none h k = refl
lock_over_mono t u (some v) h k = ground arith

remembered :
    (first n t : ℕ) (a : Attempt)
    → Counts first n a
    → first ≤ t
    → t < first + lockout_ms
    → forgotten t a ≡ false
remembered first n t a (c, f, l) h k =
    ground (arith, lock_over_mono t (first + 899_999) a.locked_until (omega arith) l)

kept :
    (key first n t : ℕ) (a : Attempt) (m : Attempts)
    → key ≢ 0
    → get key m ≡ some a
    → Counts first n a
    → first ≤ t
    → t < first + lockout_ms
    → get_record key t m ≡ (some a, m)
unfolding get_record
kept key first n t a m ne g c h k =
    let given : (key == 0) ≡ false = ground arith in
    rw (given, g, remembered first n t a c h k) refl

next_failure :
    (key first n t : ℕ) (a : Attempt) (m : Attempts)
    → key ≢ 0
    → get key m ≡ some a
    → Counts first n a
    → first ≤ t
    → t < first + lockout_ms
    → (get key (record_failure key t m) ≡ some (counted t a)) × Counts first (suc n) (counted t a)
unfolding record_failure
next_failure key first n t a m ne g c h k =
    let given : (key == 0) ≡ false = ground arith in
    (
      rw (given, kept key first n t a m ne g c h k) (get-set key (counted t a) m),
      (ground arith, ground arith, ground arith),
    )

all_counted :
    (key first n : ℕ) (ts : List ℕ) (a : Attempt) (m : Attempts)
    → key ≢ 0
    → get key m ≡ some a
    → Counts first n a
    → Within first ts
    → (b : Attempt) × (get key (fail_all key ts m) ≡ some b) × Counts first (n + length ts) b
unfolding fail_all
all_counted key first n [] a m ne g c w = (a, g, (ground arith, ground arith, ground arith))
all_counted key first n (t ∷ ts) a m ne g c (h, k, w) =
    let (g', c') = next_failure key first n t a m ne g c h k in
    let (b, gb, (x, y, z)) =
      all_counted key first (suc n) ts (counted t a) (record_failure key t m) ne g' c' w in
    (b, gb, (ground arith, y, z))

first_failure :
    (key first : ℕ) (m : Attempts)
    → key ≢ 0
    → get key m ≡ none
    → (a : Attempt) × (get key (record_failure key first m) ≡ some a) × Counts first 1 a
unfolding record_failure get_record
first_failure key first m ne g =
    let given : (key == 0) ≡ false = ground arith in
    (
      counted first (fresh first none),
      rw (given, g) (get-set key (counted first (fresh first none)) m),
      (refl, refl, refl),
    )

-- Within 15 minutes of its first failure, an account is locked exactly if it has failed at least five
-- times since.
pub locked_iff_five :
    (key first now : ℕ) (ts : List ℕ) (m : Attempts)
    → key ≢ 0
    → get key m ≡ none
    → Within first ts
    → first ≤ now
    → now < first + lockout_ms
    → is_locked key now (fail_all key ts (record_failure key first m))
      ≡ leb max_attempts (1 + length ts)
unfolding is_locked
locked_iff_five key first now ts m ne g w h k =
    let (a, ga, c) = first_failure key first m ne g in
    let (b, gb, d) = all_counted key first 1 ts a (record_failure key first m) ne ga c w in
    rw
      (kept key first (1 + length ts) now b (fail_all key ts (record_failure key first m)) ne gb d h
        k)
      (ground arith)

ends_with_window :
    (key now : ℕ) (a : Attempt) (m : Attempts)
    → get key m ≡ some a
    → a.first_attempt_at + lockout_ms < now
    → is_locked key now m ≡ false
unfolding is_locked get_record
ends_with_window key now a m g h = ground arith

-- An account with at least five failures within 15 minutes of the first of them has a record that says that
-- it is locked until 15 minutes after the last one, but it is not locked any more once 15 minutes have
-- passed since the first one.
pub lock_cut_short :
    (key first last now : ℕ) (ts : List ℕ) (m : Attempts)
    → key ≢ 0
    → get key m ≡ none
    → Within first ts
    → first ≤ last
    → last < first + lockout_ms
    → 3 ≤ length ts
    → first + lockout_ms < now
    → let after = record_failure key last (fail_all key ts (record_failure key first m)) in
      ((a : Attempt) × (get key after ≡ some a) × (a.locked_until ≡ some (last + lockout_ms)))
      × (is_locked key now after ≡ false)
lock_cut_short key first last now ts m ne g w h k five over =
    let (a, ga, c) = first_failure key first m ne g in
    let before = fail_all key ts (record_failure key first m) in
    let (b, gb, d) = all_counted key first 1 ts a (record_failure key first m) ne ga c w in
    let (found, (count, start, _)) =
      next_failure key first (1 + length ts) last b before ne gb d h k in
    (
      (counted last b, found, ground arith),
      ends_with_window key now (counted last b) (record_failure key last before) found
          (ground arith),
    )
