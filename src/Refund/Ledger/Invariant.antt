-- ===== src/Refund/Ledger/Invariant.antt =====
-- What the statements on the table of refund operations keep.
use rent_a_car_v.Base.{
  ℕ, suc, ◌<◌, ◌≡◌, refl, ◌⊎◌, inl, inr, Bool, true, false, not, ◌||◌, Option, none, some, List, [],
  ◌∷◌, ◌++◌, any, find, keep, All, All-append, update_where, arith, ◌==◌, Bool-cases, Option-cases,
  ok,
}
use rent_a_car_v.Text.{Text, same_text}
use rent_a_car_v.Refund.Ledger.{
  RefundOperation, Ledger, Patch, OpStatus, clash, insert_refund_operation, update_refund_operation,
  apply_patch, selects, should_guard_succeeded, new_operation, add_row, insert_row, patch_row,
}

-- No two rows clash.
abbrev pub NoClash : List RefundOperation → Type 0
NoClash [] = Unit
NoClash (x ∷ xs) = (any (clash x) xs ≡ false) × NoClash xs

pub record IsLedger (l : Ledger) : Type 0 where
  pub apart : NoClash l.ops
  pub below : All (λ op. op.id < l.next_id) l.ops

same_text_comm : (s t : Text) → same_text s t ≡ same_text t s
unfolding same_text
same_text_comm [] [] = refl
same_text_comm [] (d ∷ t) = refl
same_text_comm (c ∷ s) [] = refl
same_text_comm (c ∷ s) (d ∷ t) = ground (arith, same_text_comm s t)

clash_comm : (a b : RefundOperation) → clash a b ≡ clash b a
unfolding clash
clash_comm a b = ground (arith, same_text_comm a.key b.key)

any-append_false :
    (p : RefundOperation → Bool) (xs : List RefundOperation) (y : RefundOperation)
    → any p xs ≡ false
    → p y ≡ false
    → any p (xs ++ (y ∷ [])) ≡ false
any-append_false p [] y h k = rw k
any-append_false p (x ∷ xs) y h k = ground (arith, any-append_false p xs y)

NoClash-append :
    (op : RefundOperation) (xs : List RefundOperation)
    → NoClash xs
    → any (clash op) xs ≡ false
    → NoClash (xs ++ (op ∷ []))
NoClash-append op [] h k = (refl, tt)
NoClash-append op (x ∷ xs) (hx, hs) k = (
  any-append_false (clash x) xs op hx (ground (arith, clash_comm op x)),
  NoClash-append op xs hs (ground arith),
)

below_suc :
    (n : ℕ) (xs : List RefundOperation) → All (λ op. op.id < n) xs → All (λ op. op.id < suc n) xs
below_suc n [] h = h
below_suc n (x ∷ xs) (hx, hs) = (omega arith, below_suc n xs hs)

abbrev has_id : ℕ → RefundOperation → Bool
has_id i op = op.id == i

or_false : (a b : Bool) → (a || b) ≡ false → a ≡ false
or_false a b h = ground arith

clash_id : (x y : RefundOperation) → clash x y ≡ false → has_id x.id y ≡ false
unfolding clash
clash_id x y h = let apart : (x.id == y.id) ≡ false = or_false (x.id == y.id) _ h in ground arith

ids_apart :
    (x : RefundOperation) (xs : List RefundOperation)
    → any (clash x) xs ≡ false
    → any (has_id x.id) xs ≡ false
ids_apart x [] h = refl
ids_apart x (y ∷ ys) h = ground (arith, clash_id x y, ids_apart x ys)

-- What an UPDATE by id does to rows with other ids.
module _ (i : ℕ) (g : Bool) (f : RefundOperation → RefundOperation) where
  others_stay :
      (xs : List RefundOperation) → any (has_id i) xs ≡ false → update_where (selects i g) f xs ≡ xs
  others_stay [] h = refl
  others_stay (x ∷ xs) h = ground (arith, others_stay xs)

  none_selected :
      (xs : List RefundOperation) → any (has_id i) xs ≡ false → find (selects i g) xs ≡ none
  none_selected [] h = refl
  none_selected (x ∷ xs) h = ground (arith, none_selected xs)

  all_kept :
      (xs : List RefundOperation) → any (has_id i) xs ≡ false → keep (λ o. not (has_id i o)) xs ≡ xs
  all_kept [] h = refl
  all_kept (x ∷ xs) h = ground (arith, all_kept xs)

  clash-update_where :
      (x op : RefundOperation) (xs : List RefundOperation)
      → NoClash xs
      → find (selects i g) xs ≡ some op
      → any (clash x) xs ≡ false
      → clash x (f op) ≡ false
      → any (clash x) (update_where (selects i g) f xs) ≡ false
  clash-update_where x op [] h e k c = refl
  clash-update_where x op (y ∷ ys) (hy, hs) e k c = elim (Bool-cases (selects i g y)) [
    | inl s ↦
        let same : y ≡ op = ground arith in
        let yi : y.id ≡ i = ground arith in
        let away : any (has_id i) ys ≡ false = rw yi at (ids_apart y ys hy) in
        rw (s, others_stay ys away, same) (ground arith)
    | inr s ↦ rw s (ground (arith, clash-update_where x op ys hs))
  ]

  NoClash-update :
      (op : RefundOperation) (xs : List RefundOperation)
      → NoClash xs
      → find (selects i g) xs ≡ some op
      → any (clash (f op)) (keep (λ o. not (has_id i o)) xs) ≡ false
      → NoClash (update_where (selects i g) f xs)
  NoClash-update op [] h e k = tt
  NoClash-update op (x ∷ xs) (hx, hs) e k = elim (Bool-cases (has_id i x)) [
    | inl s ↦
        let xi : x.id ≡ i = ground arith in
        let away : any (has_id i) xs ≡ false = rw xi at (ids_apart x xs hx) in
        let sel : selects i g x ≡ true = ground (arith, none_selected xs) in
        let same : x ≡ op = ground arith in
        let k' : any (clash (f op)) xs ≡ false = ground (arith, all_kept xs away) in
        rw (others_stay xs away, sel) (rw (← same) at k', hs)
    | inr s ↦
        let unsel : selects i g x ≡ false = ground arith in
        let c : clash x (f op) ≡ false = ground (arith, clash_comm x (f op)) in
        let e' : find (selects i g) xs ≡ some op = ground arith in
        rw unsel (clash-update_where x op xs hs e' hx c, NoClash-update op xs hs e' (ground arith))
  ]

  below_update :
      (n : ℕ) (xs : List RefundOperation)
      → ((op : RefundOperation) → (f op).id ≡ op.id)
      → All (λ op. op.id < n) xs
      → All (λ op. op.id < n) (update_where (selects i g) f xs)
  below_update n [] same h = h
  below_update n (x ∷ xs) same (hx, hs) = (
    elim (Bool-cases (selects i g x)) [ inl s ↦ rw s (rw (same x) hx) | inr s ↦ rw s hx ],
    below_update n xs same hs,
  )

pub insert_row_inversion :
    (new : RefundOperation) (l l' : Ledger) (op : RefundOperation)
    → insert_row new l ≡ ok (op, l')
    → (any (clash new) l.ops ≡ false) × (op ≡ new) × (l' ≡ add_row l new)
insert_row_inversion new l l' op e = elim (Bool-cases (new.amount_cents == 0)) [
  | inl z ↦ absurd (ground arith)
  | inr z ↦ elim (Bool-cases (any (clash new) l.ops)) [
    | inl c ↦ absurd (ground arith)
    | inr c ↦ (c, ground arith, ground arith)
  ]
]

-- A row that INSERT accepts keeps the table well formed: the ids, the keys, the refunds of the
-- provider and the active operations of a reservation stay unique.
pub insert_refund_operation-IsLedger :
    (reservation_id : ℕ) (order_id : Option ℕ) (payment_intent_id amount_cents : ℕ)
    (status : OpStatus) (key : Text) (l l' : Ledger) (op : RefundOperation)
    → IsLedger l
    → insert_refund_operation reservation_id order_id payment_intent_id amount_cents status key l
      ≡ ok (op, l')
    → IsLedger l'
unfolding insert_refund_operation
insert_refund_operation-IsLedger r o pi a st key l l' op h e =
    let new = new_operation r o pi a st key l.next_id in
    let (c, _, same) = insert_row_inversion new l l' op e in
    rw same (record {
      apart = NoClash-append new l.ops h.apart c;
      below =
          All-append (λ op. op.id < suc l.next_id) l.ops (new ∷ [])
            (below_suc l.next_id l.ops h.below) (omega arith, tt);
    })

-- An UPDATE leaves the table alone, or patches the row that it selects and gives it back.
pub update_inversion :
    (i : ℕ) (p : Patch) (l l' : Ledger) (r : Option RefundOperation)
    → update_refund_operation i p l ≡ ok (r, l')
    → ((r ≡ none) × (l' ≡ l))
      ⊎ ((op : RefundOperation) × (find (selects i (should_guard_succeeded p)) l.ops ≡ some op)
          × (any (clash (apply_patch p op)) (keep (λ o. not (has_id i o)) l.ops) ≡ false)
          × (r ≡ some (apply_patch p op))
          × (l' ≡ patch_row i p l))
unfolding update_refund_operation
update_inversion i p l l' r e =
    elim (Option-cases (find (selects i (should_guard_succeeded p)) l.ops)) [
      | inl f ↦ inl (ground arith, ground arith)
      | inr (op, f) ↦
          let rest = keep (λ o. not (has_id i o)) l.ops in
          elim (Bool-cases (any (clash (apply_patch p op)) rest)) [
            | inl c ↦ absurd (ground arith)
            | inr c ↦ inr (op, f, c, ground arith, ground arith)
          ]
    ]

-- So does an UPDATE, whatever it writes.
pub update_refund_operation-IsLedger :
    (i : ℕ) (p : Patch) (l l' : Ledger) (r : Option RefundOperation)
    → IsLedger l
    → update_refund_operation i p l ≡ ok (r, l')
    → IsLedger l'
update_refund_operation-IsLedger i p l l' r h e = elim (update_inversion i p l l' r e) [
  | inl (_, same) ↦ rw same h
  | inr (op, f, c, _, same) ↦ rw same (record {
    apart = NoClash-update i (should_guard_succeeded p) (apply_patch p) op l.ops h.apart f c;
    below =
        below_update i (should_guard_succeeded p) (apply_patch p) l.next_id l.ops
          (unfold apply_patch in λ op. refl) h.below;
  })
]
