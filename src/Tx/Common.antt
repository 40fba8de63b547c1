-- ===== src/Tx/Common.antt =====
-- What `CheckTransactionCommon` accepts.
use mvclight.Base.{ℕ, ◌≤◌, ◌≡◌, ◌↔◌, List, [], ◌∷◌, none, arith, All}
use mvclight.Base.Int.{ℤ, pos, ◌+ℤ◌, ◌≤ℤ◌, +ℤ_parts}
use mvclight.Tx.{
  LightTxIn, LightTxOut, LightTx, max_money, max_tx_size, check_outputs, check_lists,
  check_transaction_common,
}

abbrev pub HasRange : LightTxOut → Type 0
HasRange o = (pos 0 ≤ℤ o.n_value) × (o.n_value ≤ℤ pos max_money)

-- The sum of all amounts.
pub total : List LightTxOut → ℤ
total [] = pos 0
total (o ∷ os) = o.n_value +ℤ total os

total_nonneg : (os : List LightTxOut) → All HasRange os → pos 0 ≤ℤ total os
unfolding total
total_nonneg [] h = omega arith
total_nonneg (o ∷ os) h = omega (arith, total_nonneg os h.1, +ℤ_parts o.n_value (total os))

check_outputs-none :
    (os : List LightTxOut) (acc : ℤ)
    → check_outputs os acc ≡ none
    → pos 0 ≤ℤ acc
    → acc ≤ℤ pos max_money
    → All HasRange os × (acc +ℤ total os ≤ℤ pos max_money)
unfolding check_outputs total
check_outputs-none [] acc h l u = (tt, omega (arith, +ℤ_parts acc (pos 0)))
check_outputs-none (o ∷ os) acc h l u = ground (
  arith,
  check_outputs-none os (acc +ℤ o.n_value),
  +ℤ_parts acc o.n_value,
  +ℤ_parts o.n_value (total os),
  +ℤ_parts acc (o.n_value +ℤ total os),
  +ℤ_parts (acc +ℤ o.n_value) (total os),
)

none-check_outputs :
    (os : List LightTxOut) (acc : ℤ)
    → pos 0 ≤ℤ acc
    → All HasRange os
    → acc +ℤ total os ≤ℤ pos max_money
    → check_outputs os acc ≡ none
unfolding check_outputs total
none-check_outputs [] acc l r u = ground arith
none-check_outputs (o ∷ os) acc l r u = ground (
  arith,
  none-check_outputs os (acc +ℤ o.n_value),
  total_nonneg os r.1,
  +ℤ_parts acc o.n_value,
  +ℤ_parts o.n_value (total os),
  +ℤ_parts acc (o.n_value +ℤ total os),
  +ℤ_parts (acc +ℤ o.n_value) (total os),
)

abbrev pub NonEmpty {ℓ} : {A : Type ℓ} → List A → Type 0
NonEmpty [] = ⊥
NonEmpty (x ∷ xs) = Unit {0}

-- What a transaction of the given size has to satisfy.
pub record IsSane (tx : LightTx) (size : ℕ) : Type 0 where
  pub has_input : NonEmpty tx.vin
  pub has_output : NonEmpty tx.vout
  pub size_fits : size ≤ max_tx_size
  pub amounts : All HasRange tx.vout
  pub total_fits : total tx.vout ≤ℤ pos max_money

check_lists-none :
    (is : List LightTxIn) (os : List LightTxOut) (size : ℕ)
    → check_lists is os size ≡ none
    → NonEmpty is
      × NonEmpty os
      × (size ≤ max_tx_size)
      × All HasRange os
      × (total os ≤ℤ pos max_money)
unfolding check_lists
check_lists-none [] os size h = ground arith
check_lists-none (i ∷ is) [] size h = ground arith
check_lists-none (i ∷ is) (o ∷ os) size h =
    ground (arith, check_outputs-none (o ∷ os) (pos 0), +ℤ_parts (pos 0) (total (o ∷ os)))

none-check_lists :
    (is : List LightTxIn) (os : List LightTxOut) (size : ℕ)
    → NonEmpty is
    → NonEmpty os
    → size ≤ max_tx_size
    → All HasRange os
    → total os ≤ℤ pos max_money
    → check_lists is os size ≡ none
unfolding check_lists
none-check_lists [] os size hi ho s r t = absurd hi
none-check_lists (i ∷ is) [] size hi ho s r t = absurd ho
none-check_lists (i ∷ is) (o ∷ os) size hi ho s r t = ground (
  arith,
  none-check_outputs (o ∷ os) (pos 0),
  +ℤ_parts (pos 0) (total (o ∷ os)),
  total_nonneg (o ∷ os) r,
)

-- `CheckTransactionCommon` accepts a transaction exactly when it has an input and an output, its size
-- is at most 32 MiB, every amount lies between 0 and 21 million coins, and so does the sum of all
-- amounts: the running total that the loop checks loses nothing.
pub check_transaction_common_iff :
    (tx : LightTx) (size : ℕ) → (check_transaction_common tx size ≡ none) ↔ IsSane tx size
unfolding check_transaction_common
check_transaction_common_iff tx size = (
  λ h. sane (check_lists-none tx.vin tx.vout size h),
  λ s.
      none-check_lists tx.vin tx.vout size s.has_input s.has_output s.size_fits s.amounts
        s.total_fits,
)
  where
    sane :
        NonEmpty tx.vin
          × NonEmpty tx.vout
          × (size ≤ max_tx_size)
          × All HasRange tx.vout
          × (total tx.vout ≤ℤ pos max_money)
        → IsSane tx size
    sane h = record {
      has_input = h.0;
      has_output = h.1;
      size_fits = h.2;
      amounts = h.3;
      total_fits = h.4;
    }
