-- ===== src/Ecr/Payment/Points.antt =====
-- The loyalty points that the register uses, and what the terminal makes of them.
use termwire.Common.{ℕ, ◌+◌, ◌^◌, ◌≤◌, ◌<◌, ◌≡◌, sub32, subst, sym, true, String, some, arith}
use termwire.Ecr.Payment.{PaymentResult, points_to_use, with_completion}
use termwire.Ecr.Receipt.{total_amount}
use termwire.Pos.Card.{CardData}
use termwire.Pos.Handler.Payment.{completion}
use termwire.Pos.Transaction.{Transaction}

-- No more points than the card has, and no more value than the amount.
pub points_to_use_le :
    (wanted available amount : ℕ)
    → let (points, value) = points_to_use wanted available amount in
      (points ≤ available) × (value ≤ amount)
unfolding points_to_use
points_to_use_le wanted available amount = (ground arith, ground arith)

sub32_add : (a b : ℕ) → b ≤ a → a < 2 ^ 32 → sub32 a b + b ≡ a
sub32_add a b le fits = omega arith

module _ (txn : Transaction) (card : CardData) (wanted : ℕ) (inserted : txn.card ≡ some card)
    (loyal : card.has_loyalty_card ≡ true) (narrow : txn.amount_cents < 2 ^ 32)
    (few : card.loyalty_points < 2 ^ 32) where
  abbrev used : ℕ × ℕ
  used = points_to_use wanted card.loyalty_points txn.amount_cents

  -- A transaction of the terminal, for a loyalty card and with an amount and points of 32 bits, has the
  -- points and their value that the register computes from its amount and from the points on the
  -- card. Then nothing wraps around in the terminal's response: the amount on the card and the one in
  -- loyalty make up the amount of the transaction, the points used and those that remain make up the
  -- points of the card, and the register's receipt totals the amount of the transaction.
  pub completion-points_to_use :
      (code auth : String) (result : PaymentResult)
      → txn.loyalty_points_used ≡ used.0
      → txn.loyalty_amount_cents ≡ used.1
      → let r = completion code auth txn in
        (r.card_amount_cents + r.loyalty_amount_cents ≡ txn.amount_cents)
        × (r.remaining_points + txn.loyalty_points_used ≡ card.loyalty_points)
        × (total_amount (with_completion r result) ≡ txn.amount_cents)
  completion-points_to_use code auth result points value =
      let bounds = points_to_use_le wanted card.loyalty_points txn.amount_cents in
      let value_fits = subst (λ v. v ≤ txn.amount_cents) (sym value) (bounds.1) in
      let points_fit = subst (λ v. v ≤ card.loyalty_points) (sym points) (bounds.0) in
      (
        sub32_add txn.amount_cents txn.loyalty_amount_cents value_fits narrow,
        rw (inserted, loyal) (sub32_add card.loyalty_points txn.loyalty_points_used points_fit few),
        rw (sub32_add txn.amount_cents txn.loyalty_amount_cents value_fits narrow) (omega arith),
      )
