-- ===== src/Integrity/Checks.antt =====
-- `analyzeWalletIntegrity` of src/core/financial-integrity-scanner.ts: the findings on a wallet's
-- balance, its reservations and its settlements, as Boolean checks.
use sinkronis_backend.Common.{ℕ, Bool, true, false, ◌==◌, ◌&&◌, not, if◌then◌else◌, is_set}
use sinkronis_backend.Common.Int.{ℤ, pos, ◌-ℤ◌, eqb_ℤ, leb_ℤ}
use sinkronis_backend.Common.Table.{sum_of}
use sinkronis_backend.Database.{
  Db, Wallet, Settlement, Status, WalletTransaction, Direction, debit, credit, inflow, outflow,
  adjustment, reserved, provider_processing, unknown,
}

-- `["RESERVED", "PROVIDER_PROCESSING", "UNKNOWN"].includes(status)`
abbrev pub is_active : Status → Bool
is_active reserved = true
is_active provider_processing = true
is_active unknown = true
is_active _ = false

abbrev pub active_reservation : Settlement → Bool
active_reservation s =
    is_active s.status && is_set s.reserved_at && not (is_set s.reservation_released_at)

-- What a settlement holds of a wallet's reserved balance.
abbrev pub held : ℕ → Settlement → ℤ
held k s = if s.wallet_account_id == k && active_reservation s then s.amount else pos 0

abbrev pub signed_amount : Direction → ℤ → ℤ
signed_amount credit amount = amount
signed_amount inflow amount = amount
signed_amount debit amount = pos 0 -ℤ amount
signed_amount outflow amount = pos 0 -ℤ amount
signed_amount adjustment amount = pos 0

-- What a ledger row adds to a wallet's balance.
abbrev pub entered : ℕ → WalletTransaction → ℤ
entered k r = if r.wallet_account_id == k then signed_amount r.direction r.amount else pos 0

-- `active`, over the settlements of the wallet
unfoldable pub active_sum : ℕ → Db → ℤ
active_sum k db = sum_of (held k) db.settlements

-- `expected`: the credits of the wallet's ledger less its debits
unfoldable pub expected_balance : ℕ → Db → ℤ
expected_balance k db = sum_of (entered k) db.ledger

unfoldable pub wallet_balance_mismatch : ℕ → Wallet → Db → Bool
wallet_balance_mismatch k w db = not (eqb_ℤ w.balance (expected_balance k db))

unfoldable pub unledgered_wallet_value : ℕ → Wallet → Db → Bool
unledgered_wallet_value k w db = not (leb_ℤ w.balance (expected_balance k db))

unfoldable pub wallet_reserved_balance_mismatch : ℕ → Wallet → Db → Bool
wallet_reserved_balance_mismatch k w db = not (eqb_ℤ w.reserved_balance (active_sum k db))

unfoldable pub reservation_mismatch : Wallet → Bool
reservation_mismatch w = not (leb_ℤ w.reserved_balance w.balance)
