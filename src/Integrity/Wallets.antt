-- ===== src/Integrity/Wallets.antt =====
-- The invariant under the three updates of a reservation, for the wallet `k`.
use sinkronis_backend.Common.{ℕ, true, ◌≡◌, refl, some}
use sinkronis_backend.Common.Int.{ℤ, pos, ◌+ℤ◌, ◌-ℤ◌, ◌≤ℤ◌, leb_ℤ, leb_ℤ→le, int_laws}
use sinkronis_backend.Common.Table.{find, put}
use sinkronis_backend.Database.{Db, Wallet}
use sinkronis_backend.Wallet.Calls.{spendable_balance}
use sinkronis_backend.Wallet.Balance.{reserve_by, consume_by, release_by}
use sinkronis_backend.Integrity.Sums.{IsSoundBy, at, wallet-IsSoundBy}

abbrev pub neg : ℤ → ℤ
neg a = pos 0 -ℤ a

sub-eq-add_neg : (a b : ℤ) → a -ℤ b ≡ a +ℤ neg b
sub-eq-add_neg a b = omega int_laws

add-le_of_spendable : (a b r : ℤ) → a ≤ℤ b -ℤ r → r +ℤ a ≤ℤ b
add-le_of_spendable a b r h = omega int_laws

sub-le-sub : (a b r : ℤ) → r ≤ℤ b → r -ℤ a ≤ℤ b -ℤ a
sub-le-sub a b r h = omega int_laws

sub-le : (a b r : ℤ) → pos 0 ≤ℤ a → r ≤ℤ b → r -ℤ a ≤ℤ b
sub-le a b r p h = omega int_laws

module _ {dr dl : ℕ → ℤ} (db : Db) (k : ℕ) (amount : ℤ) (w : Wallet) where
  pub reserve-IsSoundBy :
      IsSoundBy dr dl db
      → leb_ℤ amount (spendable_balance w) ≡ true
      → find k db.wallets ≡ some w
      → IsSoundBy
          (λ j. dr j +ℤ at k amount j)
          (λ j. dl j +ℤ at k (pos 0) j)
          (record db { wallets = put k (reserve_by amount w) db.wallets })
  unfolding spendable_balance
  reserve-IsSoundBy sound t e =
      wallet-IsSoundBy db k w (reserve_by amount w) amount (pos 0) sound e refl (omega int_laws)
        λ _.
          add-le_of_spendable amount w.balance w.reserved_balance
            (leb_ℤ→le amount (w.balance -ℤ w.reserved_balance) t)

  pub consume-IsSoundBy :
      IsSoundBy dr dl db
      → find k db.wallets ≡ some w
      → IsSoundBy
          (λ j. dr j +ℤ at k (neg amount) j)
          (λ j. dl j +ℤ at k (neg amount) j)
          (record db { wallets = put k (consume_by amount w) db.wallets })
  consume-IsSoundBy sound e =
      wallet-IsSoundBy db k w (consume_by amount w) (neg amount) (neg amount) sound e
        (sub-eq-add_neg w.reserved_balance amount) (sub-eq-add_neg w.balance amount)
        (sub-le-sub amount w.balance w.reserved_balance)

  pub release-IsSoundBy :
      IsSoundBy dr dl db
      → pos 0 ≤ℤ amount
      → find k db.wallets ≡ some w
      → IsSoundBy
          (λ j. dr j +ℤ at k (neg amount) j)
          (λ j. dl j +ℤ at k (pos 0) j)
          (record db { wallets = put k (release_by amount w) db.wallets })
  release-IsSoundBy sound positive e =
      wallet-IsSoundBy db k w (release_by amount w) (neg amount) (pos 0) sound e
        (sub-eq-add_neg w.reserved_balance amount) (omega int_laws)
        (sub-le amount w.balance w.reserved_balance positive)
