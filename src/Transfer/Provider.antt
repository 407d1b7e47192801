-- ===== src/Transfer/Provider.antt =====
-- What the provider answers, and the tenant check (`assertTenantProviderMode`) of
-- src/core/provider-settlement.ts.
use sinkronis_backend.Common.{ℕ, Bool, Option, none, some, ◌&&◌, not}
use sinkronis_backend.Common.Text.{Text}
use sinkronis_backend.Common.Table.{find}
use sinkronis_backend.Database.{
  Action, Error, Result, test_tenant_live, missing, pure, raise, gets, require, ensure, catch,
  ◌>>=◌,
}
use sinkronis_backend.Transfer.Inputs.{TransferResult}
use sinkronis_backend.Transfer.Lease.{release_provider_settlement_reconciliation}

-- The answers to the calls that one request makes of the provider, the message of each error, and
-- what the switch for new transfers throws, if it does.
pub record Answers : Type 0 where
  pub verify : Result TransferResult
  pub initiate : Result TransferResult
  pub finalize_otp : Result TransferResult
  pub message : Error → Text
  pub blocked : Option Error
  -- `env.PAYSTACK_TRANSFERS_MODE === "test"`
  pub is_test_mode : Bool

abbrev pub answer : {A : Type 0} → Result A → Action A
answer r db = (r, db)

-- A callback that throws, or does nothing.
abbrev pub throw_if : Option Error → Action (Unit {0})
throw_if none = pure tt
throw_if (some e) = raise e

unfoldable pub assert_tenant_provider_mode : Answers → ℕ → Action (Unit {0})
assert_tenant_provider_mode answers organization_id = do
  tenant ← require (← gets (λ db. find organization_id db.organizations)) missing
  ensure (not (tenant.is_test && not answers.is_test_mode)) test_tenant_live

-- `try { m } finally { k }`, where `k` raises nothing.
unfoldable pub finally : {A B : Type 0} → Action A → Action B → Action A
finally m k db = let r = m db in (r.0, (k r.1).1)

-- `release…(…).catch(() => undefined)`
unfoldable pub give_back : ℕ → ℕ → Option Text → Action ℕ
give_back i token error =
    catch (release_provider_settlement_reconciliation i token error) (λ _. pure 0)
