-- ===== src/Tests/Recoveries.antt =====
-- The theorem on payment attempts at a concrete attempt.
use sinkronis_backend.Common.{◌≡◌, ◌<◌, refl, none, some, [], ◌∷◌, true}
use sinkronis_backend.Common.Text.{codes, text_eq}
use sinkronis_backend.Common.Table.{Table, find, put}
use sinkronis_backend.Recovery.Attempt.{
  Attempt, initialized, is_recoverable_at, is_funding_open, as_recovering,
  claim_wallet_funding_recovery, release_recovery,
}
use sinkronis_backend.Recovery.Excluded.{funding_claim-excludes}

abbrev funding : Attempt
funding = record {
  provider = codes "PAYSTACK";
  status = initialized;
  dead_lettered_at = none;
  next_at = some 40;
  claim_token = none;
  claimed_at = none;
  lease_expires_at = none;
  attempts = 2;
  last_error = none;
}

abbrev fundings : Table Attempt
fundings = (5, funding) ∷ []

funding_found : find 5 fundings ≡ some funding
unfolding find
funding_found = refl

funding_due : is_recoverable_at is_funding_open 50 funding ≡ true
unfolding text_eq
funding_due = refl

funding_claim-excludes_example :
    let t' : Table Attempt = put 5 (as_recovering 10 50 77 funding) fundings in
    (claim_wallet_funding_recovery 10 5 50 77 fundings ≡ (some (77, 60), t'))
    × (59 < 60 → claim_wallet_funding_recovery 10 5 59 78 t' ≡ (none, t'))
    × (claim_wallet_funding_recovery 10 5 59 78 (release_recovery 5 77 none none (some 55) t')
        ≡ (none, release_recovery 5 77 none none (some 55) t'))
funding_claim-excludes_example =
    funding_claim-excludes 10 5 50 77 59 78 55 none funding fundings funding_found funding_due
