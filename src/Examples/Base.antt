-- ===== src/Examples/Base.antt =====
-- A small marketplace.
use escrow_fx_marketplace.Common.{ℕ, refl, none, some, [], ◌∷◌, pos, ◌+◌, String}
use escrow_fx_marketplace.Domain.Enums.{
  UserRole, UserStatus, KycStatus, RiskLevel, CurrencyStatus, CorridorStatus, ExchangeRequestStatus,
  ExchangeOfferStatus, TradeContractStatus,
}
use escrow_fx_marketplace.Domain.Decimal.{Number, finite}
use escrow_fx_marketplace.Domain.Entities.{
  User, Currency, Corridor, ExchangeRequest, ExchangeOffer, TradeContract,
}
use escrow_fx_marketplace.Store.Db.{Db, empty_db}
use escrow_fx_marketplace.Store.Action.{Env}
use escrow_fx_marketplace.Store.Ensures.{IsSerial}
use escrow_fx_marketplace.Store.Idempotency.{IdempotencyRequest}
use escrow_fx_marketplace.Service.Terms.{Changes, keep, set_to}
use escrow_fx_marketplace.Market.Invariant.{IsConsistent}

abbrev pub env : Env
env = record { clock = λ n. 1000 + n; uuid = λ n. 100 + n; others = λ _ d. d }

pub serial : IsSerial env
serial n d = refl

-- A clock past every deadline of the marketplace below.
abbrev pub late_env : Env
late_env = record { clock = λ n. 9000 + n; uuid = λ n. 100 + n; others = λ _ d. d }

pub late_serial : IsSerial late_env
late_serial n d = refl

abbrev pub number : ℕ → Number
number n = record { coefficient = pos n; scale = 0 }

abbrev pub user : ℕ → String → User
user id email = record {
  id = id;
  email = email;
  password_hash = "";
  phone = none;
  country = "NG";
  role = UserRole.customer;
  status = UserStatus.active;
  kyc_status = KycStatus.verified;
  risk_level = RiskLevel.low;
  email_verified_at = none;
  created_at = 0;
  updated_at = 0;
}

abbrev pub admin : User
admin = record (user 4 "four") { role = UserRole.admin }

abbrev pub currency : ℕ → Currency
currency id = record {
  id = id;
  code = "NGN";
  minor_unit = 2;
  status = CurrencyStatus.active;
  min_amount = number 1;
  max_amount = number 1000000;
  created_at = 0;
  updated_at = 0;
}

abbrev pub dollar : Currency
dollar = record (currency 51) { code = "USD" }

abbrev pub corridor : Corridor
corridor = record {
  id = 60;
  from_currency_id = 50;
  to_currency_id = 51;
  status = CorridorStatus.active;
  funding_sla_minutes = 30;
  fee_model_name = none;
  created_at = 0;
  updated_at = 0;
}

abbrev pub request : ℕ → ExchangeRequestStatus → ExchangeRequest
request id status = record {
  id = id;
  relisted_from_request_id = none;
  creator_user_id = 1;
  from_currency_id = 50;
  to_currency_id = 51;
  from_amount = number 500;
  preferred_rate = number 3;
  min_rate = some (number 2);
  status = status;
  expires_at = 5000;
  created_at = 0;
  updated_at = 0;
}

abbrev pub offer : ℕ → ℕ → ExchangeOfferStatus → ExchangeOffer
offer id request_id status = record {
  id = id;
  request_id = request_id;
  offer_user_id = 2;
  offered_rate = number 3;
  status = status;
  expires_at = 5000;
  created_at = 0;
  updated_at = 0;
}

abbrev pub trade : TradeContract
trade = record {
  id = 40;
  request_id = 13;
  accepted_offer_id = 23;
  agreed_rate = number 3;
  reference_rate_snapshot = none;
  from_amount = number 500;
  to_amount = number 1500;
  funding_deadline_at = 7000;
  status = TradeContractStatus.terms_locked;
  created_at = 0;
  updated_at = 0;
}

abbrev pub market : Db
market = record empty_db {
  users = user 1 "one" ∷ user 2 "two" ∷ user 3 "three" ∷ admin ∷ [];
  currencies = currency 50 ∷ dollar ∷ [];
  corridors = corridor ∷ [];
  requests =
      request 10 ExchangeRequestStatus.offer_pending
      ∷ request 11 ExchangeRequestStatus.request_open
      ∷ request 12 ExchangeRequestStatus.cancelled
      ∷ request 13 ExchangeRequestStatus.terms_locked
      ∷ [];
  offers = offer 20 10 ExchangeOfferStatus.active ∷ offer 23 13 ExchangeOfferStatus.accepted ∷ [];
  trades = trade ∷ [];
}

pub market-IsConsistent : IsConsistent market
market-IsConsistent = record {
  requests_keyed = (refl, (refl, (refl, (refl, tt))));
  offers_keyed = (refl, (refl, tt));
  pending_behind = ((λ _ _. refl), ((λ e _. cc), tt));
  trades_backed = ((λ _. (refl, refl)), tt);
}

abbrev pub key : IdempotencyRequest
key = record {
  principal_user_id = 1;
  operation_scope = "accept_offer";
  key_hash = "k";
  request_fingerprint = "f";
}

abbrev pub new_terms : Changes
new_terms = record {
  from_amount = set_to (some (finite (number 600)));
  preferred_rate = keep;
  min_rate = set_to none;
}
