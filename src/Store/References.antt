-- ===== src/Store/References.antt =====
-- SqlAlchemyCurrencyRepository and SqlAlchemyCorridorRepository: the reads that the services make.
use escrow_fx_marketplace.Common.{ℕ, Bool, ◌&&◌, String, any, find, ◌==◌}
use escrow_fx_marketplace.Domain.Errors.{not_found}
use escrow_fx_marketplace.Domain.Enums.{currency_is_active}
use escrow_fx_marketplace.Domain.Entities.{Currency, Corridor}
use escrow_fx_marketplace.Store.Db.{Db}
use escrow_fx_marketplace.Store.Action.{Action, fetch}
use text.Mathlib.Text.{◌==◌ as str_eq}

unfoldable pub get_by_code : String → Action Currency
get_by_code code = fetch (λ d. find (λ c. str_eq c.code code) d.currencies) not_found

unfoldable pub get_currency : ℕ → Action Currency
get_currency currency_id = fetch (λ d. find (λ c. c.id == currency_id) d.currencies) not_found

unfoldable pub get_by_currency_pair : ℕ → ℕ → Action Corridor
get_by_currency_pair from_currency_id to_currency_id =
    fetch
      (λ d.
        find (λ c. c.from_currency_id == from_currency_id && c.to_currency_id == to_currency_id)
          d.corridors)
      not_found

-- `ExchangeRequestModel.from_currency.has(CurrencyModel.status == CurrencyStatus.ACTIVE)`
abbrev pub has_active_currency : Db → ℕ → Bool
has_active_currency d currency_id =
    any (λ c. c.id == currency_id && currency_is_active c.status) d.currencies
