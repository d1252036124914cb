-- ===== src/Store/LockOrder.antt =====
-- `lock_users_in_order` takes the locks of users in one order, whoever calls it.
use escrow_fx_marketplace.Common.{ℕ, ◌≡◌, true, List, [], ◌∷◌, map, ltb, All}
use escrow_fx_marketplace.Domain.Entities.{User}
use escrow_fx_marketplace.Store.Ensures.{Ensures}

-- Each identifier is smaller than all that follow.
abbrev pub IsAscending : List ℕ → Type 0
IsAscending [] = Unit
IsAscending (x ∷ xs) = All (λ y. ltb x y ≡ true) xs × IsAscending xs

abbrev pub locked_ids : List User → List ℕ
locked_ids users = map (λ (u : User). u.id) users
