-- ===== src/Identity/Progress.antt =====
-- The order of the statuses of a verification, and the writes that respect it.
use escrow_fx_marketplace.Common.{
  ℕ, ◌≡◌, refl, sym, subst, ap, ◌∙◌, Option, none, some, List, [], ◌∷◌, ◌++◌, find, ◌==◌, ==→eq,
  if◌then◌else◌, Bool-cases, inl, inr,
}
use escrow_fx_marketplace.Domain.Identity.{KycVerification, KycVerificationStatus}
use escrow_fx_marketplace.Store.Db.{Db}
use escrow_fx_marketplace.Store.Table.{update_where}
use escrow_fx_marketplace.Store.Verifications.{verification_by_id, save_verification}
use escrow_fx_marketplace.Market.Rows.{find-passes}
use mathlib.Core.Option.{some-injective}

-- What a status may become: a pending one anything, one under review a decision, and a decision
-- itself alone.
abbrev pub Becomes : KycVerificationStatus → KycVerificationStatus → Type 0
Becomes KycVerificationStatus.pending _ = Unit
Becomes KycVerificationStatus.requires_review KycVerificationStatus.pending = ⊥
Becomes KycVerificationStatus.requires_review _ = Unit
Becomes KycVerificationStatus.verified KycVerificationStatus.verified = Unit
Becomes KycVerificationStatus.rejected KycVerificationStatus.rejected = Unit
Becomes _ _ = ⊥

pub Becomes-refl : (a : KycVerificationStatus) → Becomes a a
Becomes-refl KycVerificationStatus.pending = tt
Becomes-refl KycVerificationStatus.requires_review = tt
Becomes-refl KycVerificationStatus.verified = tt
Becomes-refl KycVerificationStatus.rejected = tt

Becomes-trans : (a b c : KycVerificationStatus) → Becomes a b → Becomes b c → Becomes a c
Becomes-trans KycVerificationStatus.pending b c h k = tt
Becomes-trans KycVerificationStatus.requires_review b c h k = under_review b c h k
  where
    under_review :
        (b c : KycVerificationStatus)
        → Becomes KycVerificationStatus.requires_review b
        → Becomes b c
        → Becomes KycVerificationStatus.requires_review c
    under_review KycVerificationStatus.pending c h k = elim h [ ]
    under_review KycVerificationStatus.requires_review c h k = k
    under_review b KycVerificationStatus.verified h k = tt
    under_review b KycVerificationStatus.rejected h k = tt
    under_review b KycVerificationStatus.requires_review h k = tt
    under_review KycVerificationStatus.verified KycVerificationStatus.pending h k = elim k [ ]
    under_review KycVerificationStatus.rejected KycVerificationStatus.pending h k = elim k [ ]
Becomes-trans KycVerificationStatus.verified KycVerificationStatus.verified c h k = k
Becomes-trans KycVerificationStatus.verified KycVerificationStatus.pending c h k = elim h [ ]
Becomes-trans KycVerificationStatus.verified KycVerificationStatus.rejected c h k = elim h [ ]
Becomes-trans KycVerificationStatus.verified KycVerificationStatus.requires_review c h k =
    elim h [ ]
Becomes-trans KycVerificationStatus.rejected KycVerificationStatus.rejected c h k = k
Becomes-trans KycVerificationStatus.rejected KycVerificationStatus.pending c h k = elim h [ ]
Becomes-trans KycVerificationStatus.rejected KycVerificationStatus.verified c h k = elim h [ ]
Becomes-trans KycVerificationStatus.rejected KycVerificationStatus.requires_review c h k =
    elim h [ ]

-- The row of an identifier stays a row, of a status that the old one may become.
abbrev pub RowProgress : Option KycVerification → Option KycVerification → Type 0
RowProgress none _ = Unit
RowProgress (some v) none = ⊥
RowProgress (some v) (some w) = Becomes v.status w.status

abbrev pub Progress : (before after : Db) → Type 0
Progress before after =
    (id : ℕ) → RowProgress (verification_by_id id before) (verification_by_id id after)

RowProgress-refl : (o : Option KycVerification) → RowProgress o o
RowProgress-refl none = tt
RowProgress-refl (some v) = Becomes-refl v.status

RowProgress-trans :
    (a b c : Option KycVerification) → RowProgress a b → RowProgress b c → RowProgress a c
RowProgress-trans none b c h k = tt
RowProgress-trans (some u) (some v) (some w) h k = Becomes-trans u.status v.status w.status h k
RowProgress-trans (some u) (some v) none h k = k
RowProgress-trans (some u) none c h k = absurd h

pub Progress-refl : (d : Db) → Progress d d
Progress-refl d id = RowProgress-refl (verification_by_id id d)

pub Progress-trans : (c d e : Db) → Progress c d → Progress d e → Progress c e
Progress-trans c d e h k id = RowProgress-trans _ _ _ (h id) (k id)

pub Progress-same : (c d e : Db) → Progress c d → e.verifications ≡ d.verifications → Progress c e
Progress-same c d e h same id =
    subst (λ rows. RowProgress (verification_by_id id c) (find (λ v. v.id == id) rows)) (sym same)
      (h id)

abbrev pub opt_map : {A : Type 0} → (A → A) → Option A → Option A
opt_map f none = none
opt_map f (some a) = some (f a)

-- A search by the key meets the updated row.
pub find-update :
    {A : Type 0} (key : A → ℕ) (f : A → A)
    → ((x : A) → key (f x) ≡ key x)
    → (q k : ℕ) (rows : List A)
    → find (λ x. key x == q) (update_where (λ x. key x == k) f rows)
      ≡ opt_map (λ x. if key x == k then f x else x) (find (λ x. key x == q) rows)
find-update key f keeps q k [] = refl
find-update key f keeps q k (x ∷ rows) = elim (Bool-cases (key x == q)) [
  | inl hit ↦ elim (Bool-cases (key x == k)) [
    | inl here ↦ rw (here, keeps x, hit, here) refl
    | inr there ↦ rw (there, hit, there) refl
  ]
  | inr miss ↦ elim (Bool-cases (key x == k)) [
    | inl here ↦ rw (here, keeps x, miss) (find-update key f keeps q k rows)
    | inr there ↦ rw (there, miss) (find-update key f keeps q k rows)
  ]
]

pub found_id :
    (id : ℕ) (x : KycVerification) (rows : List KycVerification)
    → find (λ v. v.id == id) rows ≡ some x
    → x.id ≡ id
found_id id x rows e = ==→eq x.id id (find-passes (λ v. v.id == id) rows e)

-- A write of a row whose status the old row may become.
pub save-Progress :
    (d : Db) (v w : KycVerification)
    → verification_by_id w.id d ≡ some v
    → Becomes v.status w.status
    → Progress d (save_verification w d)
save-Progress d v w found becomes id =
    subst (RowProgress (verification_by_id id d))
      (sym (find-update KycVerification.id _ (λ x. refl) id w.id d.verifications))
      (moved (verification_by_id id d) refl)
  where
    moved :
        (o : Option KycVerification)
        → verification_by_id id d ≡ o
        → RowProgress o (
            opt_map
              (λ x.
                if x.id == w.id
                then record w { id = x.id; user_id = x.user_id; created_at = x.created_at }
                else x)
              o)
    moved none e = tt
    moved (some x) e = elim (Bool-cases (x.id == w.id)) [
      | inl here ↦ rw here (
          subst (λ y. Becomes y.status w.status)
            (some-injective v x (
              sym found
              ∙ ap (λ k. verification_by_id k d)
                  (sym (==→eq x.id w.id here) ∙ found_id id x d.verifications e)
              ∙ e))
            becomes)
      | inr there ↦ rw there (Becomes-refl x.status)
    ]

-- A new row.
pub add-Progress :
    (d : Db) (v : KycVerification)
    → Progress d (record d { verifications = d.verifications ++ v ∷ [] })
add-Progress d v id = kept d.verifications
  where
    kept :
        (rows : List KycVerification)
        → RowProgress (find (λ x. x.id == id) rows) (find (λ x. x.id == id) (rows ++ v ∷ []))
    kept [] = tt
    kept (x ∷ rows) = elim (Bool-cases (x.id == id)) [
      | inl hit ↦ rw hit (Becomes-refl x.status)
      | inr miss ↦ rw miss (kept rows)
    ]
