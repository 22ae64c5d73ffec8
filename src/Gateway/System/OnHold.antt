-- ===== src/Gateway/System/OnHold.antt =====
-- What an account has on hold, and what its holds come to.
use omniscient.Prelude.{
  ℕ, ◌+◌, ◌≤◌, ◌≡◌, ◌≢◌, Bool, true, false, ◌&&◌, Option, none, some, List, [], ◌∷◌, refl, filter,
  length, arith, if◌then◌else◌, inl, inr, Bool-cases,
}
use omniscient.Shared.Domain.{Address, bytes_eq, bytes_eq_iff}
use omniscient.Shared.Order.{AssetType, usdc, ctf}
use omniscient.Store.{Bytes, Balance, Hold, HoldStatus, held, released, applied}
use omniscient.Store.Table.{update_where, update_where-none, upsert}
use omniscient.Gateway.Infra.{
  asset_eq, position_eq, is_account, can_reserve, reserve_row, release_row,
}

-- The key of the balances.
pub record Account : Type 0 where
  pub maker : Address
  pub asset : AssetType
  pub position : Option ℕ

abbrev pub of_account : Account → Balance → Bool
of_account a b = is_account a.maker a.asset a.position b

abbrev pub is_held : HoldStatus → Bool
is_held held = true
is_held released = false
is_held applied = false

-- A hold of the account that is neither released nor applied.
unfoldable pub holds_of : Account → Hold → Bool
holds_of a h =
    bytes_eq h.user_address a.maker.bytes
    && asset_eq h.asset_type a.asset
    && position_eq h.position_id a.position
    && is_held h.status

abbrev pub same_account : Account → Account → Bool
same_account a b =
    bytes_eq a.maker.bytes b.maker.bytes
    && asset_eq a.asset b.asset
    && position_eq a.position b.position

-- What is on hold in the rows of the account, and what its holds come to.
unfoldable pub on_hold : Account → List Balance → ℕ
on_hold a [] = 0
on_hold a (b ∷ bs) = (if of_account a b then b.hold_amount else 0) + on_hold a bs

unfoldable pub held_total : Account → List Hold → ℕ
held_total a [] = 0
held_total a (h ∷ hs) = (if holds_of a h then h.amount else 0) + held_total a hs

pub asset_eq-of : (x y z : AssetType) → asset_eq x y ≡ true → asset_eq x z ≡ asset_eq z y
asset_eq-of usdc usdc usdc h = refl
asset_eq-of usdc usdc ctf h = refl
asset_eq-of usdc ctf z h = ground arith
asset_eq-of ctf usdc z h = ground arith
asset_eq-of ctf ctf usdc h = refl
asset_eq-of ctf ctf ctf h = refl

pub position_eq-of : (x y z : Option ℕ) → position_eq x y ≡ true → position_eq x z ≡ position_eq z y
position_eq-of none none none h = refl
position_eq-of none none (some z) h = refl
position_eq-of none (some y) z h = ground arith
position_eq-of (some x) none z h = ground arith
position_eq-of (some x) (some y) none h = refl
position_eq-of (some x) (some y) (some z) h = ground arith

bytes_eq-of : (x y z : Bytes) → bytes_eq x y ≡ true → bytes_eq x z ≡ bytes_eq z y
bytes_eq-of x y z h =
    let i = bytes_eq_iff x y in let j = bytes_eq_iff x z in let k = bytes_eq_iff z y in ground arith

-- A row of one account is of another only if they are the same.
of_account-same :
    (a c : Account) (b : Balance) → of_account c b ≡ true → of_account a b ≡ same_account a c
unfolding is_account
of_account-same a c b h =
    let i = bytes_eq-of b.user_address c.maker.bytes a.maker.bytes in
    let j = asset_eq-of b.asset_type c.asset a.asset in
    let k = position_eq-of b.position_id c.position a.position in ground arith

-- `x` for the account `c`, and nothing for the others.
abbrev pub extra : Account → ℕ → Account → ℕ
extra c x a = if same_account a c then x else 0

-- Reserving adds to what is on hold in the account that is reserved from.
pub on_hold-reserve :
    (a c : Account) (x : ℕ) (bs : List Balance)
    → let p = can_reserve c.maker c.asset c.position x in
      let bs' = update_where p (reserve_row x) bs in
      (on_hold a bs ≤ on_hold a bs')
      × (length (filter p bs) ≢ 0 → on_hold a bs + extra c x a ≤ on_hold a bs')
unfolding on_hold update_where is_account
on_hold-reserve a c x [] = ground arith
on_hold-reserve a c x (b ∷ bs) =
    let i = on_hold-reserve a c x bs in let s = of_account-same a c b in ground arith

-- Releasing takes no more from what is on hold.
pub on_hold-release :
    (a c : Account) (x : ℕ) (bs : List Balance)
    → length (filter (of_account c) bs) ≤ 1
    → on_hold a bs ≤ on_hold a (update_where (of_account c) (release_row x) bs) + extra c x a
unfolding on_hold update_where is_account
on_hold-release a c x [] u = ground arith
on_hold-release a c x (b ∷ bs) u =
    let i = on_hold-release a c x bs in
    let n = update_where-none (of_account c) (release_row x) bs in
    let s = of_account-same a c b in ground arith

-- What leaves the keys alone leaves the number of an account's rows alone.
pub count-update_where :
    {A : Type 0} (q p : A → Bool) (f : A → A) (xs : List A)
    → ((x : A) → q (f x) ≡ q x)
    → length (filter q (update_where p f xs)) ≡ length (filter q xs)
unfolding update_where
count-update_where q p f [] h = refl
count-update_where q p f (x ∷ xs) h = ground (arith, h x, count-update_where q p f xs h)

-- Crediting leaves what is on hold alone, and an account has one row at most afterwards.
pub on_hold-upsert :
    (a : Account) (p : Balance → Bool) (new : Balance) (f : Balance → Balance) (bs : List Balance)
    → new.hold_amount ≡ 0
    → ((b : Balance) → (of_account a (f b) ≡ of_account a b) × ((f b).hold_amount ≡ b.hold_amount))
    → on_hold a (upsert p new f bs) ≡ on_hold a bs
unfolding on_hold upsert
on_hold-upsert a p new f [] e k = ground arith
on_hold-upsert a p new f (b ∷ bs) e k = ground (arith, k b, on_hold-upsert a p new f bs e k)

count-upsert_other :
    {A : Type 0} (q p : A → Bool) (new : A) (f : A → A) (xs : List A)
    → q new ≡ false
    → ((x : A) → q (f x) ≡ q x)
    → length (filter q (upsert p new f xs)) ≡ length (filter q xs)
unfolding upsert
count-upsert_other q p new f [] e h = ground arith
count-upsert_other q p new f (x ∷ xs) e h = ground (arith, h x, count-upsert_other q p new f xs e h)

count-upsert_same :
    {A : Type 0} (q p : A → Bool) (new : A) (f : A → A) (xs : List A)
    → length (filter q xs) ≤ 1
    → ((x : A) → (q (f x) ≡ q x) × (p x ≡ q x))
    → length (filter q (upsert p new f xs)) ≤ 1
unfolding upsert
count-upsert_same q p new f [] u h = ground arith
count-upsert_same q p new f (x ∷ xs) u h = ground (arith, h x, count-upsert_same q p new f xs)

pub count-upsert :
    {A : Type 0} (q p : A → Bool) (new : A) (f : A → A) (xs : List A)
    → length (filter q xs) ≤ 1
    → ((x : A) → q (f x) ≡ q x)
    → (q new ≡ true → (x : A) → p x ≡ q x)
    → length (filter q (upsert p new f xs)) ≤ 1
count-upsert q p new f xs u h k = elim (Bool-cases (q new)) [
  | inl e ↦ count-upsert_same q p new f xs u (λ x. (h x, k e x))
  | inr e ↦ rw (count-upsert_other q p new f xs e h) u
]
