-- ===== src/Store.antt =====
-- The tables of backend/schema.sql that the statements read and write, as lists of rows, and what a
-- statement is: it changes the tables, or the server refuses it. Time stamps are left out, but for an
-- order's deadline, in seconds. `hold_amount` is a column that the gateway's statements use.
pub mod Table
pub mod Keeps
use omniscient.Prelude.{ℕ, Bool, true, false, Option, none, some, List, [], ◌∷◌, ◌&&◌, ◌==◌}
use omniscient.Prelude.Integers.{ℤ}
use omniscient.Prelude.Result.{Result, ok, err}
use omniscient.Shared.Domain.{OrderId, OrderSide, bytes_eq}
use omniscient.Shared.Order.{AssetType, usdc, ctf}

abbrev pub Bytes : Type 0
Bytes = List ℕ

pub record User : Type 0 where
  pub address : Bytes
  pub cancellation_nonce : ℕ

pub data MarketState : Type 0 where
  open_market halted expired_market proposed disputed resolved settled redeemable : MarketState

pub record Market : Type 0 where
  pub market_id : Bytes
  pub question_id : ℕ
  pub state : MarketState
  pub expiry : ℕ
  pub block_number : ℕ

pub record Balance : Type 0 where
  pub user_address : Bytes
  pub asset_type : AssetType
  pub position_id : Option ℕ
  pub available_amount : ℤ
  pub hold_amount : ℕ
  pub finalized_block_number : ℕ

pub data OrderStatus : Type 0 where
  open_order filled cancelled expired : OrderStatus

-- A row's place in `orders` stands for `created_at`: a new row is the last one.
pub record OrderRow : Type 0 where
  pub order_id : OrderId
  pub user_address : Bytes
  pub market_id : Bytes
  pub side : OrderSide
  pub price : ℕ
  pub amount : ℕ
  pub filled_amount : ℕ
  pub status : OrderStatus
  pub nonce : ℕ
  pub salt : Bytes
  pub position_id : ℕ
  pub signature : Bytes
  pub deadline : ℕ

pub data HoldStatus : Type 0 where
  held released applied : HoldStatus

pub record Hold : Type 0 where
  pub user_address : Bytes
  pub order_id : OrderId
  pub asset_type : AssetType
  pub position_id : Option ℕ
  pub amount : ℕ
  pub status : HoldStatus

pub record Cursor : Type 0 where
  pub contract_address : Bytes
  pub last_finalized_block : ℕ
  pub last_finalized_block_hash : Option Bytes

pub record Checkpoint : Type 0 where
  pub block_number : ℕ
  pub block_hash : Bytes
  pub is_finalized : Bool

pub record IndexedLog : Type 0 where
  pub block_number : ℕ
  pub tx_hash : Bytes
  pub log_index : ℕ
  pub contract_address : Bytes
  pub topic0 : Bytes

pub record Tables : Type 0 where
  pub users : List User
  pub markets : List Market
  pub balances : List Balance
  pub orders : List OrderRow
  pub holds : List Hold
  pub cursors : List Cursor
  pub checkpoints : List Checkpoint
  pub logs : List IndexedLog

-- `refusals`: for each statement that is still to come, whether the server refuses it (a constraint,
-- a lost connection); when the list is used up, none is refused.
pub record Db : Type 0 where
  pub tables : Tables
  pub refusals : List Bool

pub data Field : Type 0 where
  block_number_field expiry_field nonce_field from_block_field bytes_field log_index_field : Field

-- `shared::Error`, where the database is used
pub data Error : Type 0 where
  sqlx : Error
  insufficient_balance : AssetType → Error
  invalid_row : Error
  domain : Field → Error

abbrev pub Sql : Type 0 → Type 0
Sql A = Db → Result A Error × Db

abbrev pub give : {A : Type 0} → Result A Error → Sql A
give r db = (r, db)

infixr 4 ◌>>=◌ ◌>>◌
-- `.await?`, and go on
abbrev pub ◌>>=◌ : {A B : Type 0} → Sql A → (A → Sql B) → Sql B
(m >>= k) db = let r = m db in elim r.0 [ ok a ↦ k a r.1 | err e ↦ (err e, r.1) ]

abbrev pub ◌>>◌ : {A : Type 0} → Sql (Unit {0}) → Sql A → Sql A
m >> k = m >>= λ _. k

-- `sqlx::query(…).execute(…)`
unfoldable pub execute : (Tables → Tables) → Sql (Unit {0})
execute f db = elim db.refusals [
  | [] ↦ (ok tt, record db { tables = f db.tables })
  | true ∷ rs ↦ (err sqlx, record db { refusals = rs })
  | false ∷ rs ↦ (ok tt, record { tables = f db.tables; refusals = rs })
]

-- `sqlx::query_as(…).fetch(…)`
unfoldable pub fetch : {A : Type 0} → (Tables → A) → Sql A
fetch f db = elim db.refusals [
  | [] ↦ (ok (f db.tables), db)
  | true ∷ rs ↦ (err sqlx, record db { refusals = rs })
  | false ∷ rs ↦ (ok (f db.tables), record db { refusals = rs })
]

-- `sqlx::query(…).execute(…)` where the number of rows that it changed is read
unfoldable pub execute_count : (Tables → Tables × ℕ) → Sql ℕ
execute_count f db = elim db.refusals [
  | [] ↦ (ok (f db.tables).1, record db { tables = (f db.tables).0 })
  | true ∷ rs ↦ (err sqlx, record db { refusals = rs })
  | false ∷ rs ↦ (ok (f db.tables).1, record { tables = (f db.tables).0; refusals = rs })
]

-- `begin`, what is done in the transaction, and `commit`: the server can refuse each. A transaction
-- that is rolled back, or dropped, leaves the tables as they were when it began.
unfoldable pub transaction : Sql (Unit {0}) → Sql (Unit {0})
transaction m db =
    let r = (execute (λ t. t) >> m >> execute (λ t. t)) db in
    elim r.0 [ ok u ↦ r | err e ↦ (err e, record (r.1) { tables = db.tables }) ]
