-- ===== src/Database/Monad.antt =====
-- A service function as an action: it reads and writes the database and may raise. Each statement
-- is committed as it is run, so what was written before a raise stays written.
use billing_recovery_executi.Common.{ℕ, suc, Bool, true, false, String, Option, none, some}
use billing_recovery_executi.Database.Rows.{Database}
use billing_recovery_executi.Database.Environment.{Env}

-- `integrity_error` is sqlite3.IntegrityError at a column that must be unique; `type_error` is that
-- of a subscript of None, `unicode_encode_error` that of a text that sqlite3 cannot bind.
pub data Error : Type 0 where
  value_error : String → Error
  integrity_error : String → Error
  type_error unicode_encode_error : Error

pub data Result (A : Type 0) : Type 0 where
  ok : A → Result A
  err : Error → Result A

abbrev pub Action : Type 0 → Type 0
Action A = Database → Result A × Database

module _ {A : Type 0} where
  unfoldable pub pure : A → Action A
  pure a db = (ok a, db)

  unfoldable pub raise : Error → Action A
  raise e db = (err e, db)

  -- A query.
  unfoldable pub gets : (Database → A) → Action A
  gets f db = (ok (f db), db)

  -- A subscript of a row that may be None.
  unfoldable pub row : Option A → Action A
  unfolding pure raise
  row none = raise type_error
  row (some a) = pure a

module _ {A B : Type 0} where
  abbrev pub continue : Result A → (A → Action B) → Action B
  continue (ok a) f db = f a db
  continue (err e) f db = (err e, db)

  infixl 10 ◌>>=◌ ◌>>◌
  unfoldable pub ◌>>=◌ : Action A → (A → Action B) → Action B
  unfolding pure raise gets row
  ◌>>=◌ m f db = let (r, db') = m db in continue r f db'

  abbrev pub ◌>>◌ : Action A → Action B → Action B
  m >> k = m >>= λ _. k

-- An UPDATE.
unfoldable pub modify : (Database → Database) → Action (Unit {0})
modify f db = (ok tt, f db)

-- if test: raise e
unfoldable pub raise_if : Bool → Error → Action (Unit {0})
raise_if true e db = (err e, db)
raise_if false e db = (ok tt, db)

unfoldable pub insert_if_free : Bool → String → (Database → Database) → Action (Unit {0})
insert_if_free true column add db = (err (integrity_error column), db)
insert_if_free false column add db = (ok tt, add db)

-- An INSERT: `clash` says whether a unique column of the new row is taken.
unfoldable pub insert : String → (Database → Bool) → (Database → Database) → Action (Unit {0})
unfolding insert_if_free
insert column clash add db = insert_if_free (clash db) column add db

abbrev pub next_tick : Database → Database
next_tick db = record db { tick = suc db.tick }

module _ (env : Env) where
  -- uuid.uuid4().hex[:8].upper()
  unfoldable pub draw_uuid8 : Action String
  draw_uuid8 db = (ok (env.uuid8 db.tick), next_tick db)

  -- uuid.uuid4().hex[:10]
  unfoldable pub draw_uuid10 : Action String
  draw_uuid10 db = (ok (env.uuid10 db.tick), next_tick db)

  -- CURRENT_TIMESTAMP
  unfoldable pub now : Action ℕ
  now db = (ok (env.timestamp db.tick), next_tick db)

  -- The tick of one call of the Stripe API.
  unfoldable pub call_tick : Action ℕ
  call_tick db = (ok db.tick, next_tick db)
