-- ===== src/Sql.antt =====
-- What db/lock_db.go uses of a SQL database: the SQL helpers, which open transactions and build the
-- statements, and the guid provider. Both are packages outside this repository, so they are a
-- parameter of the model: a record of operations, and the laws that the program relies on.
-- The table `locks` is that of db/queries.go.
pub mod Memory
use mathlib.Core.Option
use locket.Prelude.{
  ℕ, String, ◌≡◌, ◌≢◌, Bool, true, false, not, ◌&&◌, Option, none, some, List, [], ◌∷◌, ◌==◌,
  if◌then◌else◌, Result, ok, err, Exec, length, filter, Has,
}
use locket.Prelude.Int64.{ℤ}
use locket.Models.{Error, sql_resource_not_found, driver, unrecoverable_error}

-- The columns of a row, but for its path.
pub record Attributes : Type 0 where
  pub owner : String
  pub value : String
  pub type : String
  pub modified_index : ℤ
  pub modified_id : String
  pub ttl : ℤ

pub record Row : Type 0 where
  pub path : String
  pub attributes : Attributes
  pub open attributes use *

-- SELECT ... WHERE path = ?
abbrev pub find_row : String → List Row → Option Attributes
find_row k [] = none
find_row k (r ∷ rows) =
    let rest = find_row k rows in if r.path == k then some r.attributes else rest

-- The optional clause `type = ?`.
abbrev pub has_type : Option String → Row → Bool
has_type none r = true
has_type (some type) r = r.type == type

-- The clause `owner <> ?`, and the optional `AND type = ?`.
abbrev pub counts : String → Option String → Row → Bool
counts owner type r = not (r.owner == owner) && has_type type r

pub record SqlHelper : Type 1 where
  -- the connection, the database behind it and the state of the guid provider
  pub Store : Type 0
  -- One(...).Scan(...) with the columns of `Attributes`, under `path = ?`
  pub one : String → Exec Error Store Attributes
  pub insert : Row → Exec Error Store (Unit {0})
  -- Update(...) of the columns of `Attributes`, under `path = ?`
  pub update : Attributes → String → Exec Error Store (Unit {0})
  pub delete : String → Exec Error Store (Unit {0})
  -- All(...): what Scan gives for each row that Next reaches
  pub all : Option String → Exec Error Store (List (Result Error Row))
  pub count : String → Option String → Exec Error Store ℕ
  -- Transact(...), on a function that also assigns to a captured variable
  pub transact :
      {C : Type 0} → Exec Error (C × Store) (Unit {0}) → Exec Error (C × Store) (Unit {0})
  pub convert_sql_error : Error → Error
  pub next_guid : Exec Error Store String

-- An error of another package, and none of models/models.go.
abbrev pub is_foreign : Error → Bool
is_foreign sql_resource_not_found = true
is_foreign unrecoverable_error = true
is_foreign (driver n) = true
is_foreign _ = false

-- What the captured variable is when an attempt of a transaction begins: attempts before it, which
-- were rolled back, have left it as their bodies did.
pub data Attempted {Store C : Type 0} (rows : Store → List Row)
    (body : Exec Error (C × Store) (Unit {0})) (c : C) (s : Store) : C → Type 0 where
  first : (c₀ : C) → c₀ ≡ c → Attempted rows body c s c₀
  again :
      (c₀ c₁ : C) (s₁ : Store)
      → Attempted rows body c s c₁
      → rows s₁ ≡ rows s
      → c₀ ≡ (body (c₁, s₁)).1.0
      → Attempted rows body c s c₀

-- What `transact body (c, s)` comes to. The body runs on a store with the rows of `s`, once or, after
-- attempts that failed, again; the transaction either commits what the body wrote or leaves the rows as they were.
pub data Transacted {Store C : Type 0} (rows : Store → List Row)
    (body : Exec Error (C × Store) (Unit {0})) (c : C) (s : Store)
    (result : Result Error (Unit {0})) (captured : C) (s' : Store) : Type 0 where
  committed :
      (c₀ : C) (s₀ : Store)
      → Attempted rows body c s c₀
      → rows s₀ ≡ rows s
      → (body (c₀, s₀)).0 ≡ ok tt
      → result ≡ ok tt
      → captured ≡ (body (c₀, s₀)).1.0
      → rows s' ≡ rows (body (c₀, s₀)).1.1
      → Transacted rows body c s result captured s'
  rolled_back :
      (c₀ : C) (s₀ : Store) (e : Error)
      → Attempted rows body c s c₀
      → rows s₀ ≡ rows s
      → (body (c₀, s₀)).0 ≡ err e
      → result ≡ err e
      → rows s' ≡ rows s
      → Transacted rows body c s result captured s'
  refused :
      (e : Error)
      → is_foreign e ≡ true
      → result ≡ err e
      → rows s' ≡ rows s
      → Transacted rows body c s result captured s'

module _ (sql : SqlHelper) where
  open sql use {
    Store, one, insert, update, delete, all, count, transact, convert_sql_error, next_guid,
  }

  pub record IsSqlHelper : Type 1 where
    -- the rows of the table, as the database holds them
    pub rows : Store → List Row
    pub rows-one : (k : String) (s : Store) → rows (one k s).1 ≡ rows s
    pub one_found :
        (k : String) (s : Store) (a : Attributes)
        → (one k s).0 ≡ ok a
        → find_row k (rows s) ≡ some a
    pub one_missing :
        (k : String) (s : Store) (e : Error)
        → (one k s).0 ≡ err e
        → convert_sql_error e ≡ sql_resource_not_found
        → find_row k (rows s) ≡ none
    pub one_foreign :
        (k : String) (s : Store) (e : Error) → (one k s).0 ≡ err e → is_foreign e ≡ true
    pub find_row-insert :
        (row : Row) (s : Store) (k : String)
        → (insert row s).0 ≡ ok tt
        → find_row k (rows (insert row s).1)
          ≡ (if row.path == k then some row.attributes else find_row k (rows s))
    pub insert_foreign :
        (row : Row) (s : Store) (e : Error) → (insert row s).0 ≡ err e → is_foreign e ≡ true
    pub find_row-update :
        (a : Attributes) (path : String) (s : Store) (k : String)
        → (update a path s).0 ≡ ok tt
        → find_row k (rows (update a path s).1)
          ≡ (if path == k then Option.map (λ _. a) (find_row k (rows s)) else find_row k (rows s))
    pub update_foreign :
        (a : Attributes) (path : String) (s : Store) (e : Error)
        → (update a path s).0 ≡ err e
        → is_foreign e ≡ true
    pub find_row-delete :
        (path : String) (s : Store) (k : String)
        → (delete path s).0 ≡ ok tt
        → find_row k (rows (delete path s).1) ≡ (if path == k then none else find_row k (rows s))
    pub delete_foreign :
        (path : String) (s : Store) (e : Error) → (delete path s).0 ≡ err e → is_foreign e ≡ true
    pub rows-all : (type : Option String) (s : Store) → rows (all type s).1 ≡ rows s
    -- a row that Scan gives is one of the table, of the type
    pub all_rows :
        (type : Option String) (s : Store) (items : List (Result Error Row))
        → (all type s).0 ≡ ok items
        → (r : Row) → Has (ok r) items
        → Has r (filter (has_type type) (rows s))
    pub rows-count :
        (o : String) (type : Option String) (s : Store) → rows (count o type s).1 ≡ rows s
    pub count_exact :
        (o : String) (type : Option String) (s : Store) (n : ℕ)
        → (count o type s).0 ≡ ok n
        → n ≡ length (filter (counts o type) (rows s))
    pub rows-next_guid : (s : Store) → rows (next_guid s).1 ≡ rows s
    pub guid_nonempty : (s : Store) (g : String) → (next_guid s).0 ≡ ok g → g ≢ ""
    pub next_guid_foreign : (s : Store) (e : Error) → (next_guid s).0 ≡ err e → is_foreign e ≡ true
    -- an error that the helpers do not know is passed through
    pub convert_own : (e : Error) → is_foreign e ≡ false → convert_sql_error e ≡ e
    pub convert_foreign :
        (e : Error) → is_foreign e ≡ true → is_foreign (convert_sql_error e) ≡ true
    pub transact_Transacted :
        {C : Type 0} (body : Exec Error (C × Store) (Unit {0})) (c : C) (s : Store)
        → let (result, (captured, s')) = transact body (c, s) in
          Transacted rows body c s result captured s'
