-- ===== src/Sql/Memory.antt =====
-- A database in memory: one that keeps the laws of `IsSqlHelper`, on which examples run.
use mathlib.Core.Option
use locket.Prelude.{
  ℕ, zero, String, ◌≡◌, ◌≢◌, refl, subst, Bool, not, Option, none, some, List, [], ◌∷◌, map, ◌==◌,
  if◌then◌else◌, Result, ok, err, Exec, length, filter, arith, eq_iff, Result-cases, inl, inr, Has,
  ap, sym,
}
use locket.Models.{Error, sql_resource_not_found, driver}
use locket.Sql.{
  Row, Attributes, SqlHelper, IsSqlHelper, find_row, has_type, counts, Transacted, committed,
  rolled_back, first,
}

pub record Memory : Type 0 where
  pub rows : List Row

-- sql.ErrNoRows
abbrev pub no_rows : Error
no_rows = driver 0

abbrev pub duplicate_key : Error
duplicate_key = driver 1

unfoldable pub one : String → Exec Error Memory Attributes
one k s = elim (find_row k s.rows) [ none ↦ (err no_rows, s) | some a ↦ (ok a, s) ]

unfoldable pub insert : Row → Exec Error Memory (Unit {0})
insert row s = elim (find_row row.path s.rows) [
  | none ↦ (ok tt, record s { rows = row ∷ s.rows })
  | some _ ↦ (err duplicate_key, s)
]

abbrev pub set_row : Attributes → String → Row → Row
set_row a path row = if row.path == path then record row { attributes = a } else row

unfoldable pub update : Attributes → String → Exec Error Memory (Unit {0})
update a path s = (ok tt, record s { rows = map (set_row a path) s.rows })

abbrev pub without : String → List Row → List Row
without path = filter (λ row. not (row.path == path))

unfoldable pub delete : String → Exec Error Memory (Unit {0})
delete path s = (ok tt, record s { rows = without path s.rows })

unfoldable pub all : Option String → Exec Error Memory (List (Result Error Row))
all type s = (ok (map ok (filter (has_type type) s.rows)), s)

unfoldable pub count : String → Option String → Exec Error Memory ℕ
count owner type s = (ok (length (filter (counts owner type) s.rows)), s)

unfoldable pub transact :
    {C : Type 0} → Exec Error (C × Memory) (Unit {0}) → Exec Error (C × Memory) (Unit {0})
transact body (c, s) = elim (body (c, s)).0 [
  | ok _ ↦ (ok tt, (body (c, s)).1)
  | err e ↦ (err e, ((body (c, s)).1.0, s))
]

unfoldable pub convert : Error → Error
convert (driver zero) = sql_resource_not_found
convert e = e

unfoldable pub next_guid : Exec Error Memory String
next_guid s = (ok "guid", s)

abbrev pub memory : SqlHelper
memory = record {
  Store = Memory;
  one = one;
  insert = insert;
  update = update;
  delete = delete;
  all = all;
  count = count;
  transact = transact;
  convert_sql_error = convert;
  next_guid = next_guid;
}

pub find_row-set_row :
    (a : Attributes) (path k : String) (rows : List Row)
    → find_row k (map (set_row a path) rows)
      ≡ (if path == k then Option.map (λ _. a) (find_row k rows) else find_row k rows)
find_row-set_row a path k [] = ground arith
find_row-set_row a path k (r ∷ rows) =
    ground
      (arith, find_row-set_row a path k rows, eq_iff r.path path, eq_iff r.path k, eq_iff path k)

pub find_row-without :
    (path k : String) (rows : List Row)
    → find_row k (without path rows) ≡ (if path == k then none else find_row k rows)
find_row-without path k [] = ground arith
find_row-without path k (r ∷ rows) =
    ground (arith, find_row-without path k rows, eq_iff r.path path, eq_iff r.path k, eq_iff path k)

pub transact-Transacted :
    {C : Type 0} (body : Exec Error (C × Memory) (Unit {0})) (c : C) (s : Memory)
    → let (result, (captured, s')) = transact body (c, s) in
      Transacted (λ (m : Memory). m.rows) body c s result captured s'
unfolding transact
transact-Transacted body c s = elim (Result-cases (body (c, s)).0) [
  | inl (u, e) ↦
      committed c s (first c refl) refl e (rw (e, transact)) (rw (e, transact)) (rw (e, transact))
  | inr (x, e) ↦ rolled_back c s x (first c refl) refl e (rw (e, transact)) (rw (e, transact))
]

pub guid_text : ◌≢◌ {A = String} "guid" ""
guid_text = ground (arith, eq_iff "guid" "")

abbrev pub read : Row → Result Error Row
read r = ok r

pub Has-map_ok : (r : Row) (rows : List Row) → Has (ok r) (map read rows) → Has r rows
Has-map_ok r [] h = h
Has-map_ok r (x ∷ rows) (inl e) = inl (cc)
Has-map_ok r (x ∷ rows) (inr h) = inr (Has-map_ok r rows h)

pub Has-ok_map : (r : Row) (rows : List Row) → Has r rows → Has (ok r) (map read rows)
Has-ok_map r [] h = h
Has-ok_map r (x ∷ rows) (inl e) = inl (ap ok e)
Has-ok_map r (x ∷ rows) (inr h) = inr (Has-ok_map r rows h)

pub scanned :
    (p : Row → Bool) (rows : List Row) (items : List (Result Error Row))
    → ◌≡◌ {A = Result Error (List (Result Error Row))} (ok (map ok (filter p rows))) (ok items)
    → items ≡ map ok (filter p rows)
scanned p rows items h = cc

pub Has-scanned :
    (p : Row → Bool) (rows : List Row) (items : List (Result Error Row))
    → ◌≡◌ {A = Result Error (List (Result Error Row))} (ok (map ok (filter p rows))) (ok items)
    → (r : Row) → Has (ok r) items
    → Has r (filter p rows)
Has-scanned p rows items h r k =
    Has-map_ok r (filter p rows) (subst (Has (ok r)) (scanned p rows items h) k)

-- Every row can be scanned.
pub all-ReadsAll :
    (type : Option String) (s : Memory) (items : List (Result Error Row)) (r : Row)
    → (all type s).0 ≡ ok items
    → Has r (filter (has_type type) s.rows)
    → Has (ok r) items
unfolding all
all-ReadsAll type s items r h k =
    subst (Has (ok r)) (sym (scanned (has_type type) s.rows items h))
      (Has-ok_map r (filter (has_type type) s.rows) k)

unfoldable pub memory-IsSqlHelper : IsSqlHelper memory
unfolding one insert update delete all count convert next_guid
memory-IsSqlHelper = record {
  rows = λ s. s.rows;
  rows-one = λ k s. ground arith;
  one_found = λ k s a h. ground arith;
  one_missing = λ k s e h m. ground arith;
  one_foreign = λ k s e h. ground arith;
  find_row-insert = λ row s k h. ground (arith, eq_iff row.path k);
  insert_foreign = λ row s e h. ground arith;
  find_row-update = λ a path s k h. find_row-set_row a path k s.rows;
  update_foreign = λ a path s e h. ground arith;
  find_row-delete = λ path s k h. find_row-without path k s.rows;
  delete_foreign = λ path s e h. ground arith;
  rows-all = λ type s. refl;
  all_rows = λ type s items h r k. Has-scanned (has_type type) s.rows items h r k;
  rows-count = λ o type s. refl;
  count_exact = λ o type s n h. ground arith;
  rows-next_guid = λ s. refl;
  guid_nonempty = λ s g h. ground (arith, guid_text, h);
  next_guid_foreign = λ s e h. ground arith;
  convert_own = λ e h. ground arith;
  convert_foreign = λ e h. ground arith;
  transact_Transacted = transact-Transacted;
}
