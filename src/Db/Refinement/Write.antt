-- ===== src/Db/Refinement/Write.antt =====
-- The statements with which `Lock` of db/lock_db.go writes a row, on the abstract table.

use locket.Prelude.{
  String, ◌≡◌, ◌≢◌, refl, Bool, true, false, some, ◌==◌, if◌then◌else◌, ◌⊎◌, inl, inr, ok, err,
  arith, eq_iff, Bool-cases, is_none, ap, sym,
}
use locket.Models.{Error, Resource, get_resource}
use locket.Sql.{SqlHelper, IsSqlHelper, Row, is_foreign, find_row}
use locket.Db.{Lock, pick_id, put, Claim, row_attributes}
use locket.Db.Contract.{Table, stored}
use locket.Db.Refinement.Table.{is_sql_resource_not_found_sound}
use locket.Db.Refinement.Table

module _ (sql : SqlHelper) (laws : IsSqlHelper sql) where
  open sql use {Store}
  open laws use {rows}

  abbrev table : Store → Table
  table = Table.table sql laws

  key-get_resource : (r : Resource) → (get_resource r).key ≡ r.key
  unfolding get_resource
  key-get_resource r = refl

  table-insert :
      (r : Resource) (l : Lock) (s s₁ : Store)
      → l.resource ≡ get_resource r
      → rows s₁ ≡ rows s
      → let row : Row = record { path = l.key; attributes = row_attributes l } in
        (sql.insert row s₁).0 ≡ ok tt
        → (k : String)
        → table (sql.insert row s₁).1 k ≡ (if r.key == k then some (stored l) else table s k)
  unfolding Table.table
  table-insert r l s s₁ e same h k = ground (
    arith,
    laws.find_row-insert (record { path = l.key; attributes = row_attributes l }) s₁ k h,
    same,
    eq_iff l.key k,
    ap (λ (x : Resource). x.key) e,
    key-get_resource r,
  )

  table-update :
      (r : Resource) (l : Lock) (s s₁ : Store)
      → l.resource ≡ get_resource r
      → rows s₁ ≡ rows s
      → is_none (find_row r.key (rows s)) ≡ false
      → (sql.update (row_attributes l) l.key s₁).0 ≡ ok tt
      → (k : String)
      → table (sql.update (row_attributes l) l.key s₁).1 k
        ≡ (if r.key == k then some (stored l) else table s k)
  unfolding Table.table
  table-update r l s s₁ e same there h k = ground (
    arith,
    laws.find_row-update (row_attributes l) l.key s₁ k h,
    same,
    eq_iff l.key k,
    ap (λ (x : Resource). x.key) e,
    key-get_resource r,
  )

  pub pick_id_ok :
      (c : Claim) (s : Store) (id : String)
      → (pick_id sql c s).0 ≡ ok id
      → (id ≢ "") × ((c.id ≡ "") ⊎ (id ≡ c.id)) × (rows (pick_id sql c s).1 ≡ rows s)
  unfolding pick_id
  pick_id_ok c s id h = elim (Bool-cases (c.id == "")) [
    | inl e ↦ ground (arith, e, laws.guid_nonempty s id, laws.rows-next_guid s, eq_iff c.id "")
    | inr e ↦ ground (arith, e, eq_iff c.id "")
  ]

  pub pick_id_err :
      (c : Claim) (s : Store) (e : Error) → (pick_id sql c s).0 ≡ err e → is_foreign e ≡ true
  unfolding pick_id
  pick_id_err c s e h = ground (arith, laws.next_guid_foreign s e)

  pub put_foreign :
      (b : Bool) (l : Lock) (s : Store) (e : Error)
      → (put sql b l s).0 ≡ err e
      → is_foreign e ≡ true
  unfolding put
  put_foreign true l s e h = laws.insert_foreign _ s e h
  put_foreign false l s e h = laws.update_foreign _ _ s e h

  pub table-put :
      (r : Resource) (l : Lock) (b : Bool) (s s₁ : Store)
      → l.resource ≡ get_resource r
      → rows s₁ ≡ rows s
      → b ≡ is_none (find_row r.key (rows s))
      → (put sql b l s₁).0 ≡ ok tt
      → (k : String)
      → table (put sql b l s₁).1 k ≡ (if r.key == k then some (stored l) else table s k)
  unfolding put
  table-put r l true s s₁ e same there h k = table-insert r l s s₁ e same h k
  table-put r l false s s₁ e same there h k = table-update r l s s₁ e same (sym there) h k
