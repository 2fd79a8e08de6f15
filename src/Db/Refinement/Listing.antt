-- ===== src/Db/Refinement/Listing.antt =====
-- `FetchAll` of db/lock_db.go, and the rows that `Count` counts.
use mathlib.Core.Option
use locket.Prelude.{
  String, ◌≡◌, ◌≢◌, ◌⊎◌, ◌↔◌, refl, sym, ◌∙◌, subst, Bool, true, Option, none, List, [], ◌∷◌, ◌++◌,
  ◌==◌, inl, inr, Result, ok, err, arith, Result-cases, Bool-cases, error_of, filter, Has, eq_iff,
}
use locket.Models.{Error}
use locket.Sql.{
  SqlHelper, IsSqlHelper, Row, has_type, counts, Transacted, committed, rolled_back, refused,
  Attempted, first, again,
}
use locket.Db.{Lock, lock_of_row, scan_locks, type_clause, fetch_all, fetch_all_tx}
use locket.Db.Contract.{Table}
use locket.Db.Refinement.Table

-- The rows that `Count` counts: of the type, if one is asked for, and with an owner.
abbrev pub listed : String → List Row → List Row
listed type = filter (counts "" (type_clause type))

-- A row of the table that a listing is for: with an owner, and of the type, if one is asked for.
pub record IsListed (type : String) (rows : List Row) (l : Lock) : Type 0 where
  pub row : Row
  pub at : Has row rows
  pub lock : l ≡ lock_of_row row
  pub owned : row.owner ≢ ""
  pub typed : (type ≡ "") ⊎ (row.type ≡ type)

-- A row with an owner that was scanned.
abbrev Owned : List (Result Error Row) → Lock → Type 0
Owned items l = (r : Row) × Has (ok r) items × (r.owner ≢ "") × (l ≡ lock_of_row r)

Has-append_last : {A : Type 0} (a x : A) (xs : List A) → Has a (xs ++ x ∷ []) → Has a xs ⊎ (a ≡ x)
Has-append_last a x [] (inl e) = inr e
Has-append_last a x [] (inr h) = absurd h
Has-append_last a x (y ∷ xs) (inl e) = inl (inl e)
Has-append_last a x (y ∷ xs) (inr h) = elim (Has-append_last a x xs h) [
  | inl k ↦ inl (inr k)
  | inr e ↦ inr e
]

append_last-Has : {A : Type 0} (a x : A) (xs : List A) → Has a xs ⊎ (a ≡ x) → Has a (xs ++ x ∷ [])
append_last-Has a x [] (inl h) = absurd h
append_last-Has a x [] (inr e) = inl e
append_last-Has a x (y ∷ xs) (inl (inl e)) = inl e
append_last-Has a x (y ∷ xs) (inl (inr h)) = inr (append_last-Has a x xs (inl h))
append_last-Has a x (y ∷ xs) (inr e) = inr (append_last-Has a x xs (inr e))

Has-filter :
    {A : Type 0} (p : A → Bool) (a : A) (xs : List A)
    → Has a (filter p xs)
    → Has a xs × (p a ≡ true)
Has-filter p a [] h = absurd h
Has-filter p a (x ∷ xs) h = elim (Bool-cases (p x)) [
  | inl y ↦ elim (rw y at h) [
    | inl e ↦ (inl e, rw e y)
    | inr k ↦ (inr (Has-filter p a xs k).0, (Has-filter p a xs k).1)
  ]
  | inr n ↦
      let k : Has a (filter p xs) = rw n at h in
      (inr (Has-filter p a xs k).0, (Has-filter p a xs k).1)
]

filter-Has :
    {A : Type 0} (p : A → Bool) (a : A) (xs : List A) → Has a xs → p a ≡ true → Has a (filter p xs)
filter-Has p a [] h y = absurd h
filter-Has p a (x ∷ xs) (inl e) y = rw (← e, y) (inl refl)
filter-Has p a (x ∷ xs) (inr h) y = elim (Bool-cases (p x)) [
  | inl z ↦ rw z (inr (filter-Has p a xs h y))
  | inr n ↦ rw n (filter-Has p a xs h y)
]

has_type_iff :
    (type : String) (r : Row)
    → (has_type (type_clause type) r ≡ true) ↔ ((type ≡ "") ⊎ (r.type ≡ type))
has_type_iff type r = elim (Bool-cases (type == "")) [
  | inl e ↦ rw e ((λ _. inl ((eq_iff type "").0 e)), (λ _. refl))
  | inr n ↦ rw n (
    (λ h. inr ((eq_iff r.type type).0 h)),
    (λ t. ground (arith, n, t, eq_iff type "", eq_iff r.type type)),
  )
]

scan_locks-Owned :
    (locks : List Lock) (items : List (Result Error Row)) (l : Lock)
    → Has l (scan_locks locks items)
    → Has l locks ⊎ Owned items l
unfolding scan_locks
scan_locks-Owned locks [] l h = inl h
scan_locks-Owned locks (err e ∷ items) l h = elim (scan_locks-Owned locks items l h) [
  | inl k ↦ inl k
  | inr (r, at, o, k) ↦ inr (r, inr at, o, k)
]
scan_locks-Owned locks (ok r ∷ items) l h = elim (Bool-cases (r.owner == "")) [
  | inl e ↦ elim (scan_locks-Owned locks items l (rw e at h)) [
    | inl k ↦ inl k
    | inr (r', at, o, k) ↦ inr (r', inr at, o, k)
  ]
  | inr n ↦ elim (scan_locks-Owned (locks ++ lock_of_row r ∷ []) items l (rw n at h)) [
    | inl k ↦ elim (Has-append_last l (lock_of_row r) locks k) [
      | inl k ↦ inl k
      | inr e ↦ inr (r, inl refl, (λ p. ground (arith, n, p, eq_iff r.owner "")), e)
    ]
    | inr (r', at, o, k) ↦ inr (r', inr at, o, k)
  ]
]

scan_locks_keeps :
    (locks : List Lock) (items : List (Result Error Row)) (l : Lock)
    → Has l locks
    → Has l (scan_locks locks items)
unfolding scan_locks
scan_locks_keeps locks [] l h = h
scan_locks_keeps locks (err e ∷ items) l h = scan_locks_keeps locks items l h
scan_locks_keeps locks (ok r ∷ items) l h = elim (Bool-cases (r.owner == "")) [
  | inl e ↦ rw e (scan_locks_keeps locks items l h)
  | inr n ↦ rw n (
      scan_locks_keeps (locks ++ lock_of_row r ∷ []) items l
        (append_last-Has l (lock_of_row r) locks (inl h)))
]

scan_locks_finds :
    (locks : List Lock) (items : List (Result Error Row)) (l : Lock) (row : Row)
    → Has (ok row) items
    → row.owner ≢ ""
    → l ≡ lock_of_row row
    → Has l (scan_locks locks items)
unfolding scan_locks
scan_locks_finds locks [] l row h o e = absurd h
scan_locks_finds locks (err x ∷ items) l row (inl h) o e = absurd (cc)
scan_locks_finds locks (err x ∷ items) l row (inr h) o e = scan_locks_finds locks items l row h o e
scan_locks_finds locks (ok r ∷ items) l row h o e = elim (Bool-cases (r.owner == "")) [
  | inl empty ↦ rw empty (elim h [
    | inl same ↦ let q : row ≡ r = (cc) in absurd (o (rw q ((eq_iff r.owner "").0 empty)))
    | inr h ↦ scan_locks_finds locks items l row h o e
  ])
  | inr n ↦ rw n (elim h [
    | inl same ↦
        let q : row ≡ r = (cc) in
        scan_locks_keeps (locks ++ lock_of_row r ∷ []) items l
          (append_last-Has l (lock_of_row r) locks (inr (rw (← q) e)))
    | inr h ↦ scan_locks_finds (locks ++ lock_of_row r ∷ []) items l row h o e
  ])
]

module _ (sql : SqlHelper) (laws : IsSqlHelper sql) where
  open sql use {Store}
  open laws use {rows}

  abbrev table : Store → Table
  table = Table.table sql laws

  -- No row fails to scan, and no iteration ends early.
  abbrev pub ReadsAll : Type 0
  ReadsAll =
      (type : Option String) (s : Store) (items : List (Result Error Row)) (r : Row)
      → (sql.all type s).0 ≡ ok items
      → Has r (filter (has_type type) (rows s))
      → Has (ok r) items

  fetch_all_tx_ok :
      (type : String) (locks : List Lock) (s : Store)
      → (fetch_all_tx sql type (locks, s)).0 ≡ ok tt
      → (items : List (Result Error Row)) × ((sql.all (type_clause type) s).0 ≡ ok items)
        × ((fetch_all_tx sql type (locks, s)).1.0 ≡ scan_locks locks items)
        × (rows (fetch_all_tx sql type (locks, s)).1.1 ≡ rows s)
  unfolding fetch_all_tx
  fetch_all_tx_ok type locks s h = elim (Result-cases (sql.all (type_clause type) s).0) [
    | inl (items, x) ↦
        (items, x, ground (arith, x), ground (arith, x, laws.rows-all (type_clause type) s))
    | inr (e, x) ↦ absurd (ground (arith, x, h))
  ]

  abbrev AllListed : String → Store → List Lock → Type 0
  AllListed type s locks = (l : Lock) → Has l locks → IsListed type (rows s) l

  -- An attempt, whatever it comes to, adds nothing but what may be listed.
  fetch_all_tx-AllListed :
      (type : String) (locks : List Lock) (s₁ s : Store)
      → rows s₁ ≡ rows s
      → AllListed type s locks
      → AllListed type s (fetch_all_tx sql type (locks, s₁)).1.0
  unfolding fetch_all_tx
  fetch_all_tx-AllListed type locks s₁ s same h l k =
      elim (Result-cases (sql.all (type_clause type) s₁).0) [
        | inl (items, x) ↦
            let e : (fetch_all_tx sql type (locks, s₁)).1.0 ≡ scan_locks locks items =
              ground (arith, x) in
            elim (scan_locks-Owned locks items l (subst (Has l) e k)) [
              | inl old ↦ h l old
              | inr (r, at, owned, e) ↦
                  let (there, t) =
                    Has-filter (has_type (type_clause type)) r (rows s₁)
                      (laws.all_rows (type_clause type) s₁ items x r at) in
                  record {
                    row = r;
                    at = subst (Has r) same there;
                    lock = e;
                    owned = owned;
                    typed = (has_type_iff type r).0 t;
                  }
            ]
        | inr (y, x) ↦
            let e : (fetch_all_tx sql type (locks, s₁)).1.0 ≡ locks = ground (arith, x) in
            h l (subst (Has l) e k)
      ]

  Attempted-AllListed :
      (type : String) (s : Store) (c₀ : List Lock)
      → Attempted rows (fetch_all_tx sql type) [] s c₀
      → AllListed type s c₀
  Attempted-AllListed type s c₀ (first _ e) l h = absurd (rw e at h)
  Attempted-AllListed type s c₀ (again _ c₁ s₁ a same e) l h =
      fetch_all_tx-AllListed type c₁ s₁ s same (Attempted-AllListed type s c₁ a) l
        (subst (Has l) e h)

  pub table-fetch_all :
      (type : String) (s : Store) (k : String) → table (fetch_all sql type s).2 k ≡ table s k
  unfolding fetch_all
  table-fetch_all type s k = go (laws.transact_Transacted (fetch_all_tx sql type) [] s)
    where
      t : Result Error (Unit {0}) × (List Lock × Store)
      t = sql.transact (fetch_all_tx sql type) ([], s)

      go : Transacted rows (fetch_all_tx sql type) [] s t.0 t.1.0 t.1.1 → table t.1.1 k ≡ table s k
      go (committed c₀ s₀ _ same run _ _ kept) =
          let (_, _, _, reads) = fetch_all_tx_ok type c₀ s₀ run in
          Table.table-rows sql laws t.1.1 s k (kept ∙ reads ∙ same)
      go (rolled_back _ _ _ _ _ _ _ kept) = Table.table-rows sql laws t.1.1 s k kept
      go (refused _ _ _ kept) = Table.table-rows sql laws t.1.1 s k kept

  -- Over a SQL database that keeps its laws, and where every row can be scanned and every iteration
  -- reaches its end: a FetchAll that returns no error lists a lock exactly if it is that of a row of the
  -- table that has an owner and the type asked for, or any type for the empty text; also after attempts
  -- of the transaction that failed, which may have listed some of these locks already.
  pub fetch_all_lists :
      (type : String) (s : Store) (l : Lock)
      → ReadsAll
      → (fetch_all sql type s).1 ≡ none
      → Has l (fetch_all sql type s).0 ↔ IsListed type (rows s) l
  unfolding fetch_all
  fetch_all_lists type s l whole h = go (laws.transact_Transacted (fetch_all_tx sql type) [] s) h
    where
      t : Result Error (Unit {0}) × (List Lock × Store)
      t = sql.transact (fetch_all_tx sql type) ([], s)

      go :
          Transacted rows (fetch_all_tx sql type) [] s t.0 t.1.0 t.1.1
          → Option.map sql.convert_sql_error (error_of t.0) ≡ none
          → Has l t.1.0 ↔ IsListed type (rows s) l
      go (committed c₀ s₀ a same run _ captured _) _ =
          let (items, x, locks, _) = fetch_all_tx_ok type c₀ s₀ run in
          (
            (λ k.
                fetch_all_tx-AllListed type c₀ s₀ s same (Attempted-AllListed type s c₀ a) l
                  (subst (Has l) captured k)),
            (λ k. subst (Has l) (sym (captured ∙ locks)) (
                scan_locks_finds c₀ items l k.row
                  (whole (type_clause type) s₀ items k.row x (
                    filter-Has (has_type (type_clause type)) k.row (rows s₀)
                      (subst (Has k.row) (sym same) k.at) ((has_type_iff type k.row).1 k.typed)))
                  k.owned k.lock)),
          )
      go (rolled_back _ _ e _ _ _ res _) none_err = absurd (ground (arith, res, none_err))
      go (refused e _ res _) none_err = absurd (ground (arith, res, none_err))
