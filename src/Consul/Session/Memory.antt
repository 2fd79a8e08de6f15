-- ===== src/Consul/Session/Memory.antt =====
-- A consul in memory, with one node: one that keeps the laws of `IsConsul`, on which examples run.
use locket.Prelude.{
  String, ◌≡◌, ◌≢◌, refl, true, false, Option, none, some, List, [], ◌∷◌, ◌==◌, if◌then◌else◌,
  Result, ok, Exec, arith, eq_iff,
}
use locket.Consul.Session.{ConsulClient, SessionEntry}
use locket.Consul.Session.Create.{Held, lists, is_held_as, IsConsul}

-- The sessions, of which the first of an id counts.
pub record Memory : Type 0 where
  pub entries : List SessionEntry

abbrev pub the_node : String
the_node = "cell"

abbrev pub find : String → List SessionEntry → Option Held
find id [] = none
find id (e ∷ entries) =
    let rest = find id entries in
    if e.id == id then some (record { name = e.name; node = the_node }) else rest

abbrev without : String → List SessionEntry → List SessionEntry
without id [] = []
without id (e ∷ entries) = let rest = without id entries in if e.id == id then rest else e ∷ rest

abbrev listing : List SessionEntry → List SessionEntry
listing [] = []
listing (e ∷ entries) = e ∷ without e.id (listing entries)

unfoldable pub node : String → Exec String Memory (List SessionEntry)
node n s = (ok (if n == the_node then listing s.entries else []), s)

unfoldable pub destroy : String → Exec String Memory (Unit {0})
destroy id s = (ok tt, record s { entries = without id s.entries })

unfoldable pub create : SessionEntry → Exec String Memory String
create se s = (ok "new", record s { entries = record se { id = "new" } ∷ s.entries })

abbrev pub memory : ConsulClient
memory = record {
  Store = Memory;
  node_name = λ s. (ok the_node, s);
  node = node;
  destroy = destroy;
  create = create;
  create_no_checks = create;
  lock = λ options s. (ok true, s);
}

lists-without :
    (gone : String) (entries : List SessionEntry) (id name : String)
    → lists (without gone entries) id name ≡ (if gone == id then false else lists entries id name)
lists-without gone [] id name = ground arith
lists-without gone (e ∷ entries) id name =
    ground
      (arith, lists-without gone entries id name, eq_iff e.id gone, eq_iff e.id id, eq_iff gone id)

lists-listing :
    (entries : List SessionEntry) (id name : String)
    → lists (listing entries) id name ≡ is_held_as (find id entries) name the_node
lists-listing [] id name = refl
lists-listing (e ∷ entries) id name = ground (
  arith,
  lists-without e.id (listing entries) id name,
  lists-listing entries id name,
  eq_iff e.id id,
  eq_iff the_node the_node,
)

no_other_node :
    (n id name : String) (entries : List SessionEntry)
    → (n == the_node) ≡ false
    → is_held_as (find id entries) name n ≡ false
no_other_node n id name [] h = refl
no_other_node n id name (e ∷ entries) h =
    ground (arith, no_other_node n id name entries h, eq_iff the_node n, eq_iff n the_node)

pub node_lists :
    (n : String) (s : Memory) (entries : List SessionEntry) (id name : String)
    → (node n s).0 ≡ ok entries
    → lists entries id name ≡ is_held_as (find id s.entries) name n
unfolding node
node_lists n s entries id name h =
    ground
      (arith, lists-listing s.entries id name, no_other_node n id name s.entries, eq_iff n the_node)

pub find-without :
    (gone : String) (entries : List SessionEntry) (id : String)
    → find id (without gone entries) ≡ (if gone == id then none else find id entries)
find-without gone [] id = ground arith
find-without gone (e ∷ entries) id =
    ground (arith, find-without gone entries id, eq_iff e.id gone, eq_iff e.id id, eq_iff gone id)

pub new_nonempty : (made : String) → ◌≡◌ {A = Result String String} (ok "new") (ok made) → made ≢ ""
new_nonempty made h = ground (arith, eq_iff "new" "", eq_iff made "")

pub the_only_node :
    (n : String) → ◌≡◌ {A = Result String String} (ok the_node) (ok n) → n ≡ the_node
the_only_node n h = ground arith

pub find-create :
    (se : SessionEntry) (s : Memory) (made id : String)
    → (create se s).0 ≡ ok made
    → find id (create se s).1.entries ≡ (
        if made == id then some (record { name = se.name; node = the_node }) else find id s.entries)
unfolding create
find-create se s made id h = ground arith

unfoldable pub memory-IsConsul : IsConsul memory
unfolding node destroy create
memory-IsConsul = record {
  sessions = λ s id. find id s.entries;
  agent = the_node;
  node_name_agent = λ s n h. the_only_node n h;
  sessions-node_name = λ s id. refl;
  node_lists = node_lists;
  sessions-node = λ n s id. refl;
  sessions-destroy = λ gone s id h. find-without gone s.entries id;
  sessions-create = find-create;
  sessions-create_no_checks = find-create;
  create_nonempty = λ se s made h. new_nonempty made h;
  create_no_checks_nonempty = λ se s made h. new_nonempty made h;
}
