-- ===== src/Consul/Session/Create.antt =====
-- What creating a session leaves in consul.
use locket.Prelude.{
  String, ◌≡◌, ◌≢◌, refl, Bool, true, false, ◌&&◌, ◌||◌, Option, none, some, List, [], ◌∷◌, ◌==◌,
  if◌then◌else◌, ok, arith, Result-cases, inl, inr, Exec,
}
use locket.Prelude.Int64.{ℤ}
use locket.Consul.Session.{
  ConsulClient, SessionEntry, find_sessions, create_entry, destroy_all, Session, recreate,
  new_session,
}

-- A session as consul holds it: its name, and the node that it was made on.
pub record Held : Type 0 where
  pub name : String
  pub node : String

-- The list has an entry of this id and name.
abbrev pub lists : List SessionEntry → String → String → Bool
lists [] id name = false
lists (e ∷ entries) id name = (e.id == id && e.name == name) || lists entries id name

abbrev pub is_held_as : Option Held → String → String → Bool
is_held_as none name node = false
is_held_as (some h) name node = h.name == name && h.node == node

module _ (client : ConsulClient) where
  open client use {Store, node_name, node, destroy, create, create_no_checks}

  -- What the consul API documents of these calls.
  pub record IsConsul : Type 0 where
    -- the sessions that consul holds, by their ids
    pub sessions : Store → String → Option Held
    -- the name of the agent's node
    pub agent : String
    pub node_name_agent : (s : Store) (n : String) → (node_name s).0 ≡ ok n → n ≡ agent
    pub sessions-node_name : (s : Store) (id : String) → sessions (node_name s).1 id ≡ sessions s id
    pub node_lists :
        (n : String) (s : Store) (entries : List SessionEntry) (id name : String)
        → (node n s).0 ≡ ok entries
        → lists entries id name ≡ is_held_as (sessions s id) name n
    pub sessions-node :
        (n : String) (s : Store) (id : String) → sessions (node n s).1 id ≡ sessions s id
    pub sessions-destroy :
        (gone : String) (s : Store) (id : String)
        → (destroy gone s).0 ≡ ok tt
        → sessions (destroy gone s).1 id ≡ (if gone == id then none else sessions s id)
    pub sessions-create :
        (se : SessionEntry) (s : Store) (made id : String)
        → (create se s).0 ≡ ok made
        → sessions (create se s).1 id
          ≡ (if made == id then some (record { name = se.name; node = agent }) else sessions s id)
    pub sessions-create_no_checks :
        (se : SessionEntry) (s : Store) (made id : String)
        → (create_no_checks se s).0 ≡ ok made
        → sessions (create_no_checks se s).1 id
          ≡ (if made == id then some (record { name = se.name; node = agent }) else sessions s id)
    pub create_nonempty :
        (se : SessionEntry) (s : Store) (made : String) → (create se s).0 ≡ ok made → made ≢ ""
    pub create_no_checks_nonempty :
        (se : SessionEntry) (s : Store) (made : String)
        → (create_no_checks se s).0 ≡ ok made
        → made ≢ ""

module _ (client : ConsulClient) (laws : IsConsul client) where
  open client use {Store, node_name, node}
  open laws use {sessions, agent}

  -- An entry of this id is among them.
  abbrev has_id : List SessionEntry → String → Bool
  has_id [] id = false
  has_id (e ∷ entries) id = e.id == id || has_id entries id

  sessions-destroy_all :
      (entries : List SessionEntry) (s : Store) (id : String)
      → (destroy_all client entries s).0 ≡ ok tt
      → sessions (destroy_all client entries s).1 id
        ≡ (if has_id entries id then none else sessions s id)
  unfolding destroy_all
  sessions-destroy_all [] s id h = refl
  sessions-destroy_all (e ∷ entries) s id h = elim (Result-cases (client.destroy e.id s).0) [
    | inl (tt, x) ↦ ground (
      arith,
      x,
      laws.sessions-destroy e.id s id,
      sessions-destroy_all entries (client.destroy e.id s).1 id,
    )
    | inr (x, y) ↦ absurd (ground (arith, y, h))
  ]

  has_id-find_sessions :
      (name : String) (entries : List SessionEntry) (id : String)
      → has_id (find_sessions name entries) id ≡ lists entries id name
  unfolding find_sessions
  has_id-find_sessions name [] id = refl
  has_id-find_sessions name (e ∷ entries) id = ground (arith, has_id-find_sessions name entries id)

  abbrev pub make : SessionEntry → Bool → Exec String Store String
  make se no_checks = if no_checks then client.create_no_checks se else client.create se

  made_session :
      (se : SessionEntry) (no_checks : Bool) (s : Store) (made id : String)
      → (make se no_checks s).0 ≡ ok made
      → sessions (make se no_checks s).1 id
        ≡ (if made == id then some (record { name = se.name; node = agent }) else sessions s id)
  made_session se true s made id h = laws.sessions-create_no_checks se s made id h
  made_session se false s made id h = laws.sessions-create se s made id h

  -- The listing and the clearing.
  cleared :
      (name : String) (n : String) (entries : List SessionEntry) (s : Store) (id : String)
      → (node n s).0 ≡ ok entries
      → (destroy_all client (find_sessions name entries) (node n s).1).0 ≡ ok tt
      → sessions (destroy_all client (find_sessions name entries) (node n s).1).1 id
        ≡ (if is_held_as (sessions s id) name n then none else sessions s id)
  cleared name n entries s id h k = simp (
    sessions-destroy_all (find_sessions name entries) (node n s).1 id k,
    has_id-find_sessions name entries id,
    laws.node_lists n s entries id name h,
    laws.sessions-node n s id,
  )

  pub make_nonempty :
      (se : SessionEntry) (no_checks : Bool) (s : Store) (made : String)
      → (make se no_checks s).0 ≡ ok made
      → made ≢ ""
  make_nonempty se true s made h = laws.create_no_checks_nonempty se s made h
  make_nonempty se false s made h = laws.create_nonempty se s made h

  -- The store on which `create` asks for the session.
  pub record Cleared (se : SessionEntry) (no_checks : Bool) (s : Store) (made : String)
      : Type 0 where
    pub last : Store
    pub makes : (make se no_checks last).0 ≡ ok made
    pub result : (create_entry client se no_checks s).1 ≡ (make se no_checks last).1
    pub held :
        (id : String)
        → sessions last id
          ≡ (if is_held_as (sessions s id) se.name agent then none else sessions s id)

  pub create_entry_ok :
      (se : SessionEntry) (no_checks : Bool) (s : Store) (made : String) (ttl : ℤ)
      → (create_entry client se no_checks s).0 ≡ ok (made, ttl)
      → Cleared se no_checks s made
  unfolding create_entry
  create_entry_ok se no_checks s made ttl h = elim (Result-cases (node_name s).0) [
    | inl (n, x) ↦ elim (Result-cases (node n s₁).0) [
      | inl (entries, y) ↦ elim (Result-cases (gone entries (node n s₁).1).0) [
        | inl (tt, z) ↦ record {
          last = (gone entries (node n s₁).1).1;
          makes = ground (arith, x, y, z, h);
          result = ground (arith, x, y, z, h);
          held = λ id. ground (
            arith,
            laws.node_name_agent s n,
            laws.sessions-node_name s id,
            cleared se.name n entries s₁ id,
          );
        }
        | inr (e, z) ↦ absurd (ground (arith, x, y, z, h))
      ]
      | inr (e, y) ↦ absurd (ground (arith, x, y, h))
    ]
    | inr (e, x) ↦ absurd (ground (arith, x, h))
  ]
    where
      s₁ : Store
      s₁ = (node_name s).1

      gone : List SessionEntry → Exec String Store (Unit {0})
      gone entries = destroy_all client (find_sessions se.name entries)

  -- Over a consul that keeps its documentation, a Recreate that returns a session returns one of the
  -- same name, TTL and kind that is not destroyed and has an id; consul holds that session, no other of
  -- its name on the agent's node, and of any other name or node what it held before.
  pub recreate_replaces :
      (old new : Session) (s : Store)
      → (recreate client old s).0 ≡ ok new
      → (new ≡ record (new_session old.name old.ttl old.no_checks) { id = new.id })
        × (new.id ≢ "")
        × ((id : String)
            → sessions (recreate client old s).1 id ≡ (
                if new.id == id
                then some (record { name = old.name; node = agent })
                else if is_held_as (sessions s id) old.name agent
                then none
                else sessions s id))
  unfolding recreate
  recreate_replaces old new s h = elim (Result-cases (create_entry client se old.no_checks s).0) [
    | inl ((made, ttl), x) ↦
        let c = create_entry_ok se old.no_checks s made ttl x in
        let same : new.id ≡ made = ground (arith, x, h) in
        (
          ground (arith, x, h),
          rw same (make_nonempty se old.no_checks c.last made c.makes),
          λ id. ground (
            arith,
            x,
            h,
            c.result,
            c.held id,
            made_session se old.no_checks c.last made id c.makes,
          ),
        )
    | inr (e, x) ↦ absurd (ground (arith, x, h))
  ]
    where
      se : SessionEntry
      se = record { id = ""; name = old.name; ttl = old.ttl }
