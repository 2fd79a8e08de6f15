-- ===== src/Consul/Session/Acquire.antt =====
-- What AcquireLock and SetPresence answer, before they start their goroutine.
use locket.Prelude.{
  String, ◌≡◌, ◌≢◌, true, false, ◌⊎◌, inl, inr, ◌==◌, Result, ok, err, arith, eq_iff, Bool-cases,
  Result-cases, if◌then◌else◌, refl,
}
use locket.Consul.Session.{
  ConsulClient, SessionEntry, Session, SessionError, already_destroyed, create_session,
  create_entry, acquire_lock, set_presence, cancelled, consul, after_create, LockOptions,
  quot_int64, contains, invalid_session, convert_error,
}
use locket.Prelude.Int64.{pos}
use locket.Consul.Session.Create.{IsConsul, create_entry_ok, make_nonempty}

module _ (client : ConsulClient) (laws : IsConsul client) where
  open client use {Store}

  -- The session that createSession gives.
  pub record Created (s s' : Session) : Type 0 where
    pub live : s.destroyed ≡ false
    pub same : s' ≡ record s { id = s'.id }
    pub named : s'.id ≢ ""
    pub kept : s.id ≢ "" → s'.id ≡ s.id

  create_session_ok :
      (s s' : Session) (st : Store) → (create_session client s st).0 ≡ ok s' → Created s s'
  unfolding create_session
  create_session_ok s s' st h = elim (Bool-cases s.destroyed) [
    | inl gone ↦ absurd (ground (arith, gone, h))
    | inr live ↦ elim (Bool-cases (s.id == "")) [
      | inl empty ↦ elim (Result-cases (create_entry client se s.no_checks st).0) [
        | inl ((made, ttl), x) ↦
            let c = create_entry_ok client laws se s.no_checks st made ttl x in
            let n = make_nonempty client laws se s.no_checks c.last made c.makes in
            let e : s' ≡ record s { id = made } = ground (arith, live, empty, x, h) in
            record {
              live = live;
              same = ground (arith, e);
              named = rw e n;
              kept = λ k. absurd (k ((eq_iff s.id "").0 empty));
            }
        | inr (e, x) ↦ absurd (ground (arith, live, empty, x, h))
      ]
      | inr named ↦
          let e : s' ≡ s = ground (arith, live, named, h) in
          record {
            live = live;
            same = ground (arith, e);
            named = λ p. ground (arith, e, eq_iff s.id "");
            kept = λ _. ground (arith, e);
          }
    ]
  ]
    where
      se : SessionEntry
      se = record { id = ""; name = s.name; ttl = s.ttl }

  create_session_err :
      (s : Session) (st : Store) (e : SessionError)
      → (create_session client s st).0 ≡ err e
      → ((s.destroyed ≡ true) × (e ≡ already_destroyed) × ((create_session client s st).1 ≡ st))
        ⊎ ((s.destroyed ≡ false) × (e ≢ already_destroyed) × (s.id ≡ ""))
  unfolding create_session
  create_session_err s st e h = elim (Bool-cases s.destroyed) [
    | inl gone ↦ inl (gone, ground (arith, gone, h), ground (arith, gone))
    | inr live ↦
        inr (live, (λ p. ground (arith, live, h, p)), ground (arith, live, h, eq_iff s.id ""))
  ]

  -- What the call asks of consul for the lock: with the key, the value and the id of the session, and as
  -- many retries as its TTL has intervals of two seconds.
  abbrev pub request : String → String → Session → LockOptions
  request key value s = record {
    key = key;
    value = value;
    session = s.id;
    monitor_retries = quot_int64 s.ttl 2_000_000_000;
    monitor_retry_time = pos 2_000_000_000;
  }

  abbrev pub lock_error : String → SessionError
  lock_error text = if contains text "500 (Invalid session)" then invalid_session else consul text

  -- What a call has answered on the session `s` of a consul that was as `before`: it left the session
  -- `s'` and a consul as `after`. Where the session could be made, if it had to be, consul was asked for
  -- its lock next, and the answer is that of consul.
  pub data Answered (key value : String) (s : Session) (before : Store)
      (r : Result SessionError (Unit {0})) (s' : Session) (after : Store) : Type 0 where
    locked :
        Created s s'
        → (client.lock (request key value s') (create_session client s before).1).0 ≡ ok true
        → after ≡ (client.lock (request key value s') (create_session client s before).1).1
        → r ≡ ok tt
        → Answered key value s before r s' after
    given_up :
        Created s s'
        → (client.lock (request key value s') (create_session client s before).1).0 ≡ ok false
        → after ≡ (client.lock (request key value s') (create_session client s before).1).1
        → r ≡ err cancelled
        → Answered key value s before r s' after
    refused :
        (text : String)
        → Created s s'
        → (client.lock (request key value s') (create_session client s before).1).0 ≡ err text
        → after ≡ (client.lock (request key value s') (create_session client s before).1).1
        → r ≡ err (lock_error text)
        → Answered key value s before r s' after
    gone :
        s.destroyed ≡ true
        → s' ≡ s
        → after ≡ before
        → r ≡ err already_destroyed
        → Answered key value s before r s' after
    not_created :
        (e : SessionError)
        → s.destroyed ≡ false
        → s.id ≡ ""
        → s' ≡ s
        → e ≢ already_destroyed
        → r ≡ err e
        → Answered key value s before r s' after

  after_create-Answered :
      (key value : String) (s : Session) (st : Store)
      → let (r, (s', st')) = after_create client key value (create_session client s st) (s, st) in
        Answered key value s st r s' st'
  unfolding after_create convert_error
  after_create-Answered key value s st = elim (Result-cases (create_session client s st).0) [
    | inl (s', x) ↦
        let c = create_session_ok s s' st x in
        let asked = client.lock (request key value s') (create_session client s st).1 in
        elim (Result-cases asked.0) [
          | inl (true, y) ↦
              rw (x, after_create) (Answered.locked c y (ground (arith, y)) (ground (arith, y)))
          | inl (false, y) ↦
              rw (x, after_create) (Answered.given_up c y (ground (arith, y)) (ground (arith, y)))
          | inr (text, y) ↦
              rw (x, after_create)
                (Answered.refused text c y (ground (arith, y)) (ground (arith, y)))
        ]
    | inr (e, x) ↦ elim (create_session_err s st e x) [
      | inl (d, p, q) ↦ rw (x, after_create) (Answered.gone d refl q (rw p))
      | inr (d, p, empty) ↦ rw (x, after_create) (Answered.not_created e d empty refl p refl)
    ]
  ]

  -- Over a consul that keeps its documentation, AcquireLock, and SetPresence too. On a session that is
  -- destroyed it returns already-destroyed, and leaves the session and consul as they were. If the
  -- session has no id and none could be made, it returns an error other than that, and leaves the
  -- session as it was. Else the session has an id, the one it had or a new one, which it keeps whatever
  -- becomes of the lock, and consul is asked for the lock with that id as the last call: it returns nil
  -- exactly if consul grants the lock, cancelled if consul gives up without an error, and the error of
  -- consul otherwise, where that of an invalid session is invalid-session.
  pub acquire_lock_answers :
      (key value : String) (s : Session) (st : Store)
      → (let (r, (s', st')) = acquire_lock client key value (s, st) in
          Answered key value s st r s' st')
        × (let (r, (s', st')) = set_presence client key value (s, st) in
            Answered key value s st r s' st')
  unfolding acquire_lock set_presence
  acquire_lock_answers key value s st =
      (after_create-Answered key value s st, after_create-Answered key value s st)
