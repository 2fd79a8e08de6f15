-- ===== src/Handlers/Releasing.antt =====
-- What a Release request does.
use locket.Prelude.{◌≡◌, ◌↔◌, none, panicked, arith}
use locket.Models.{ReleaseRequest}
use locket.Db.{LockDb}
use locket.Handlers.{Server, release}

-- A Release request panics exactly if it has no resource, whatever the database does.
pub release_panics_iff :
    {db : LockDb} (req : ReleaseRequest) (s : Server db)
    → (release req s ≡ panicked) ↔ (req.resource ≡ none)
unfolding release
release_panics_iff {db} req s = (λ h. ground arith, λ h. ground arith)
