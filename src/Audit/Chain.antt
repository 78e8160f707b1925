-- ===== src/Audit/Chain.antt =====
-- The hash chain over the audit rows, newest first.
use nbes_backend.Base.{◌≡◌, List, [], ◌∷◌}
use nbes_backend.Env.{Env}
use nbes_backend.Audit.{AuditEvent, head_hash}

-- Every row is sealed to the row before it.
abbrev pub IsChained : Env → List AuditEvent → Type 0
IsChained env [] = Unit
IsChained env (e ∷ es) = (e.chain_hash ≡ env.seal (head_hash es) e.payload) × IsChained env es

-- `new` is `old` with rows put on top.
pub data Extends (old : List AuditEvent) : List AuditEvent → Type 0 where
  same : Extends old old
  more : {new : List AuditEvent} (e : AuditEvent) → Extends old new → Extends old (e ∷ new)
