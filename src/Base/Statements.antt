-- ===== src/Base/Statements.antt =====
-- What becomes of a statement that a database accepts.
use mathlib.Core.Path.{◌≡◌}
use mathlib.Core.Bool.{Bool, true, false}

-- It is executed; it is not executed and the caller has an error; or it is executed and the caller has
-- an error, the reply being lost.
pub data Fate : Type 0 where
  executed : Fate
  not_executed : Fate
  reply_lost : Fate

-- The tables after the statement, and whether the caller has no error.
abbrev pub exec : {T : Type 0} → Fate → T → T → T × Bool
exec executed before after = (after, true)
exec not_executed before after = (before, false)
exec reply_lost before after = (after, false)

-- A statement without an error is executed.
pub exec-true : {T : Type 0} (f : Fate) (t t' after : T) → exec f t t' ≡ (after, true) → after ≡ t'
exec-true executed t t' after h = cc
exec-true not_executed t t' after h = cc
exec-true reply_lost t t' after h = cc
