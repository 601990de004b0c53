-- ===== src/Db/Tests.antt =====
-- Runs of internal/db/rebind.go on a small query.
use district_scheduler.Common.{ℕ, ◌≡◌, refl, List, [], ◌∷◌}
use district_scheduler.Db.Rebind.{rebind}
use district_scheduler.Db.Rebind.Reference.{plain, numbered, rebind-numbered}

-- `?'?'?`
abbrev query : List ℕ
query = b'?' ∷ b'\'' ∷ b'?' ∷ b'\'' ∷ b'?' ∷ []

rebind-query : rebind query ≡ b'$' ∷ b'1' ∷ b'\'' ∷ b'?' ∷ b'\'' ∷ b'$' ∷ b'2' ∷ []
unfolding rebind
rebind-query = refl

rebind-numbered_example : rebind query ≡ numbered plain 0 query
rebind-numbered_example = rebind-numbered query
