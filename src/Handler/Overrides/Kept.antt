-- ===== src/Handler/Overrides/Kept.antt =====
-- What requests to the handlers of internal/handler/override.go leave of the overrides.
use district_scheduler.Common.{ℕ, inl, inr, Bool, not, Option, List, [], ◌∷◌, Bool-cases, any}
use district_scheduler.Handler.Overrides.{Override, create_override, OverrideRequest}
use district_scheduler.Handler.Overrides.Change.{
  update_override, OverridePatch, delete_override, delete_group, delete_where,
}
use district_scheduler.Handler.Overrides.Coherent.{IsCoherent, select-IsCoherent}
use district_scheduler.Handler.Overrides.Created.{create_override-IsCoherent}
use district_scheduler.Handler.Overrides.Updated.{update_override-IsCoherent}

pub data Request : Type 0 where
  post : (ℕ → ℕ) → Option OverrideRequest → Request
  patch : ℕ → Option OverridePatch → Request
  clear_one clear_span : ℕ → Request

-- The rows after a request of the user.
abbrev pub serve : ℕ → Request → List Override → List Override
serve user (post uid body) rows = (create_override uid user body rows).0
serve user (patch id body) rows = (update_override user id body rows).0
serve user (clear_one id) rows = (delete_override user id rows).0
serve user (clear_span group) rows = (delete_group user group rows).0

unfoldable pub serve_all : List (ℕ × Request) → List Override → List Override
serve_all [] rows = rows
serve_all ((user, r) ∷ rs) rows = serve_all rs (serve user r rows)

delete_where-IsCoherent :
    (p : Override → Bool) (rows : List Override)
    → IsCoherent rows
    → IsCoherent (delete_where p rows).0
delete_where-IsCoherent p rows c = elim (Bool-cases (any p rows)) [
  | inl h ↦ rw h (select-IsCoherent (λ r. not (p r)) rows c)
  | inr h ↦ rw h c
]

serve-IsCoherent :
    (user : ℕ) (r : Request) (rows : List Override)
    → IsCoherent rows
    → IsCoherent (serve user r rows)
unfolding delete_override delete_group
serve-IsCoherent user (post uid body) rows c = create_override-IsCoherent user uid body rows c
serve-IsCoherent user (patch id body) rows c = update_override-IsCoherent user id body rows c
serve-IsCoherent user (clear_one id) rows c = delete_where-IsCoherent _ rows c
serve-IsCoherent user (clear_span group) rows c = delete_where-IsCoherent _ rows c

-- Requests that are served one after another keep the overrides coherent: no id is used twice; on a date of
-- a user there is either one block or only custom hours; and custom hours have valid times, the first
-- before the second.
pub serve_all-IsCoherent :
    (rs : List (ℕ × Request)) (rows : List Override)
    → IsCoherent rows
    → IsCoherent (serve_all rs rows)
unfolding serve_all
serve_all-IsCoherent [] rows c = c
serve_all-IsCoherent ((user, r) ∷ rs) rows c =
    serve_all-IsCoherent rs (serve user r rows) (serve-IsCoherent user r rows c)
