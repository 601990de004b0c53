-- ===== src/Handler/Hours.antt =====
-- The weekly rules and the dated overrides of a user: internal/handler/availability.go and override.go.
-- Ids stand as numbers, texts of times as their bytes, and dates as the days that `time.Parse` reads them
-- as. A handler answers with its table after it and what it replies. What uid.New gives is an argument.
use district_scheduler.Common.{
  ℕ, ◌+◌, ◌-◌, ◌*◌, Bool, true, false, not, ◌&&◌, ◌||◌, Option, none, some, List, [], ◌∷◌, ◌++◌,
  ltb, leb, ◌==◌, if◌then◌else◌, any, select,
}
use district_scheduler.Slots.WallClock.{is_digit}

abbrev pub Text : Type 0
Text = List ℕ

-- `s >= t` is `not (text_lt s t)`: Go compares strings byte by byte.
unfoldable pub text_lt : Text → Text → Bool
text_lt s [] = false
text_lt [] (d ∷ t) = true
text_lt (c ∷ s) (d ∷ t) = let rest = text_lt s t in if c == d then rest else ltb c d

unfoldable pub text_eq : Text → Text → Bool
text_eq [] [] = true
text_eq [] (d ∷ t) = false
text_eq (c ∷ s) [] = false
text_eq (c ∷ s) (d ∷ t) = c == d && text_eq s t

abbrev pub two_digits_value : ℕ → ℕ → ℕ
two_digits_value a b = (a - b'0') * 10 + (b - b'0')

unfoldable pub valid_hhmm : Text → Bool
valid_hhmm (a ∷ b ∷ c ∷ d ∷ e ∷ []) =
    c == b':'
    && (is_digit a
        && (is_digit b
            && (is_digit d
                && (is_digit e
                    && (leb (two_digits_value a b) 23 && leb (two_digits_value d e) 59)))))
valid_hhmm text = false

pub data Refusal : Type 0 where
  bad_request not_found conflict internal_error : Refusal

pub data Reply : Type 0 where
  done : Reply
  refused : Refusal → Reply

-- Rules

-- A row of `availability_rules`, and an `availRuleJSON` with the user whose it is.
pub record Rule : Type 0 where
  pub id : ℕ
  pub user_id : ℕ
  pub event_type_id : Option ℕ
  pub day_of_week : ℕ
  pub start_time : Text
  pub end_time : Text

-- `req.DayOfWeek`, an `int` that may be negative.
pub data Day : Type 0 where
  negative : Day
  day : ℕ → Day

pub record RuleRequest : Type 0 where
  pub event_type_id : Option ℕ
  pub day_of_week : Day
  pub start_time : Text
  pub end_time : Text

abbrev pub is_day_of_week : Day → Bool
is_day_of_week negative = false
is_day_of_week (day n) = leb n 6

abbrev pub number_of : Day → ℕ
number_of negative = 0
number_of (day n) = n

abbrev pub is_empty_text : Text → Bool
is_empty_text [] = true
is_empty_text (c ∷ t) = false

-- Two rows collide in `UNIQUE (user_id, event_type_id, …)` only where both have an event type: a null is
-- distinct from every value.
abbrev pub same_event_type : Option ℕ → Option ℕ → Bool
same_event_type (some a) (some b) = a == b
same_event_type _ _ = false

abbrev pub same_rule : Rule → Rule → Bool
same_rule r s =
    r.user_id == s.user_id
    && (same_event_type r.event_type_id s.event_type_id
        && (r.day_of_week == s.day_of_week
            && (text_eq r.start_time s.start_time && text_eq r.end_time s.end_time)))

-- The body that is not JSON is `none`.
unfoldable pub create_rule : ℕ → ℕ → Option RuleRequest → List Rule → List Rule × Reply
unfolding text_eq
create_rule user uid none rules = (rules, refused bad_request)
create_rule user uid (some req) rules =
    if is_empty_text req.start_time || is_empty_text req.end_time
    then (rules, refused bad_request)
    else if not (is_day_of_week req.day_of_week)
    then (rules, refused bad_request)
    else (let row : Rule = record {
      id = uid;
      user_id = user;
      event_type_id = req.event_type_id;
      day_of_week = number_of req.day_of_week;
      start_time = req.start_time;
      end_time = req.end_time;
    } in
        if any (λ r. r.id == uid || same_rule row r) rules
        then (rules, refused conflict)
        else (rules ++ row ∷ [], done))

pub record RulePatch : Type 0 where
  pub day_of_week : Option Day
  pub start_time : Option Text
  pub end_time : Option Text

abbrev pub day_given : Option Day → Bool
day_given none = true
day_given (some d) = is_day_of_week d

abbrev pub new_day : Option Day → ℕ → ℕ
new_day none n = n
new_day (some d) n = number_of d

abbrev pub new_text : Option Text → Text → Text
new_text none t = t
new_text (some s) t = s

abbrev pub patched : RulePatch → Rule → Rule
patched req r = record r {
  day_of_week = new_day req.day_of_week r.day_of_week;
  start_time = new_text req.start_time r.start_time;
  end_time = new_text req.end_time r.end_time;
}

unfoldable pub find_rule : ℕ → ℕ → List Rule → Option Rule
find_rule id user [] = none
find_rule id user (r ∷ rs) =
    let rest = find_rule id user rs in if r.id == id && r.user_id == user then some r else rest

-- `UPDATE availability_rules SET … WHERE id = ? AND user_id = ?`
unfoldable pub write_rule : ℕ → ℕ → Rule → List Rule → List Rule
write_rule id user row [] = []
write_rule id user row (r ∷ rs) =
    (if r.id == id && r.user_id == user then row else r) ∷ write_rule id user row rs

abbrev pub check_patched : ℕ → ℕ → Rule → List Rule → List Rule × Reply
check_patched id user row rules =
    if not (valid_hhmm row.start_time) || not (valid_hhmm row.end_time)
    then (rules, refused bad_request)
    else if not (text_lt row.start_time row.end_time)
    then (rules, refused bad_request)
    else if any (λ r. not (r.id == id) && same_rule row r) rules
    then (rules, refused conflict)
    else (write_rule id user row rules, done)

unfoldable pub update_rule : ℕ → ℕ → Option RulePatch → List Rule → List Rule × Reply
unfolding valid_hhmm text_lt text_eq find_rule write_rule
update_rule user id none rules = (rules, refused bad_request)
update_rule user id (some req) rules =
    if not (day_given req.day_of_week)
    then (rules, refused bad_request)
    else (elim (find_rule id user rules) [
      | none ↦ (rules, refused not_found)
      | some current ↦ check_patched id user (patched req current) rules
    ])

-- `DELETE FROM availability_rules WHERE id = ? AND user_id = ?`
unfoldable pub delete_rule : ℕ → ℕ → List Rule → List Rule × Reply
delete_rule user id rules =
    if any (λ r. r.id == id && r.user_id == user) rules
    then (select (λ r. not (r.id == id && r.user_id == user)) rules, done)
    else (rules, refused not_found)
