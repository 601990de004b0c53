-- ===== src/Handler/Overrides/Coherent.antt =====
-- What the handlers of internal/handler/override.go keep of the overrides: each row is in order, and the rows
-- of a date agree.
use district_scheduler.Common.{
  ℕ, ◌≡◌, sym, ◌∙◌, ◌⊎◌, inl, inr, Bool, true, false, not, ◌&&◌, ◌||◌, Option, none, some, List, [],
  ◌∷◌, ◌++◌, arith, ◌==◌, if◌then◌else◌, Bool-cases, select, In, In-append, In-select,
}
use district_scheduler.Handler.Hours.{Text}
use district_scheduler.Handler.Overrides.{is_custom, Override, same_day, proper_times}
use district_scheduler.Handler.Overrides.Change.{write_override}

-- Two rows of a user on one date are both custom hours, or one and the same block.
abbrev pub agree : Override → Override → Bool
agree r s =
    not (same_day r.user_id r.date s)
    || (if r.is_available then s.is_available else not s.is_available && r.id == s.id)

abbrev pub no_text : Option Text → Bool
no_text none = true
no_text (some t) = false

-- Custom hours have valid times in order; a block has none.
abbrev pub in_order : Override → Bool
in_order r =
    if r.is_available
    then is_custom r.reason && proper_times r.start_time r.end_time
    else not (is_custom r.reason) && (no_text r.start_time && no_text r.end_time)

pub record IsCoherent (rows : List Override) : Type 0 where
  pub key : (r s : Override) → In r rows → In s rows → r.id ≡ s.id → r ≡ s
  pub agreed : (r s : Override) → In r rows → In s rows → agree r s ≡ true
  pub ordered : (r : Override) → In r rows → in_order r ≡ true

pub empty-IsCoherent : IsCoherent []
empty-IsCoherent = record {
  key = λ r s i. elim i [ ];
  agreed = λ r s i. elim i [ ];
  ordered = λ r i. elim i [ ];
}

pub select-IsCoherent :
    (p : Override → Bool) (rows : List Override) → IsCoherent rows → IsCoherent (select p rows)
select-IsCoherent p rows c = record {
  key = λ r s i j. c.key r s (In-select p r rows i).0 (In-select p s rows j).0;
  agreed = λ r s i j. c.agreed r s (In-select p r rows i).0 (In-select p s rows j).0;
  ordered = λ r i. c.ordered r (In-select p r rows i).0;
}

In-snoc :
    (r row : Override) (rows : List Override) → In r (rows ++ row ∷ []) → In r rows ⊎ (r ≡ row)
In-snoc r row rows i = elim (In-append r rows (row ∷ []) i) [
  | inl old ↦ inl old
  | inr (inl e) ↦ inr e
  | inr (inr h) ↦ elim h [ ]
]

module _ (row : Override) (rows : List Override) (c : IsCoherent rows) where
  pub append-IsCoherent :
      ((r : Override) → In r rows → not (r.id == row.id) && agree row r ≡ true)
      → in_order row ≡ true
      → IsCoherent (rows ++ row ∷ [])
  append-IsCoherent new o = record {
    key = λ r s i j e. elim (In-snoc r row rows i) [
      | inl old ↦ elim (In-snoc s row rows j) [
        | inl also ↦ c.key r s old also e
        | inr here ↦ absurd (ground (arith, new r old))
      ]
      | inr here ↦ elim (In-snoc s row rows j) [
        | inl also ↦ absurd (ground (arith, new s also))
        | inr there ↦ here ∙ sym there
      ]
    ];
    agreed = λ r s i j. elim (In-snoc r row rows i) [
      | inl old ↦ elim (In-snoc s row rows j) [
        | inl also ↦ c.agreed r s old also
        | inr here ↦ rw here (ground (arith, new r old))
      ]
      | inr here ↦ elim (In-snoc s row rows j) [
        | inl also ↦ rw here (ground (arith, new s also))
        | inr there ↦ rw (here, there) (ground arith)
      ]
    ];
    ordered =
        λ r i. elim (In-snoc r row rows i) [ inl old ↦ c.ordered r old | inr here ↦ rw here o ];
  }

In-write_override :
    (id user : ℕ) (row r : Override) (rows : List Override)
    → In r (write_override id user row rows)
    → (r ≡ row) ⊎ (In r rows × (r.id == id && r.user_id == user ≡ false))
unfolding write_override
In-write_override id user row r [] i = elim i [ ]
In-write_override id user row r (s ∷ rows) (inl e) =
    elim (Bool-cases (s.id == id && s.user_id == user)) [
      | inl h ↦ inl (ground arith)
      | inr h ↦ inr (inl (ground arith), ground arith)
    ]
In-write_override id user row r (s ∷ rows) (inr i) = elim (In-write_override id user row r rows i) [
  | inl e ↦ inl e
  | inr (j, h) ↦ inr (inr j, h)
]

-- Rewriting the row of an id: the others must agree with what it becomes.
module _ (rows : List Override) (c : IsCoherent rows) (current row : Override)
    (there : In current rows) (same_id : row.id ≡ current.id) where
  others :
      (r : Override)
      → In r (write_override current.id current.user_id row rows)
      → (r ≡ row) ⊎ (In r rows × ((r.id == current.id) ≡ false))
  others r i = elim (In-write_override current.id current.user_id row r rows i) [
    | inl e ↦ inl e
    | inr (j, h) ↦ inr (
      j,
      elim (Bool-cases (r.id == current.id)) [
        | inl e ↦ let same = c.key r current j there (ground arith) in absurd (ground arith)
        | inr e ↦ e
      ],
    )
  ]

  pub write-IsCoherent :
      ((r : Override) → In r rows → (r.id == current.id) ≡ false → agree row r ≡ true)
      → in_order row ≡ true
      → IsCoherent (write_override current.id current.user_id row rows)
  write-IsCoherent new o = record {
    key = λ r s i j e. elim (others r i) [
      | inl here ↦ elim (others s j) [
        | inl also ↦ here ∙ sym also
        | inr (also, differs) ↦ absurd (ground arith)
      ]
      | inr (old, differs) ↦ elim (others s j) [
        | inl here ↦ absurd (ground arith)
        | inr (also, _) ↦ c.key r s old also e
      ]
    ];
    agreed = λ r s i j. elim (others r i) [
      | inl here ↦ elim (others s j) [
        | inl also ↦ rw (here, also) (ground arith)
        | inr (also, differs) ↦ rw here (new s also differs)
      ]
      | inr (old, differs) ↦ elim (others s j) [
        | inl here ↦ rw here (ground (arith, new r old differs))
        | inr (also, _) ↦ c.agreed r s old also
      ]
    ];
    ordered = λ r i. elim (others r i) [ inl here ↦ rw here o | inr (old, _) ↦ c.ordered r old ];
  }
