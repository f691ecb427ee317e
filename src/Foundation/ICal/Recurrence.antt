-- ===== src/Foundation/ICal/Recurrence.antt =====
-- `JoinByDay`, which the recurrence rules are built from.
use server_components.Common.Int.{ℤ, pos, negsuc}
use server_components.Common.{
  ℕ, ◌≡◌, refl, ◌∙◌, sym, false, none, some, List, [], ◌∷◌, ◌++◌, append-nil, append_assoc, arith,
  Bytes, bytes, is_empty, inl, inr, Option-cases,
}
use server_components.Foundation.ICal.{day_name, join_by_day_from}

-- The names of the days that are weekdays, in the order of the input.
unfoldable pub weekdays : List ℤ → List Bytes
weekdays [] = []
weekdays (negsuc d ∷ days) = weekdays days
weekdays (pos d ∷ days) =
    let more = weekdays days in elim (day_name d) [ none ↦ more | some name ↦ name ∷ more ]

abbrev with_commas : List Bytes → Bytes
with_commas [] = []
with_commas (name ∷ names) = bytes "," ++ (name ++ with_commas names)

unfoldable pub comma_separated : List Bytes → Bytes
comma_separated [] = []
comma_separated (name ∷ names) = name ++ with_commas names

day_name-ne-nil : (d : ℕ) (name : Bytes) → day_name d ≡ some name → is_empty name ≡ false
unfolding day_name
day_name-ne-nil d name e = ground arith

weekdays-negsuc : (d : ℕ) (days : List ℤ) → weekdays (negsuc d ∷ days) ≡ weekdays days
unfolding weekdays
weekdays-negsuc d days = refl

weekdays-none :
    (d : ℕ) (days : List ℤ) → day_name d ≡ none → weekdays (pos d ∷ days) ≡ weekdays days
unfolding weekdays
weekdays-none d days e = cc

weekdays-some :
    (d : ℕ) (name : Bytes) (days : List ℤ)
    → day_name d ≡ some name
    → weekdays (pos d ∷ days) ≡ name ∷ weekdays days
unfolding weekdays
weekdays-some d name days e = cc

join_by_day_from-start :
    (out : Bytes) (days : List ℤ)
    → is_empty out ≡ false
    → join_by_day_from out days ≡ out ++ with_commas (weekdays days)
unfolding join_by_day_from
join_by_day_from-start out [] h = unfold weekdays in sym (append-nil out)
join_by_day_from-start out (negsuc d ∷ days) h =
    rw (weekdays-negsuc d days) (join_by_day_from-start out days h)
join_by_day_from-start out (pos d ∷ days) h = elim (Option-cases (day_name d)) [
  | inl e ↦ rw (weekdays-none d days e, e) (join_by_day_from-start out days h)
  | inr (name, e) ↦
      rw (weekdays-some d name days e, e, h)
        (join_by_day_from-start ((out ++ bytes ",") ++ name) days (longer out name h)
          ∙ append_assoc (out ++ bytes ",") name (with_commas (weekdays days))
          ∙ append_assoc out (bytes ",") (name ++ with_commas (weekdays days)))
]
  where
    longer : (o name : Bytes) → is_empty o ≡ false → is_empty ((o ++ bytes ",") ++ name) ≡ false
    longer [] name h = cc
    longer (c ∷ o) name h = refl

-- The days are listed by name in the order of the input, with a comma between two of them; numbers that
-- are no weekday are left out, and a day that is given twice is listed twice.
pub join_by_day_lem : (days : List ℤ) → join_by_day_from [] days ≡ comma_separated (weekdays days)
unfolding join_by_day_from comma_separated
join_by_day_lem [] = unfold weekdays comma_separated in refl
join_by_day_lem (negsuc d ∷ days) = rw (weekdays-negsuc d days) (join_by_day_lem days)
join_by_day_lem (pos d ∷ days) = elim (Option-cases (day_name d)) [
  | inl e ↦ rw (weekdays-none d days e, e) (join_by_day_lem days)
  | inr (name, e) ↦
      rw (weekdays-some d name days e, e)
        (join_by_day_from-start name days (day_name-ne-nil d name e))
]
