-- ===== src/Governance/Clock.antt =====
-- `time.Parse("15:04", s)`, and the window of hours of a custom policy in
-- rowset-core/internal/api/query.go.
use rowset_studio.Common.{
  ℕ, ◌+◌, ◌-◌, ◌*◌, Bool, false, not, ◌&&◌, ◌||◌, Option, none, some, [], ◌∷◌, Bytes, if◌then◌else◌,
  ltb, leb, ◌==◌, is_digit, cut, trim_space,
}

-- The hour has one digit or two, the minute has two.
unfoldable pub clock_fields : Bytes → Option (ℕ × Bytes)
clock_fields [] = none
clock_fields (a ∷ []) = if is_digit a then some (a - b'0', []) else none
clock_fields (a ∷ b ∷ rest) =
    if not (is_digit a)
    then none
    else if is_digit b
    then some ((a - b'0') * 10 + (b - b'0'), rest)
    else some (a - b'0', b ∷ rest)

clock_minute : ℕ → Bytes → Option (ℕ × ℕ)
clock_minute hour (colon ∷ a ∷ b ∷ []) =
    let minute = (a - b'0') * 10 + (b - b'0') in
    if colon == b':' && is_digit a && is_digit b && ltb hour 24 && ltb minute 60
    then some (hour, minute)
    else none
clock_minute hour rest = none

-- time.Parse with the layout 15:04: the hour and the minute.
unfoldable pub parse_clock : Bytes → Option (ℕ × ℕ)
unfolding clock_fields clock_minute
parse_clock s = elim (clock_fields s) [ none ↦ none | some (hour, rest) ↦ clock_minute hour rest ]

-- strings.Split at a dash, if that gives two parts.
unfoldable pub two_parts : Bytes → Option (Bytes × Bytes)
unfolding cut
two_parts config =
    let (start, behind, found) = cut config b'-' in
    let (end, more, again) = cut behind b'-' in
    if found && not again then some (start, end) else none

abbrev minutes : ℕ × ℕ → ℕ
minutes clock = clock.0 * 60 + clock.1

-- The minute of the day lies in the window, which may run over midnight.
unfoldable pub inside_window : ℕ → ℕ → ℕ → Bool
inside_window minute start end =
    if ltb end start then leb start minute || leb minute end else leb start minute && leb minute end

-- A config that is two times, and the minute of the day outside of them.
unfoldable pub outside_hours : ℕ → Bytes → Bool
unfolding two_parts parse_clock trim_space inside_window
outside_hours minute config = elim (two_parts config) [
  | none ↦ false
  | some (start, end) ↦ elim (parse_clock (trim_space start)) [
    | none ↦ false
    | some first ↦ elim (parse_clock (trim_space end)) [
      | none ↦ false
      | some last ↦ not (inside_window minute (minutes first) (minutes last))
    ]
  ]
]
