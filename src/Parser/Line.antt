-- ===== src/Parser/Line.antt =====
-- `validLineRegex` of internal/parser/adstxt.go as a relation between a line and its submatches.
pub mod Steps
pub mod Decides
use Prim.Native.String.{String}
use perion_assignment.Common.{◌≡◌, ◌⊎◌, ◌≢◌, true, [], ◌∷◌, ◌++◌, all}
use perion_assignment.Text.{Text, codes}
use perion_assignment.Parser.{Matches, is_re_space, is_field_char}

-- `\s*` and `[^,\s]+`.
abbrev pub IsSpaces : Text → Type 0
IsSpaces s = all is_re_space s ≡ true

abbrev pub IsField : Text → Type 0
IsField s = (s ≢ []) × (all is_field_char s ≡ true)

-- `(DIRECT|RESELLER|direct|reseller)`.
abbrev pub IsAccount : Text → Type 0
IsAccount s =
    (s ≡ codes "DIRECT") ⊎ (s ≡ codes "RESELLER") ⊎ (s ≡ codes "direct") ⊎ (s ≡ codes "reseller")

-- `(?:,\s*([^,\s]+))?\s*`, with the fourth group.
abbrev pub IsTail : Text → Text → Type 0
IsTail authority s =
    ((authority ≡ []) × IsSpaces s)
    ⊎ ((before after : Text) × IsSpaces before
        × IsSpaces after
        × IsField authority
        × (s ≡ b',' ∷ before ++ (authority ++ after)))

-- `^([^,\s]+),\s*([^,\s]+),\s*(DIRECT|RESELLER|direct|reseller)(?:,\s*([^,\s]+))?\s*$`.
pub record IsMatch (line : Text) (m : Matches) : Type 0 where
  pub gap : Text
  pub gap' : Text
  pub tail : Text
  pub form :
      line ≡ m.exchange ++ (b',' ∷ gap ++ (m.publisher ++ (b',' ∷ gap' ++ (m.account ++ tail))))
  pub gap_spaces : IsSpaces gap
  pub gap'_spaces : IsSpaces gap'
  pub exchange_field : IsField m.exchange
  pub publisher_field : IsField m.publisher
  pub account_known : IsAccount m.account
  pub tail_form : IsTail m.authority tail
