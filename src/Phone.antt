-- ===== src/Phone.antt =====
-- WhatsApp addresses (backend/app/services/phone_normalize.py). A text is the list of its code
-- points. `\d` of Python's `re` is the parameter `is_digit`: it holds of the ASCII digits and of
-- the digits of other scripts.
pub mod Laws
mod Tests
use watesly.Base.{
  ℕ, Bool, true, false, not, ◌&&◌, List, [], ◌∷◌, ◌++◌, select, length, is_empty, drop, leb, ltb,
  ◌==◌, if◌then◌else◌,
}

-- "965"
abbrev pub default_country_code : List ℕ
default_country_code = b'9' ∷ b'6' ∷ b'5' ∷ []

abbrev zero_digit : ℕ
zero_digit = b'0'

abbrev pub starts_with : List ℕ → List ℕ → Bool
starts_with [] text = true
starts_with (p ∷ ps) [] = false
starts_with (p ∷ ps) (c ∷ cs) = p == c && starts_with ps cs

-- `text.lstrip("0")`
abbrev pub strip_zeros : List ℕ → List ℕ
strip_zeros [] = []
strip_zeros (c ∷ cs) = if c == zero_digit then strip_zeros cs else c ∷ cs

abbrev pub eq_text : List ℕ → List ℕ → Bool
eq_text [] [] = true
eq_text [] (c ∷ cs) = false
eq_text (c ∷ cs) [] = false
eq_text (c ∷ cs) (d ∷ ds) = c == d && eq_text cs ds

-- `digits[2:] if digits.startswith("00") else digits`
unfoldable pub international : List ℕ → List ℕ
international digits =
    if starts_with (zero_digit ∷ zero_digit ∷ []) digits then drop 2 digits else digits

-- The branch for a local number.
unfoldable pub add_country_code : List ℕ → List ℕ → List ℕ
add_country_code cc digits =
    if is_empty (strip_zeros digits) then digits else cc ++ strip_zeros digits

-- The two tests on the digits behind the international prefix.
unfoldable pub localize : List ℕ → List ℕ → List ℕ
localize cc digits =
    if starts_with (zero_digit ∷ []) digits && eq_text cc default_country_code
    then cc ++ drop 1 digits
    else if not (starts_with cc digits) && leb (length digits) 11
    then add_country_code cc digits
    else digits

abbrev or_default : List ℕ → List ℕ
or_default [] = default_country_code
or_default (c ∷ cs) = c ∷ cs

module _ (is_digit : ℕ → Bool) where
  unfoldable pub normalize_whatsapp_phone : List ℕ → List ℕ → List ℕ
  normalize_whatsapp_phone value country_code =
      let digits = select is_digit value in
      if is_empty digits
      then []
      else localize (or_default (select is_digit country_code)) (international digits)

  unfoldable pub phones_match : List ℕ → List ℕ → List ℕ → Bool
  phones_match left right country_code =
      let left_norm = normalize_whatsapp_phone left country_code in
      let right_norm = normalize_whatsapp_phone right country_code in
      if is_empty left_norm
      then false
      else if is_empty right_norm
      then false
      else eq_text left_norm right_norm
