-- ===== src/Phone/Tests.antt =====
-- Runs of the phone number rules, with the ASCII digits.
use watesly.Base.{ℕ, ◌≡◌, refl, List, codes, arith}
use watesly.Fixtures.{ascii_digit}
use watesly.Phone.{
  add_country_code, international, localize, default_country_code, normalize_whatsapp_phone,
}
use watesly.Phone.Laws.{IsDigits, spellings_agree}

ascii_country : IsDigits ascii_digit default_country_code
ascii_country = (refl, (refl, (refl, tt)))

abbrev normal : List ℕ → List ℕ
normal value = normalize_whatsapp_phone ascii_digit value default_country_code

spellings_agree_example :
    (normal (codes "5550 1234") ≡ codes "96555501234")
    × (normal (codes "05550 1234") ≡ codes "96555501234")
    × (normal (codes "+965 5550 1234") ≡ codes "96555501234")
    × (normal (codes "00965 5550 1234") ≡ codes "96555501234")
spellings_agree_example =
    spellings_agree ascii_digit ascii_country 53 (codes "5501234") (codes "5550 1234")
      (codes "05550 1234") (codes "+965 5550 1234") (codes "00965 5550 1234") refl (omega arith)
      refl refl refl refl refl

-- A number of another country with a trunk prefix keeps the zero.
foreign_trunk :
    normalize_whatsapp_phone ascii_digit (codes "0501234567") (codes "966") ≡ codes "966501234567"
unfolding normalize_whatsapp_phone localize international add_country_code
foreign_trunk = refl
