-- ===== src/Phone/Laws.antt =====
-- What normalising a phone number gives (backend/app/services/phone_normalize.py).
use watesly.Base.{
  ℕ, zero, suc, Bool, true, false, not, ◌&&◌, ◌||◌, ◌≡◌, refl, ◌∙◌, List, [], ◌∷◌, ◌++◌, select,
  All, All-select, is_empty, length, drop, leb, arith, ◌==◌, if◌then◌else◌, Bool-cases, inl, inr,
  ◌≤◌,
}
use watesly.Phone.{
  default_country_code, zero_digit, starts_with, strip_zeros, eq_text, international,
  add_country_code, localize, or_default, normalize_whatsapp_phone,
}

starts_with-append : (xs ys : List ℕ) → starts_with xs (xs ++ ys) ≡ true
starts_with-append [] ys = refl
starts_with-append (x ∷ xs) ys = ground (arith, starts_with-append xs ys)

eq_text_refl : (xs : List ℕ) → eq_text xs xs ≡ true
eq_text_refl [] = refl
eq_text_refl (x ∷ xs) = ground (arith, eq_text_refl xs)

module _ (is_digit : ℕ → Bool) where
  -- Every code point is a digit.
  abbrev pub IsDigits : List ℕ → Type 0
  IsDigits = All (λ c. is_digit c ≡ true)

  append-IsDigits : (xs ys : List ℕ) → IsDigits xs → IsDigits ys → IsDigits (xs ++ ys)
  append-IsDigits [] ys h k = k
  append-IsDigits (x ∷ xs) ys h k = (h.0, append-IsDigits xs ys h.1 k)

  strip_zeros-IsDigits : (xs : List ℕ) → IsDigits xs → IsDigits (strip_zeros xs)
  strip_zeros-IsDigits [] h = tt
  strip_zeros-IsDigits (x ∷ xs) h = elim (Bool-cases (x == zero_digit)) [
    | inl zeros ↦ rw zeros (strip_zeros-IsDigits xs h.1)
    | inr other ↦ rw other h
  ]

  drop-IsDigits : (n : ℕ) (xs : List ℕ) → IsDigits xs → IsDigits (drop n xs)
  drop-IsDigits zero xs h = h
  drop-IsDigits (suc n) [] h = tt
  drop-IsDigits (suc n) (x ∷ xs) h = drop-IsDigits n xs h.1

  if-IsDigits :
      (b : Bool) (xs ys : List ℕ) → IsDigits xs → IsDigits ys → IsDigits (if b then xs else ys)
  if-IsDigits true xs ys h k = h
  if-IsDigits false xs ys h k = k

  select-IsDigits_eq : (xs : List ℕ) → IsDigits xs → select is_digit xs ≡ xs
  select-IsDigits_eq [] h = refl
  select-IsDigits_eq (x ∷ xs) h = rw (h.0, select-IsDigits_eq xs h.1)

  international-IsDigits : (xs : List ℕ) → IsDigits xs → IsDigits (international xs)
  unfolding international
  international-IsDigits xs h =
      if-IsDigits (starts_with (zero_digit ∷ zero_digit ∷ []) xs) (drop 2 xs) xs
        (drop-IsDigits 2 xs h) h

  add_country_code-IsDigits :
      (cc xs : List ℕ) → IsDigits cc → IsDigits xs → IsDigits (add_country_code cc xs)
  unfolding add_country_code
  add_country_code-IsDigits cc xs c h =
      if-IsDigits (is_empty (strip_zeros xs)) xs (cc ++ strip_zeros xs) h
        (append-IsDigits cc (strip_zeros xs) c (strip_zeros-IsDigits xs h))

  localize-IsDigits : (cc xs : List ℕ) → IsDigits cc → IsDigits xs → IsDigits (localize cc xs)
  unfolding localize
  localize-IsDigits cc xs c h =
      if-IsDigits (starts_with (zero_digit ∷ []) xs && eq_text cc default_country_code)
        (cc ++ drop 1 xs)
        (if not (starts_with cc xs) && leb (length xs) 11 then add_country_code cc xs else xs)
        (append-IsDigits cc (drop 1 xs) c (drop-IsDigits 1 xs h))
        (if-IsDigits (not (starts_with cc xs) && leb (length xs) 11) (add_country_code cc xs) xs
          (add_country_code-IsDigits cc xs c h) h)

  module _ (ascii : IsDigits default_country_code) where
    or_default-IsDigits : (cc : List ℕ) → IsDigits cc → IsDigits (or_default cc)
    or_default-IsDigits [] h = ascii
    or_default-IsDigits (c ∷ cs) h = h

    -- A normalised address consists of digits, whatever the text and the country code are.
    pub normalize_whatsapp_phone-IsDigits :
        (value cc : List ℕ) → IsDigits (normalize_whatsapp_phone is_digit value cc)
    unfolding normalize_whatsapp_phone
    normalize_whatsapp_phone-IsDigits value cc =
        if-IsDigits (is_empty (select is_digit value)) []
          (localize (or_default (select is_digit cc)) (international (select is_digit value))) tt
          (localize-IsDigits (or_default (select is_digit cc))
            (international (select is_digit value))
            (or_default-IsDigits (select is_digit cc) (All-select is_digit cc))
            (international-IsDigits (select is_digit value) (All-select is_digit value)))

    -- The normalised address of a value with the digits `ds` under the country code 965.
    kuwait :
        (value ds : List ℕ)
        → select is_digit value ≡ ds
        → normalize_whatsapp_phone is_digit value default_country_code
          ≡ (if is_empty ds then [] else localize default_country_code (international ds))
    unfolding normalize_whatsapp_phone
    kuwait value ds e = rw (e, select-IsDigits_eq default_country_code ascii)

    -- Empty, or not led by a zero and long or led by the country code.
    is_normal : List ℕ → Bool
    is_normal [] = true
    is_normal (x ∷ xs) =
        not (x == zero_digit)
        && (starts_with default_country_code (x ∷ xs) || not (leb (length (x ∷ xs)) 11))

    localize-is_normal : (ds : List ℕ) → is_normal (localize default_country_code ds) ≡ true
    unfolding is_normal localize add_country_code
    localize-is_normal [] = refl
    localize-is_normal (d ∷ ds) = ground arith

    is_normal_fixed :
        (ds : List ℕ)
        → is_normal ds ≡ true
        → (if is_empty ds then [] else localize default_country_code (international ds)) ≡ ds
    unfolding is_normal international localize
    is_normal_fixed [] n = refl
    is_normal_fixed (d ∷ []) n = ground arith
    is_normal_fixed (d ∷ e ∷ ds) n = ground arith

    normalize-is_normal :
        (value : List ℕ)
        → is_normal (normalize_whatsapp_phone is_digit value default_country_code) ≡ true
    normalize-is_normal value =
        rw (kuwait value (select is_digit value) refl)
          (elim (Bool-cases (is_empty (select is_digit value))) [
            | inl no_digit ↦ rw no_digit (unfold is_normal in refl)
            | inr digits ↦ rw digits (localize-is_normal (international (select is_digit value)))
          ])

    -- Under the default country code, normalising twice is normalising once.
    pub normalize_whatsapp_phone_idem :
        (value : List ℕ)
        → let once = normalize_whatsapp_phone is_digit value default_country_code in
          normalize_whatsapp_phone is_digit once default_country_code ≡ once
    normalize_whatsapp_phone_idem value =
        let once = normalize_whatsapp_phone is_digit value default_country_code in
        kuwait once once
          (select-IsDigits_eq once (normalize_whatsapp_phone-IsDigits value default_country_code))
        ∙ is_normal_fixed once (normalize-is_normal value)

    -- Under the default country code 965, a number of at most eleven digits that starts neither with
    -- 0 nor with 965 has one normalised address, whether it is written alone, behind the trunk
    -- prefix 0, behind the country code, or behind 00 and the country code, and whatever other
    -- characters stand between the digits.
    pub spellings_agree :
        (d : ℕ) (ds local trunk full prefixed : List ℕ)
        → (d == zero_digit) ≡ false
        → length (d ∷ ds) ≤ 11
        → starts_with default_country_code (d ∷ ds) ≡ false
        → select is_digit local ≡ d ∷ ds
        → select is_digit trunk ≡ zero_digit ∷ d ∷ ds
        → select is_digit full ≡ default_country_code ++ d ∷ ds
        → select is_digit prefixed ≡ zero_digit ∷ zero_digit ∷ (default_country_code ++ d ∷ ds)
        → let normal = λ (v : List ℕ). normalize_whatsapp_phone is_digit v default_country_code in
          (normal local ≡ default_country_code ++ d ∷ ds)
          × (normal trunk ≡ default_country_code ++ d ∷ ds)
          × (normal full ≡ default_country_code ++ d ∷ ds)
          × (normal prefixed ≡ default_country_code ++ d ∷ ds)
    unfolding international localize add_country_code
    spellings_agree d ds local trunk full prefixed nonzero short foreign l t f p = (
      kuwait local _ l ∙ ground arith,
      kuwait trunk _ t ∙ ground arith,
      kuwait full _ f,
      kuwait prefixed _ p,
    )

    -- A value whose only digit is 0 is normalised to the bare country code, which is not empty.
    pub normalize_zero :
        (value : List ℕ)
        → select is_digit value ≡ zero_digit ∷ []
        → normalize_whatsapp_phone is_digit value default_country_code ≡ default_country_code
    unfolding international localize
    normalize_zero value e = kuwait value _ e
