-- ===== src/Conf/PathName/Laws.antt =====
-- Which names `IsValidPathName` of internal/conf/path.go accepts.
use rtc_simple_server.Base.{
  ℕ, ◌≡◌, refl, sym, ap, subst, ◌≢◌, ◌↔◌, ◌⊎◌, inl, inr, true, ◌&&◌, none, List, [], ◌∷◌, ◌++◌,
  arith,
}
use rtc_simple_server.Conf.PathName.{is_name_char, all_name_chars, last_char, check_codes}

-- A name of one character of the class that is no slash, or one that begins and ends with such
-- characters and has characters of the class between them.
pub data IsName : List ℕ → Type 0 where
  single : (c : ℕ) → is_name_char c ≡ true → c ≢ b'/' → IsName (c ∷ [])
  several :
      (c d : ℕ) (cs : List ℕ)
      → is_name_char c ≡ true
      → c ≢ b'/'
      → all_name_chars cs ≡ true
      → is_name_char d ≡ true
      → d ≢ b'/'
      → IsName (c ∷ (cs ++ (d ∷ [])))

last_char-append : (c d : ℕ) (cs : List ℕ) → last_char c (cs ++ (d ∷ [])) ≡ d
unfolding last_char
last_char-append c d [] = refl
last_char-append c d (e ∷ cs) = last_char-append e d cs

all_name_chars-append :
    (d : ℕ) (cs : List ℕ) → all_name_chars (cs ++ (d ∷ [])) ≡ (all_name_chars cs && is_name_char d)
unfolding all_name_chars
all_name_chars-append d [] = ground arith
all_name_chars-append d (c ∷ cs) = ground (arith, all_name_chars-append d cs)

check_codes-several :
    (c d : ℕ) (cs : List ℕ)
    → (check_codes (c ∷ (cs ++ (d ∷ []))) ≡ none) ↔ (
        (is_name_char c ≡ true)
        × (c ≢ b'/')
        × (all_name_chars cs ≡ true)
        × (is_name_char d ≡ true)
        × (d ≢ b'/'))
unfolding check_codes all_name_chars
check_codes-several c d cs = ground (arith, last_char-append c d cs, all_name_chars-append d cs)

accepted_single : (c : ℕ) → (check_codes (c ∷ []) ≡ none) ↔ ((is_name_char c ≡ true) × (c ≢ b'/'))
unfolding check_codes all_name_chars last_char
accepted_single c = ground arith

-- A list is empty or ends with an element.
last_cases : (cs : List ℕ) → (cs ≡ []) ⊎ (front : List ℕ) × (d : ℕ) × (cs ≡ front ++ (d ∷ []))
last_cases [] = inl refl
last_cases (c ∷ cs) = elim (last_cases cs) [
  | inl e ↦ inr ([], c, ap (◌∷◌ c) e)
  | inr (front, d, e) ↦ inr (c ∷ front, d, ap (◌∷◌ c) e)
]

IsName-of_check : (cs : List ℕ) → check_codes cs ≡ none → IsName cs
unfolding check_codes
IsName-of_check [] h = absurd (ground (arith, h))
IsName-of_check (c ∷ cs) h = elim (last_cases cs) [
  | inl e ↦
      subst (λ x. check_codes (c ∷ x) ≡ none → IsName (c ∷ x)) (sym e)
        (λ k. let (i, n) = (accepted_single c).0 k in single c i n) h
  | inr (front, d, e) ↦
      subst (λ x. check_codes (c ∷ x) ≡ none → IsName (c ∷ x)) (sym e)
        (λ k.
          let (i, n, a, j, o) = (check_codes-several c d front).0 k in several c d front i n a j o)
        h
]

check_of_IsName : (cs : List ℕ) → IsName cs → check_codes cs ≡ none
check_of_IsName _ (single c i n) = (accepted_single c).1 (i, n)
check_of_IsName _ (several c d cs i n a j o) = (check_codes-several c d cs).1 (i, n, a, j, o)

-- The check of a name accepts just the names of characters of the class that neither begin nor end
-- with a slash, of one character at least.
pub check_codes_iff : (cs : List ℕ) → (check_codes cs ≡ none) ↔ IsName cs
check_codes_iff cs = (IsName-of_check cs, check_of_IsName cs)
