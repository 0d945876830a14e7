-- ===== src/RewriteHeader/Text.antt =====
-- The functions on text in src/rewrite_header.cxx. A `std::string` is the list of its character
-- codes.
use Prim.Native.Char.{code}
use Prim.Native.String.{String}
use ai_statefultask_testsuit.Base.{
  ℕ, zero, suc, ◌-◌, ◌≡◌, refl, Bool, true, false, ◌&&◌, ◌||◌, ltb, leb, ◌==◌, if◌then◌else◌, none,
  some, List, [], ◌∷◌, ◌++◌, length, get_elem?, arith, All, Bool-cases, inl, inr, ap, ◌⊎◌,
}

abbrev pub Text : Type 0
Text = List ℕ

abbrev pub codes : String → Text
codes String.[] = []
codes (String.◌∷◌ c s) = code c ∷ codes s

abbrev pub is_empty : Text → Bool
is_empty [] = true
is_empty (c ∷ cs) = false

-- The characters of `" \f\n\r\t\v"`.
abbrev pub is_space : ℕ → Bool
is_space c = c == 32 || (leb 9 c && leb c 13)

-- `find_last_not_of` for the characters that `test` picks, one more than the position; 0 stands
-- for `npos + 1`.
unfoldable pub end_of_last_not : (ℕ → Bool) → Text → ℕ
end_of_last_not test [] = 0
end_of_last_not test (c ∷ cs) =
    let rest = end_of_last_not test cs in if rest == 0 then (if test c then 0 else 1) else suc rest

-- `str.substr(0, n)`
abbrev pub take : ℕ → Text → Text
take zero cs = []
take (suc n) [] = []
take (suc n) (c ∷ cs) = c ∷ take n cs

unfoldable pub trim_right : Text → Text
trim_right str = take (end_of_last_not is_space str) str

abbrev pub char_at : Text → ℕ → ℕ
char_at str i = elim (get_elem? str i) [ none ↦ 0 | some c ↦ c ]

unfoldable pub is_c_comment_start : Text → Bool
is_c_comment_start str = ltb 1 (length str) && (char_at str 0 == b'/' && char_at str 1 == b'*')

unfoldable pub is_c_comment_end : Text → Bool
is_c_comment_end str =
    let sz = length str in
    ltb 1 sz && (char_at str (sz - 2) == b'*' && char_at str (sz - 1) == b'/')

unfoldable pub is_cpp_comment : Text → Bool
is_cpp_comment str = ltb 1 (length str) && (char_at str 0 == b'/' && char_at str 1 == b'/')

trim_right-is_empty : (cs : Text) → is_empty (trim_right cs) ≡ (end_of_last_not is_space cs == 0)
unfolding trim_right end_of_last_not
trim_right-is_empty [] = refl
trim_right-is_empty (c ∷ cs) = ground arith

trim_right-cons :
    (c : ℕ) (cs : Text)
    → trim_right (c ∷ cs)
      ≡ (if is_empty (trim_right cs) && is_space c then [] else c ∷ trim_right cs)
unfolding trim_right end_of_last_not
trim_right-cons c cs = elim (Bool-cases (end_of_last_not is_space cs == 0)) [
  | inl blank ↦
      let z : end_of_last_not is_space cs ≡ 0 = ground arith in
      rw (trim_right-is_empty cs, blank, z) (ground arith)
  | inr more ↦ rw (trim_right-is_empty cs, more) refl
]

-- The text ends in a character that is no white space.
abbrev pub EndsInk : Text → Type 0
EndsInk str = (init : Text) × (c : ℕ) × (str ≡ init ++ (c ∷ [])) × (is_space c ≡ false)

abbrev Trimmed : Text → Text → Type 0
Trimmed str r =
    ((tail : Text) × (str ≡ r ++ tail) × All (λ c. is_space c ≡ true) tail) × ((r ≡ []) ⊎ EndsInk r)

cons-EndsInk : (c : ℕ) (r : Text) → EndsInk r → EndsInk (c ∷ r)
cons-EndsInk c r (init, d, e, ink) = (c ∷ init, d, ap (λ r. c ∷ r) e, ink)

cons-Trimmed :
    (c : ℕ) (cs r : Text)
    → Trimmed cs r
    → Trimmed (c ∷ cs) (if is_empty r && is_space c then [] else c ∷ r)
cons-Trimmed c cs [] ((tail, e, blank), ends) = elim (Bool-cases (is_space c)) [
  | inl space ↦ rw space ((c ∷ cs, refl, (space, rw e blank)), inl refl)
  | inr ink ↦ rw ink ((tail, ap (λ r. c ∷ r) e, blank), inr ([], c, refl, ink))
]
cons-Trimmed c cs (d ∷ ds) ((tail, e, blank), inl absent) = absurd (ground arith)
cons-Trimmed c cs (d ∷ ds) ((tail, e, blank), inr ends) =
    ((tail, ap (λ r. c ∷ r) e, blank), inr (cons-EndsInk c (d ∷ ds) ends))

trim_right-nil : trim_right [] ≡ []
unfolding trim_right end_of_last_not
trim_right-nil = refl

-- `trim_right` takes white space off the end of a text, and all of it: what is left is empty or
-- ends in another character.
trim_right-Trimmed :
    (str : Text)
    → ((tail : Text) × (str ≡ trim_right str ++ tail) × All (λ c. is_space c ≡ true) tail)
      × ((trim_right str ≡ []) ⊎ EndsInk (trim_right str))
trim_right-Trimmed [] = rw trim_right-nil (([], refl, tt), inl refl)
trim_right-Trimmed (c ∷ cs) =
    rw (trim_right-cons c cs) (cons-Trimmed c cs (trim_right cs) (trim_right-Trimmed cs))
