-- ===== src/ClientInput/Search.antt =====
-- What `findField` finds in a line that gives each field once, and what `stoi` makes of digits.
use mathlib.Core.List.{append_assoc}
use spot_exchange.Prelude.{
  subst, ℕ, ◌^◌, ◌<◌, ◌≡◌, ◌≢◌, refl, ap, ◌∙◌, Bool, true, false, ◌&&◌, Option, none, some, [], ◌∷◌,
  ◌++◌, arith, ◌==◌, if◌then◌else◌, pos,
}
use spot_exchange.Prelude.Run.{ok}
use spot_exchange.ClientInput.{
  Str, codes, starts_with, find_str, after_char, word_after, find_field, value_behind, is_digit,
  decimal, stoi, signed_number, number,
}

-- The two texts differ at a position that both have.
abbrev pub clash : Str → Str → Bool
clash [] s = false
clash (d ∷ ds) [] = false
clash (d ∷ ds) (c ∷ cs) = if d == c then clash ds cs else true

-- The text does not start anywhere in `xs`, whatever follows.
abbrev pub all_clash : Str → Str → Bool
all_clash sub [] = true
all_clash sub (c ∷ cs) = clash sub (c ∷ cs) && all_clash sub cs

clash-starts : (sub xs ys : Str) → clash sub xs ≡ true → starts_with sub (xs ++ ys) ≡ false
clash-starts [] xs ys e = cc
clash-starts (d ∷ ds) [] ys e = cc
clash-starts (d ∷ ds) (c ∷ cs) ys e = ground (arith, clash-starts ds cs ys)

value-after_char : (c : ℕ) (r : Option (Str × Str)) → value_behind (after_char c r) ≡ value_behind r
value-after_char c none = refl
value-after_char c (some (before, s)) = refl

find_field-next :
    (field : Str) (c : ℕ) (cs : Str)
    → starts_with field (c ∷ cs) ≡ false
    → find_field field (c ∷ cs) ≡ find_field field cs
unfolding find_field find_str
find_field-next field c cs e = rw e (value-after_char c (find_str field cs))

both : (a b : Bool) → (a && b) ≡ true → (a ≡ true) × (b ≡ true)
both a b e = (ground arith, ground arith)

pub find_field-skip :
    (field xs ys : Str)
    → all_clash field xs ≡ true
    → find_field field (xs ++ ys) ≡ find_field field ys
find_field-skip field [] ys e = refl
find_field-skip field (c ∷ cs) ys e =
    let (here, there) = both (clash field (c ∷ cs)) (all_clash field cs) e in
    find_field-next field c (cs ++ ys) (clash-starts field (c ∷ cs) ys here)
    ∙ find_field-skip field cs ys there

-- No space and no dash.
abbrev pub Plain : Str → Type 0
Plain [] = Unit
Plain (c ∷ cs) = (c ≢ 32) × (c ≢ b'-') × Plain cs

pub Plain-clash : (sub xs : Str) → Plain xs → all_clash (b'-' ∷ sub) xs ≡ true
Plain-clash sub [] p = refl
Plain-clash sub (c ∷ cs) p =
    let differs : (b'-' == c) ≡ false = ground arith in rw (differs, Plain-clash sub cs p.2) refl

-- A value ends at the first space.
pub find_space :
    (xs ys : Str) → Plain xs → find_str (codes " ") (xs ++ 32 ∷ ys) ≡ some (xs, 32 ∷ ys)
unfolding find_str
find_space [] ys p = refl
find_space (c ∷ cs) ys p =
    let differs : (32 == c) ≡ false = ground arith in rw (differs, find_space cs ys p.2) refl

starts_with-append : (xs ys : Str) → starts_with xs (xs ++ ys) ≡ true
starts_with-append [] ys = refl
starts_with-append (x ∷ xs) ys = rw (starts_with-append xs ys) (ground arith)

module _ (c : ℕ) (name value rest : Str) (n : Plain name) (c_is : c ≢ 32) (v : Plain value) where
  abbrev whole : Str
  whole = c ∷ (name ++ 32 ∷ (value ++ 32 ∷ rest))

  whole-starts : starts_with (c ∷ (name ++ codes " ")) whole ≡ true
  whole-starts =
      subst (λ s. starts_with (c ∷ (name ++ codes " ")) (c ∷ s) ≡ true)
        (append_assoc name (codes " ") (value ++ 32 ∷ rest))
        (starts_with-append (c ∷ (name ++ codes " ")) (value ++ 32 ∷ rest))

  found : find_str (c ∷ (name ++ codes " ")) whole ≡ some ([], whole)
  unfolding find_str
  found = rw whole-starts refl

  first_space : find_str (codes " ") whole ≡ some (c ∷ name, 32 ∷ (value ++ 32 ∷ rest))
  unfolding find_str
  first_space =
      let differs : (32 == c) ≡ false = ground arith in
      rw (differs, find_space name (value ++ 32 ∷ rest) n) refl

  word : word_after whole ≡ some value
  word = rw (first_space, word_after, find_space value rest v) refl

  -- A field with its value in front.
  pub find_field-here : find_field (c ∷ (name ++ codes " ")) whole ≡ value
  unfolding find_field
  find_field-here = ap value_behind found ∙ rw (word, value_behind) refl

-- Digits and nothing else.
abbrev pub Digits : Str → Type 0
Digits [] = Unit
Digits (c ∷ cs) = (is_digit c ≡ true) × Digits cs

pub Digits-Plain : (cs : Str) → Digits cs → Plain cs
Digits-Plain [] d = tt
Digits-Plain (c ∷ cs) d = (ground arith, ground arith, Digits-Plain cs d.1)

-- `stoi` of the digits of an `int`.
pub stoi-Digits :
    (c : ℕ) (cs : Str)
    → Digits (c ∷ cs)
    → decimal 0 (c ∷ cs) < 2 ^ 31
    → stoi (c ∷ cs) ≡ ok (pos (decimal 0 (c ∷ cs)))
unfolding stoi signed_number number
stoi-Digits c cs d small = ground (arith, d.0, small)
