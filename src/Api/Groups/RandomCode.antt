-- ===== src/Api/Groups/RandomCode.antt =====
-- GenerateRandomString of internal/utils/misc.go. `rand.Intn` is a parameter: the number that it gives in
-- each round.
use Prim.Native.String.{String, [], ◌∷◌}
use Prim.Native.Char.{Char, code}
use runner_io.Common.{
  ℕ, zero, suc, ◌+◌, ◌<◌, ◌≡◌, refl, ap, sym, ◌∙◌, Bool, true, ◌&&◌, ◌==◌, ltb, if◌then◌else◌,
  Option, none, some, ◌>>=◌, arith,
}

abbrev pub letter_bytes : String
letter_bytes = "abcdefghijklmnopqrstuvwxyzABCDEFGHIJKLMNOPQRSTUVWXYZ"

-- `none` is the panic on an index out of range.
abbrev pub byte_at : String → ℕ → Option Char
byte_at [] i = none
byte_at (c ∷ s) zero = some c
byte_at (c ∷ s) (suc i) = byte_at s i

-- The rounds from `round` on.
unfoldable pub generate_from : (ℕ → ℕ) → ℕ → ℕ → Option String
generate_from intn round zero = some ""
generate_from intn round (suc n) = byte_at letter_bytes (intn round) >>= λ c.
    generate_from intn (suc round) n >>= λ rest. some (c ∷ rest)

unfoldable pub generate_random_string : (ℕ → ℕ) → ℕ → Option String
unfolding generate_from
generate_random_string intn length = generate_from intn 0 length

abbrev length_of : String → ℕ
length_of [] = 0
length_of (c ∷ s) = suc (length_of s)

text_same : {a b : String} → ◌≡◌ {A = Option String} (some a) (some b) → a ≡ b
text_same e = cc

parts_same : {c d : Char} {a b : String} → ◌≡◌ {A = String} (c ∷ a) (d ∷ b) → (c ≡ d) × (a ≡ b)
parts_same e = (cc, cc)

-- The number of a letter's character.
abbrev letter_code : ℕ → ℕ
letter_code i = if ltb i 26 then 97 + i else 39 + i

abbrev has_codes : ℕ → String → Bool
has_codes i [] = true
has_codes i (c ∷ s) = let rest = has_codes (suc i) s in (code c == letter_code i) && rest

letter_bytes-codes : has_codes 0 letter_bytes ≡ true
letter_bytes-codes = refl

some_same : {c d : Char} → ◌≡◌ {A = Option Char} (some c) (some d) → c ≡ d
some_same e = cc

has_codes-first :
    (i : ℕ) (c : Char) (s : String)
    → has_codes i (c ∷ s) ≡ true
    → (code c ≡ letter_code i) × (has_codes (suc i) s ≡ true)
has_codes-first i c s all = (ground (arith, all), ground (arith, all))

byte_at-code :
    (s : String) (i j : ℕ) (c : Char)
    → has_codes i s ≡ true
    → byte_at s j ≡ some c
    → code c ≡ letter_code (i + j)
byte_at-code [] i j c all found = cc
byte_at-code (d ∷ s) i zero c all found =
    ap code (sym (some_same found)) ∙ (has_codes-first i d s all).0 ∙ ap letter_code (omega arith)
byte_at-code (d ∷ s) i (suc j) c all found =
    byte_at-code s (suc i) j c ((has_codes-first i d s all).1) found ∙ ap letter_code (omega arith)

letter_code-injective : (i j : ℕ) → i < 52 → j < 52 → letter_code i ≡ letter_code j → i ≡ j
letter_code-injective i j below below' same = ground (arith, same)

-- Two rounds with the same letter have the same number.
byte_at-injective :
    (i j : ℕ) (c : Char)
    → i < 52
    → j < 52
    → byte_at letter_bytes i ≡ some c
    → byte_at letter_bytes j ≡ some c
    → i ≡ j
byte_at-injective i j c below below' found found' =
    let one = byte_at-code letter_bytes 0 i c letter_bytes-codes found in
    let two = byte_at-code letter_bytes 0 j c letter_bytes-codes found' in
    letter_code-injective i j below below'
      (ap letter_code (omega arith) ∙ sym one ∙ two ∙ ap letter_code (omega arith))

byte_at-found : (s : String) (i : ℕ) → i < length_of s → (c : Char) × (byte_at s i ≡ some c)
byte_at-found [] i below = elim below [ ]
byte_at-found (c ∷ s) zero below = (c, refl)
byte_at-found (c ∷ s) (suc i) below = byte_at-found s i (omega (arith, below))

next_letter :
    (o : Option Char) (rest : Option String) (text : String)
    → (o >>= λ c. rest >>= λ r. some (c ∷ r)) ≡ some text
    → (c : Char) × (r : String) × (o ≡ some c) × (rest ≡ some r) × (text ≡ c ∷ r)
next_letter none rest text e = cc
next_letter (some c) none text e = cc
next_letter (some c) (some r) text e = (c, r, refl, refl, sym (text_same e))

module _ (intn : ℕ → ℕ) (below : (i : ℕ) → intn i < 52) where
  generate_from-some : (round n : ℕ) → (text : String) × (generate_from intn round n ≡ some text)
  unfolding generate_from
  generate_from-some round zero = ("", refl)
  generate_from-some round (suc n) =
      let (c, found) = byte_at-found letter_bytes (intn round) (below round) in
      let (rest, more) = generate_from-some (suc round) n in (c ∷ rest, rw (found, more) refl)

  generate_from-injective :
      (intn' : ℕ → ℕ)
      → ((i : ℕ) → intn' i < 52)
      → (round n i : ℕ) (text : String) → i < n
      → generate_from intn round n ≡ some text
      → generate_from intn' round n ≡ some text
      → intn (round + i) ≡ intn' (round + i)
  unfolding generate_from
  generate_from-injective intn' below' round zero i text lt one two = elim lt [ ]
  generate_from-injective intn' below' round (suc n) zero text lt one two =
      let (c, r, at, rest, same) = next_letter _ _ text one in
      let (c', r', at', rest', same') = next_letter _ _ text two in
      let letter = (parts_same (sym same ∙ same')).0 in
      ap intn (omega arith)
      ∙ byte_at-injective (intn round) (intn' round) c (below round) (below' round) at
          (at' ∙ ap some (sym letter))
      ∙ ap intn' (omega arith)
  generate_from-injective intn' below' round (suc n) (suc i) text lt one two =
      let (c, r, at, rest, same) = next_letter _ _ text one in
      let (c', r', at', rest', same') = next_letter _ _ text two in
      let others = (parts_same (sym same ∙ same')).1 in
      ap intn (omega arith)
      ∙ generate_from-injective intn' below' (suc round) n i r (omega (arith, lt)) rest
          (rest' ∙ ap some (sym others))
      ∙ ap intn' (omega arith)

  -- Where `rand.Intn` gives numbers below 52: two runs that give the same result, be it a code or a
  -- panic, got the same numbers in each round.
  pub generate_random_string-injective :
      (intn' : ℕ → ℕ)
      → ((i : ℕ) → intn' i < 52)
      → (length i : ℕ) → i < length
      → generate_random_string intn length ≡ generate_random_string intn' length
      → intn i ≡ intn' i
  unfolding generate_random_string
  generate_random_string-injective intn' below' length i lt same =
      let (text, made) = generate_from-some 0 length in
      ap intn (omega arith)
      ∙ generate_from-injective intn' below' 0 length i text lt made (sym same ∙ made)
      ∙ ap intn' (omega arith)
