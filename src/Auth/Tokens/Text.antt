-- ===== src/Auth/Tokens/Text.antt =====
-- The text of an API token (backend/services/auth/internal/app/credential.go): texts are lists of
-- bytes.
use ec_test.Base.{
  ℕ, zero, suc, ◌+◌, ◌%◌, ◌≡◌, refl, ap, subst, ◌∙◌, ◌<◌, Bool, true, false, ◌||◌, Option, none,
  some, List, [], ◌∷◌, ◌++◌, ◌==◌, leb, ltb, length, if◌then◌else◌, arith, either, length-append,
}

abbrev pub Text : Type 0
Text = List ℕ

abbrev pub underscore : ℕ
underscore = 95

-- `base62Alphabet`: digits, upper case, lower case.
abbrev pub base62_alphabet : ℕ → ℕ
base62_alphabet d = if ltb d 10 then 48 + d else if ltb d 36 then 55 + d else 61 + d

abbrev pub base62_reject_threshold : ℕ
base62_reject_threshold = 248

-- What `rand.Read` makes of the buffer, or its error.
abbrev pub Read : Type 0
Read = Option (List ℕ)

-- The loop over one buffer, with so many characters missing: the characters that it gives, and how
-- many are missing after it.
unfoldable pub from_buffer : ℕ → List ℕ → Text × ℕ
from_buffer zero buf = ([], 0)
from_buffer (suc n) [] = ([], suc n)
from_buffer (suc n) (b ∷ buf) =
    let skipped = from_buffer (suc n) buf in
    let taken = from_buffer n buf in
    if leb base62_reject_threshold b then skipped else (base62_alphabet (b % 62) ∷ taken.0, taken.1)

abbrev pub prepend_all : Text → Option Text → Option Text
prepend_all s none = none
prepend_all s (some t) = some (s ++ t)

-- `generateBase62`, with what `rand.Read` answers each time that the buffer is used up. It fails on
-- an error, and also stands for one that goes on after the last of these answers.
unfoldable pub generate_base62 : ℕ → List Read → Option Text
unfolding from_buffer
generate_base62 zero reads = some []
generate_base62 (suc n) [] = none
generate_base62 (suc n) (none ∷ reads) = none
generate_base62 (suc n) (some buf ∷ reads) =
    let used = from_buffer (suc n) buf in prepend_all used.0 (generate_base62 used.1 reads)

abbrev pub is_empty : Text → Bool
is_empty [] = true
is_empty (c ∷ t) = false

-- `strings.HasPrefix`, with what is left.
unfoldable pub after_prefix : Text → Text → Option Text
after_prefix [] t = some t
after_prefix (c ∷ p) [] = none
after_prefix (c ∷ p) (d ∷ t) = let rest = after_prefix p t in if c == d then rest else none

abbrev pub prepend_first : ℕ → Option (Text × Text) → Option (Text × Text)
prepend_first c none = none
prepend_first c (some (a, b)) = some (c ∷ a, b)

-- `strings.IndexByte`, with what stands before the byte and behind it.
unfoldable pub cut : ℕ → Text → Option (Text × Text)
cut sep [] = none
cut sep (c ∷ t) = let rest = cut sep t in if c == sep then some ([], t) else prepend_first c rest

abbrev pub both_full : Option (Text × Text) → Option (Text × Text)
both_full none = none
both_full (some (a, b)) = if is_empty a || is_empty b then none else some (a, b)

abbrev pub cut_rest : Option Text → Option (Text × Text)
unfolding cut
cut_rest none = none
cut_rest (some rest) = both_full (cut underscore rest)

-- `ParseAPIToken`
unfoldable pub parse_api_token : Text → Text → Option (Text × Text)
unfolding cut_rest after_prefix
parse_api_token raw prefix = if is_empty prefix then none else cut_rest (after_prefix prefix raw)

-- `generateAPIToken` puts the plaintext together.
abbrev pub plaintext_of : Text → Text → Text → Text
plaintext_of prefix lookup secret = prefix ++ (lookup ++ underscore ∷ secret)

after_prefix-append : (p t : Text) → after_prefix p (p ++ t) ≡ some t
unfolding after_prefix
after_prefix-append [] t = refl
after_prefix-append (c ∷ p) t = ground (arith, after_prefix-append p t)

-- No byte of the alphabet is the separator.
abbrev pub IsPlain : Text → Type 0
IsPlain [] = Unit {0}
IsPlain (c ∷ t) = ((c == underscore) ≡ false) × IsPlain t

cut-append : (a b : Text) → IsPlain a → cut underscore (a ++ underscore ∷ b) ≡ some (a, b)
unfolding cut
cut-append [] b h = refl
cut-append (c ∷ a) b h =
    ap
      (λ x.
        if x
        then some ([], a ++ underscore ∷ b)
        else prepend_first c (cut underscore (a ++ underscore ∷ b)))
      h.0
    ∙ ap (prepend_first c) (cut-append a b h.1)

alphabet_plain : (d : ℕ) → d < 62 → (base62_alphabet d == underscore) ≡ false
alphabet_plain d h = ground arith

-- What the generator makes has the length that was asked for, and only reads of the alphabet.
abbrev pub IsGenerated : ℕ → Option Text → Type 0
IsGenerated n none = Unit {0}
IsGenerated n (some t) = IsPlain t × (length t ≡ n)

from_buffer-IsPlain : (n : ℕ) (buf : List ℕ) → IsPlain (from_buffer n buf).0
unfolding from_buffer
from_buffer-IsPlain zero buf = tt
from_buffer-IsPlain (suc n) [] = tt
from_buffer-IsPlain (suc n) (b ∷ buf) =
    let skipped = from_buffer-IsPlain (suc n) buf in
    let taken = from_buffer-IsPlain n buf in
    either (λ (x : Text × ℕ). IsPlain x.0) (leb base62_reject_threshold b) _ _ skipped
      (alphabet_plain (b % 62) (omega arith), taken)

from_buffer-length :
    (n : ℕ) (buf : List ℕ) → length (from_buffer n buf).0 + (from_buffer n buf).1 ≡ n
unfolding from_buffer
from_buffer-length zero buf = refl
from_buffer-length (suc n) [] = omega arith
from_buffer-length (suc n) (b ∷ buf) =
    let skipped = from_buffer-length (suc n) buf in
    let taken = from_buffer-length n buf in
    either (λ (x : Text × ℕ). length x.0 + x.1 ≡ suc n) (leb base62_reject_threshold b) _ _ skipped
      (omega arith)

IsPlain-append : (s t : Text) → IsPlain s → IsPlain t → IsPlain (s ++ t)
IsPlain-append [] t h k = k
IsPlain-append (c ∷ s) t h k = (h.0, IsPlain-append s t h.1 k)

prepend_all-IsGenerated :
    (m n : ℕ) (s : Text) (r : Option Text)
    → IsPlain s
    → length s + m ≡ n
    → IsGenerated m r
    → IsGenerated n (prepend_all s r)
prepend_all-IsGenerated m n s none p l h = tt
prepend_all-IsGenerated m n s (some t) p l h =
    (IsPlain-append s t p h.0, omega (arith, length-append s t, l, h.1))

generate_base62-IsGenerated : (n : ℕ) (reads : List Read) → IsGenerated n (generate_base62 n reads)
unfolding generate_base62
generate_base62-IsGenerated zero reads = (tt, refl)
generate_base62-IsGenerated (suc n) [] = tt
generate_base62-IsGenerated (suc n) (none ∷ reads) = tt
generate_base62-IsGenerated (suc n) (some buf ∷ reads) =
    prepend_all-IsGenerated (from_buffer (suc n) buf).1 (suc n) (from_buffer (suc n) buf).0 _
      (from_buffer-IsPlain (suc n) buf) (from_buffer-length (suc n) buf)
      (generate_base62-IsGenerated (from_buffer (suc n) buf).1 reads)

both_full-cut :
    (a b : Text) → is_empty a ≡ false → is_empty b ≡ false → both_full (some (a, b)) ≡ some (a, b)
both_full-cut [] b h k = ground (arith, h)
both_full-cut (c ∷ a) [] h k = ground (arith, k)
both_full-cut (c ∷ a) (d ∷ b) h k = refl

-- A token is parsed into the texts it was put together from, where the prefix and both texts are not
-- empty and the first has no separator.
pub parse-plaintext :
    (prefix lookup secret : Text)
    → is_empty prefix ≡ false
    → is_empty lookup ≡ false
    → is_empty secret ≡ false
    → IsPlain lookup
    → parse_api_token (plaintext_of prefix lookup secret) prefix ≡ some (lookup, secret)
unfolding parse_api_token
parse-plaintext prefix lookup secret p l s h =
    ap (λ b. if b then none else cut_rest (after_prefix prefix (plaintext_of prefix lookup secret)))
      p
    ∙ ap cut_rest (after_prefix-append prefix (lookup ++ underscore ∷ secret))
    ∙ ap both_full (cut-append lookup secret h)
    ∙ both_full-cut lookup secret l s

full : (n : ℕ) (t : Text) → length t ≡ suc n → is_empty t ≡ false
full n [] h = ground (arith, h)
full n (c ∷ t) h = refl

generated :
    (n : ℕ) (reads : List Read) (t : Text)
    → generate_base62 n reads ≡ some t
    → IsPlain t × (length t ≡ n)
generated n reads t h = subst (IsGenerated n) h (generate_base62-IsGenerated n reads)

-- `apiTokenLookupChars` and `apiTokenSecretChars`
abbrev pub lookup_chars : ℕ
lookup_chars = 12

abbrev pub secret_chars : ℕ
secret_chars = 43

pub generated-full :
    (n : ℕ) (reads : List Read) (t : Text)
    → generate_base62 (suc n) reads ≡ some t
    → is_empty t ≡ false
generated-full n reads t h = full n t (generated (suc n) reads t h).1

-- A token that the generator makes is parsed into its lookup and its secret.
pub parse-generated :
    (prefix : Text) (reads reads' : List Read) (lookup secret : Text)
    → is_empty prefix ≡ false
    → generate_base62 lookup_chars reads ≡ some lookup
    → generate_base62 secret_chars reads' ≡ some secret
    → parse_api_token (plaintext_of prefix lookup secret) prefix ≡ some (lookup, secret)
parse-generated prefix reads reads' lookup secret p l s =
    let one = generated lookup_chars reads lookup l in
    let two = generated secret_chars reads' secret s in
    parse-plaintext prefix lookup secret p (full 11 lookup one.1) (full 42 secret two.1) one.0
