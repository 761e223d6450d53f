-- ===== src/Asm/Lexer.antt =====
-- `normalize`, `tokenize` and `is_name` of src/asm.c. A text is the list of its characters' codes,
-- without the final 0; the character classes are those of the C locale.
pub mod Comments
use Prim.Native.Char.{code}
use Prim.Native.String.{String}
use chip_eight_jit.Common.{
  ℕ, zero, suc, ◌+◌, ◌-◌, Bool, true, false, not, ◌&&◌, ◌||◌, List, [], ◌∷◌, ◌++◌, map, length, ltb,
  leb, ◌==◌, if◌then◌else◌,
}
use chip_eight_jit.Asm.Result.{Result, ok, fail}

abbrev pub Text : Type 0
Text = List ℕ

abbrev pub text : String → Text
text String.[] = []
text (String.◌∷◌ c s) = code c ∷ text s

-- `!strcmp (s, t)`
abbrev pub same : Text → Text → Bool
same [] [] = true
same [] (d ∷ t) = false
same (c ∷ s) [] = false
same (c ∷ s) (d ∷ t) = c == d && same s t

abbrev pub max_tokens : ℕ
max_tokens = 260

abbrev pub isspace : ℕ → Bool
isspace c = c == 32 || (leb 9 c && leb c 13)

abbrev pub isdigit : ℕ → Bool
isdigit c = leb b'0' c && leb c b'9'

abbrev pub isalpha : ℕ → Bool
isalpha c = (leb b'A' c && leb c b'Z') || (leb b'a' c && leb c b'z')

abbrev pub toupper : ℕ → ℕ
toupper c = if leb b'a' c && leb c b'z' then c - 32 else c

abbrev pub starts_comment : ℕ → Bool
starts_comment c = c == b';' || c == b'#'

abbrev pub separates : ℕ → Bool
separates c = isspace c || c == b','

-- The loop of `tokenize`. `into` is the token that is being read, if one is: its end, whichever
-- character that is, is overwritten by a 0 and passed over.
unfoldable pub tokens_of : Bool → Text → Text → List Text
tokens_of false into [] = []
tokens_of true into [] = into ∷ []
tokens_of false into (c ∷ cs) =
    let skipped = tokens_of false [] cs in
    let entered = tokens_of true (c ∷ []) cs in
    if starts_comment c then [] else if separates c then skipped else entered
tokens_of true into (c ∷ cs) =
    let left = tokens_of false [] cs in
    let longer = tokens_of true (into ++ c ∷ []) cs in
    if separates c || starts_comment c then into ∷ left else longer

unfoldable pub normalize : Text → Text
normalize = map toupper

unfoldable pub tokenize : Text → Result (List Text)
tokenize line =
    let tokens = tokens_of false [] line in
    if ltb max_tokens (length tokens) then fail else ok (map normalize tokens)

abbrev pub all_name : Text → Bool
all_name [] = true
all_name (c ∷ cs) = (isalpha c || isdigit c || c == b'_') && all_name cs

unfoldable pub is_name : Text → Bool
is_name [] = false
is_name (c ∷ cs) = (isalpha c || c == b'_') && all_name cs
